-- ===== src/Request/Tests.antt =====
-- Requests against a server that records what it runs and fails on an empty payload.
use ubervisor.Common.{
  ℕ, ◌+◌, ◌*◌, ◌≡◌, ◌≢◌, inl, inr, refl, List, [], ◌∷◌, ◌++◌, none, some, arith, Bool, ltb, length,
  replicate, codes,
}
use ubervisor.Wire.{htons, ntohs}
use ubervisor.Request.{
  ClientCon, accept_cb, two, stop, gone, read_len, read_cid, ran, read_command, round, next, rounds,
  read_cb, Sink, sock_write, sock_write_len, then_write, sock_send_command,
}
use ubervisor.Request.Bounds.{IsValid}
use ubervisor.Request.Stages.{more}
use ubervisor.Request.Fragments.{read_cb-total, read_cb-IsValid, read_cb-more}
use ubervisor.Request.RoundTrip.{idle, read_cb-sock_send_command, read_cb-sock_send_command_large}

-- Runs that are recorded with their id; a command of four bytes alone is refused.
abbrev record_run : ℕ → List ℕ → List (ℕ × List ℕ) → Bool × List (ℕ × List ℕ)
record_run cid x s = (ltb 4 (length x), (cid, x) ∷ s)

program : Unit {0}
unfolding read_cb rounds next round read_len read_cid read_command ran two htons ntohs
    sock_send_command sock_write_len sock_write then_write accept_cb
program = tt

-- "LIST{}" under id 3, and the first byte of the next request
abbrev stream : List ℕ
stream = 0 ∷ 6 ∷ 3 ∷ 0 ∷ 76 ∷ 73 ∷ 83 ∷ 84 ∷ 123 ∷ 125 ∷ 0 ∷ []

abbrev waiting : ClientCon
waiting = idle 2 (0 ∷ [])

stream_run :
    read_cb record_run (idle 4 stream) []
    ≡ some (stop waiting ((3, 76 ∷ 73 ∷ 83 ∷ 84 ∷ 123 ∷ 125 ∷ []) ∷ []))
unfolding program
stream_run = refl

-- An id of 0 is taken for an id that has yet to come: the payload's first bytes are read as one.
zero_id :
    read_cb record_run (idle 4 (0 ∷ 5 ∷ 0 ∷ 0 ∷ 76 ∷ 73 ∷ 83 ∷ 84 ∷ 123 ∷ [])) []
    ≡ some
        (stop (record { input = 83 ∷ 84 ∷ 123 ∷ []; low = 5; c_len = 5; c_cid = 76 + 73 * 256 }) [])
unfolding program
zero_id = refl

idle-IsValid : IsValid (idle 4 stream)
idle-IsValid = record {
  held = inr refl;
  least = inl refl;
  bounded = omega arith;
  reachable = omega arith;
}

read_cb-total_example : read_cb record_run (idle 4 stream) [] ≢ none
read_cb-total_example = read_cb-total record_run (idle 4 stream) [] idle-IsValid

read_cb-IsValid_example : IsValid waiting
read_cb-IsValid_example =
    read_cb-IsValid record_run (idle 4 stream) waiting [] _ idle-IsValid stream_run

read_cb-more_example :
    read_cb record_run (more (idle 4 stream) (4 ∷ 1 ∷ [])) []
    ≡ read_cb record_run (more waiting (4 ∷ 1 ∷ [])) ((3, 76 ∷ 73 ∷ 83 ∷ 84 ∷ 123 ∷ 125 ∷ []) ∷ [])
read_cb-more_example =
    read_cb-more record_run (idle 4 stream) waiting []
      ((3, 76 ∷ 73 ∷ 83 ∷ 84 ∷ 123 ∷ 125 ∷ []) ∷ []) (4 ∷ 1 ∷ []) idle-IsValid stream_run

-- A length of 3 makes the server drop the connection.
abbrev short : ClientCon
short = idle 4 (0 ∷ 3 ∷ [])

short-IsValid : IsValid short
short-IsValid = record {
  held = inr refl;
  least = inl refl;
  bounded = omega arith;
  reachable = omega arith;
}

short_run : read_cb record_run short [] ≡ some (gone [])
unfolding program
short_run = refl

abbrev roomy : Sink
roomy = record { sent = []; room = 0x10000 }

read_cb-sock_send_command_example :
    (wire : List ℕ) × ((sock_send_command (codes "GETC") (some (codes "{}")) roomy).1.sent
      ≡ [] ++ wire)
    × (read_cb record_run (idle 4 wire) [] ≡ some (stop (idle 2 []) ((1, codes "GETC{}") ∷ [])))
unfolding program
read_cb-sock_send_command_example =
    read_cb-sock_send_command record_run (codes "GETC") (some (codes "{}")) roomy 4 []
      ((1, codes "GETC{}") ∷ []) (omega arith) (omega arith) refl refl

read_cb-sock_send_command_large_example :
    (wire : List ℕ) × ((sock_send_command (codes "GETC") (some (replicate 0x4000 32)) roomy).1.sent
      ≡ [] ++ wire)
    × (read_cb record_run (idle 4 wire) [] ≡ some (gone []))
unfolding program
read_cb-sock_send_command_large_example =
    read_cb-sock_send_command_large record_run (codes "GETC") (some (replicate 0x4000 32)) roomy 4
      [] (omega arith) (omega arith) refl
