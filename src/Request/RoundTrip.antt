-- ===== src/Request/RoundTrip.antt =====
-- sock_send_command of client.c followed by read_cb of cmd_server.c.
use ubervisor.Common.{
  ℕ, ◌+◌, ◌%◌, ◌^◌, ◌≤◌, ◌<◌, ◌≡◌, Bool, true, false, List, [], ◌++◌, Option, none, some, le→ltb,
  lt→ltb, length, length-append, arith, take-length, drop-length, append_assoc, append-nil,
}
use ubervisor.Wire.{chunksiz, htons}
use ubervisor.Wire.Client.{ntohs-htons}
use ubervisor.Request.{
  payload_of, ClientCon, two, stop, gone, read_len, read_cid, ran, read_command, round, next,
  rounds, read_cb, Sink, sock_write, sock_write_len, then_write, sock_send_command,
}

-- A connection between two commands, with some input.
abbrev pub idle : ℕ → List ℕ → ClientCon
idle low x = record { input = x; low = low; c_len = 0; c_cid = 0 }

-- The bytes of a request under the command id 1.
frame : List ℕ → List ℕ
frame x = htons (length x) ++ (htons 256 ++ x)

module _ {S : Type 0} (run : ℕ → List ℕ → S → Bool × S) (low : ℕ) (x : List ℕ) (s : S) where
  read_cb-frame :
      4 ≤ length x
      → length x ≤ chunksiz
      → (s' : S) → run 1 x s ≡ (true, s')
      → read_cb run (idle low (frame x)) s ≡ some (stop (idle 2 []) s')
  unfolding read_cb rounds next round read_len read_cid read_command ran two frame htons
  read_cb-frame least most s' e =
      rw
        (
          ntohs-htons (length x) (omega arith),
          le→ltb chunksiz (length x) most,
          le→ltb (length x) 4 least,
        )
        (rw (lt→ltb 0 (length x) (omega arith)) (
          rw (lt→ltb 0 (length x) (omega arith), le→ltb (length x) (length x) (omega arith))
            (rw (take-length x, drop-length x, e))))

  read_cb-frame_large :
      chunksiz < length x → length x < 0x10000 → read_cb run (idle low (frame x)) s ≡ some (gone s)
  unfolding read_cb rounds next round read_len read_cid read_command ran two frame htons
  read_cb-frame_large over most =
      rw (ntohs-htons (length x) (omega arith), lt→ltb chunksiz (length x) over)

then_write-sent :
    (x : List ℕ) (w : Bool × Sink)
    → (then_write (sock_write x) w).0 ≡ true
    → (w.0 ≡ true) × ((then_write (sock_write x) w).1.sent ≡ w.1.sent ++ x)
unfolding then_write sock_write
then_write-sent x (true, k) e = ground arith
then_write-sent x (false, k) e = absurd (ground arith)

small_mod : (n : ℕ) → n < 0x10000 → n % 2 ^ 16 ≡ n
small_mod n h = omega arith

three_writes : (a b c : List ℕ) (k : Sink) → Bool × Sink
three_writes a b c k = then_write (sock_write c) (then_write (sock_write b) (sock_write a k))

three_writes-sent :
    (a b c : List ℕ) (k : Sink)
    → (three_writes a b c k).0 ≡ true
    → (three_writes a b c k).1.sent ≡ k.sent ++ (a ++ (b ++ c))
unfolding three_writes then_write
three_writes-sent a b c k e =
    let (e₂, third) = then_write-sent c (then_write (sock_write b) (sock_write a k)) e in
    let (e₁, second) = then_write-sent b (sock_write a k) e₂ in
    let (_, first) = then_write-sent a (true, k) e₁ in rw (third, second, first) (simp append_assoc)

-- The command behind the header, with its payload or with none.
sent_body :
    (cmd : List ℕ) (pl : Option (List ℕ)) (k : Sink)
    → (sock_send_command cmd pl k).0 ≡ true
    → (sock_send_command cmd pl k).1.sent
      ≡ k.sent
        ++ (htons ((length cmd + length (payload_of pl)) % 2 ^ 16)
            ++ (htons 256 ++ (cmd ++ payload_of pl)))
unfolding sock_send_command sock_write_len three_writes
sent_body cmd none k e =
    rw (append-nil cmd) (three_writes-sent (htons ((length cmd + 0) % 2 ^ 16)) (htons 256) cmd k e)
sent_body cmd (some x) k e =
    let len = (length cmd + length x) % 2 ^ 16 in
    let (e₃, fourth) = then_write-sent x (three_writes (htons len) (htons 256) cmd k) e in
    let before = three_writes-sent (htons len) (htons 256) cmd k e₃ in
    rw (fourth, before) (simp append_assoc)

sent_frame :
    (cmd : List ℕ) (pl : Option (List ℕ)) (k : Sink)
    → length (cmd ++ payload_of pl) < 0x10000
    → (sock_send_command cmd pl k).0 ≡ true
    → (sock_send_command cmd pl k).1.sent ≡ k.sent ++ frame (cmd ++ payload_of pl)
unfolding frame
sent_frame cmd pl k small e =
    rw (sent_body cmd pl k e, length-append cmd (payload_of pl))
      (rw (
        small_mod (length cmd + length (payload_of pl))
          (omega (arith, length-append cmd (payload_of pl)))))

module _ {S : Type 0} (run : ℕ → List ℕ → S → Bool × S) where
  -- A request that sock_send_command has written in full, of 4 to CHUNKSIZ bytes, makes a connection
  -- between two commands run exactly that command, name and payload, under the command id 1, once, when
  -- the command succeeds; the connection is between two commands again.
  pub read_cb-sock_send_command :
      (cmd : List ℕ) (pl : Option (List ℕ)) (k : Sink) (low : ℕ) (s s' : S)
      → 4 ≤ length (cmd ++ payload_of pl)
      → length (cmd ++ payload_of pl) ≤ chunksiz
      → (sock_send_command cmd pl k).0 ≡ true
      → run 1 (cmd ++ payload_of pl) s ≡ (true, s')
      → (wire : List ℕ) × ((sock_send_command cmd pl k).1.sent ≡ k.sent ++ wire)
        × (read_cb run (idle low wire) s ≡ some (stop (idle 2 []) s'))
  read_cb-sock_send_command cmd pl k low s s' least most e ran_well = (
    frame (cmd ++ payload_of pl),
    sent_frame cmd pl k (omega arith) e,
    read_cb-frame run low (cmd ++ payload_of pl) s least most s' ran_well,
  )

  -- A request above CHUNKSIZ and below 65536 bytes, which the length field can tell, that the client has written makes the server drop the connection, and
  -- nothing is run.
  pub read_cb-sock_send_command_large :
      (cmd : List ℕ) (pl : Option (List ℕ)) (k : Sink) (low : ℕ) (s : S)
      → chunksiz < length (cmd ++ payload_of pl)
      → length (cmd ++ payload_of pl) < 0x10000
      → (sock_send_command cmd pl k).0 ≡ true
      → (wire : List ℕ) × ((sock_send_command cmd pl k).1.sent ≡ k.sent ++ wire)
        × (read_cb run (idle low wire) s ≡ some (gone s))
  read_cb-sock_send_command_large cmd pl k low s over small e = (
    frame (cmd ++ payload_of pl),
    sent_frame cmd pl k small e,
    read_cb-frame_large run low (cmd ++ payload_of pl) s over small,
  )
