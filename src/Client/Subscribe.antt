-- ===== src/Client/Subscribe.antt =====
-- cmd_subscribe of the client's cmd_subscribe.c.
use ubervisor.Common.{
  ℕ, zero, suc, ◌<◌, ◌≤◌, ◌≡◌, refl, List, [], ◌∷◌, ◌++◌, Option, none, some, Str, codes, length,
  All, true,
}
use mathlib.Core.List.{map}
use ubervisor.Common.Int.{to_int}
use ubervisor.Json.{JsonC}
use ubervisor.Config.Status.{Strtol}
use ubervisor.Wire.{chunksiz, htons, raw16, Reply, Socket, put, read_reply}
use ubervisor.Wire.Client.{read_reply-chunk, read_reply-closed}
use ubervisor.Command.Read.{until_nul}
use ubervisor.Client.{subscribe_object}
use ubervisor.Client.Replies.{raw, error, Ended, fail, line_and}
use ubervisor.Request.{sock_send_command}
use ubervisor.Client.Exchange.{Connection, exchange, no_server, help, print}

-- A line in front of what the loop comes to.
abbrev after_line : Str → Option Ended → Option Ended
after_line x none = none
after_line x (some end) = some (line_and (raw x) end)

-- A round of `while (1)`, with the loop to go on with.
abbrev print_reply : (Socket → Option Ended) → Option (Reply (List ℕ)) → Option Ended
print_reply again none = none
print_reply again (some Reply.null) = some (fail (codes "failed to read reply."))
print_reply again (some (Reply.reply buf sock)) = after_line (until_nul buf) (again sock)

-- The loop, `none` out of fuel.
unfoldable pub subscribe_loop : ℕ → Socket → Option Ended
subscribe_loop zero sock = none
subscribe_loop (suc fuel) sock = print_reply (subscribe_loop fuel) (read_reply sock)

-- The reply to SUBS is not looked at.
abbrev skip_reply : (Socket → Option Ended) → Option (Reply (List ℕ)) → Option Ended
skip_reply again none = none
skip_reply again (some Reply.null) = some (fail (codes "failed to read reply."))
skip_reply again (some (Reply.reply buf sock)) = again sock

module _ (lib : JsonC) where
  -- Any option, `-h` among them, prints the usage; so does a count of arguments that is not one.
  unfoldable pub cmd_subscribe : Strtol → ℕ → List ℕ → List Str → Option Connection → Option Ended
  cmd_subscribe c fuel (ch ∷ later) args con = some help
  cmd_subscribe c fuel [] (ident ∷ []) con =
      exchange (codes "SUBS") (print lib (subscribe_object lib (to_int (c.value ident)))) no_server
        (fail (codes "failed to send command."))
        (λ sock. skip_reply (subscribe_loop fuel) (read_reply sock)) con
  cmd_subscribe c fuel [] [] con = some help
  cmd_subscribe c fuel [] (ident ∷ x ∷ more) con = some help

-- What the server writes for notifications, each under the cid of a subscription.
abbrev pub notified : List (ℕ × Str) → List ℕ
notified [] = []
notified ((cid, x) ∷ l) = (htons (length x) ++ (raw16 cid ++ x)) ++ notified l

-- A text that a notification can carry.
abbrev pub IsNotice : ℕ × Str → Type 0
IsNotice (cid, x) = (0 < length x) × (length x ≤ chunksiz) × (until_nul x ≡ x)

-- The notifications of groups that arrive one after the other.
abbrev pub arrived : List (List (ℕ × Str)) → List (ℕ × Str)
arrived [] = []
arrived (g ∷ later) = g ++ arrived later

-- The connection on which each group arrives as a piece of its own, and which is closed then.
abbrev pub delivered : List (List (ℕ × Str)) → Socket
delivered [] = []
delivered (g ∷ later) = put (notified g) (delivered later)

-- The loop prints the texts of the notifications that reach it, each on a line and in their order, until the
-- connection is closed, where it exits with a failure. One round for each of them, and one more, is enough.
pub subscribe_loop-notified :
    (later : List (List (ℕ × Str))) (g : List (ℕ × Str))
    → All IsNotice (g ++ arrived later)
    → subscribe_loop (suc (length (g ++ arrived later))) (put (notified g) (delivered later))
      ≡ some (
        1,
        map (λ n. raw (n.1)) (g ++ arrived later) ++ error (codes "failed to read reply.") ∷ [],
      )
unfolding subscribe_loop
subscribe_loop-notified [] [] all = rw read_reply-closed refl
subscribe_loop-notified (h ∷ later) [] all = subscribe_loop-notified later h all
subscribe_loop-notified later ((cid, x) ∷ g) all =
    let (some_text, fits, whole) = all.0 in
    rw (read_reply-chunk cid x (notified g) (delivered later) some_text fits)
      (rw (whole, subscribe_loop-notified later g all.1) refl)

-- Where the request of cmd_subscribe is written in full, it passes over the first reply, prints the texts of the
-- notifications that follow, each on a line and in their order, and exits with a failure when the connection is
-- closed. The reply and the notifications may arrive in any number of pieces, but none is cut within a
-- notification; each is of one chunk, and the texts of the notifications are not empty and have no NUL byte. The
-- loop ends within one round for each notification and one more.
pub cmd_subscribe-notified :
    (lib : JsonC) (c : Strtol) (ident : Str) (con : Connection) (first : ℕ × Str)
    (g : List (ℕ × Str)) (later : List (List (ℕ × Str)))
    → (sock_send_command
        (codes "SUBS")
        (print lib (subscribe_object lib (to_int (c.value ident))))
        con.out).0
      ≡ true
    → con.back ≡ put (notified (first ∷ g)) (delivered later)
    → 0 < length (first.1)
    → length (first.1) ≤ chunksiz
    → All IsNotice (g ++ arrived later)
    → cmd_subscribe lib c (suc (length (g ++ arrived later))) [] (ident ∷ []) (some con)
      ≡ some (
        1,
        map (λ n. raw (n.1)) (g ++ arrived later) ++ error (codes "failed to read reply.") ∷ [],
      )
unfolding cmd_subscribe exchange
cmd_subscribe-notified lib c ident con (cid, x) g later sent back some_text fits all =
    rw (sent, back, read_reply-chunk cid x (notified g) (delivered later) some_text fits)
      (subscribe_loop-notified later g all)
