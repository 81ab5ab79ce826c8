-- ===== src/Request.antt =====
-- Requests: sock_send_command of client.c writes one, read_cb of cmd_server.c takes requests off a
-- connection and runs them. The state `S` behind a command and the command's run are parameters,
-- which the server fills with run_server_command.
pub mod Stages
pub mod Bounds
pub mod Fragments
pub mod RoundTrip
mod Tests
use ubervisor.Common.{
  ℕ, zero, suc, ◌+◌, ◌-◌, ◌*◌, ◌%◌, ◌^◌, Bool, true, false, ◌&&◌, not, List, [], ◌∷◌, ◌++◌, Option,
  none, some, ltb, ◌==◌, if◌then◌else◌, length, take, drop,
}
use ubervisor.Wire.{chunksiz, htons, ntohs}

-- `struct client_con` with what libevent holds for it: the bytes of `b->input` and the low watermark
-- for reading. The high watermark is CHUNKSIZ throughout.
pub record ClientCon : Type 0 where
  pub input : List ℕ
  pub low : ℕ
  pub c_len : ℕ
  pub c_cid : ℕ

-- The connection that accept_cb sets up.
pub accept_cb : ClientCon
accept_cb = record { input = []; low = 4; c_len = 0; c_cid = 0 }

-- `EVBUFFER_LENGTH (b->input) < 2`, or the two bytes that bufferevent_read then takes off. Where the
-- buffer holds what is asked for, bufferevent_read delivers it, so its short reads do not arise.
pub two : List ℕ → Option (ℕ × ℕ × List ℕ)
two (a ∷ b ∷ rest) = some (a, b, rest)
two _ = none

-- A part of the callback ends in `go` to fall through to what follows, in `stop` to return with the
-- connection kept, or in `gone` to return with the connection dropped.
pub data Progress (S : Type 0) : Type 0 where
  go : ClientCon → S → Progress S
  stop : ClientCon → S → Progress S
  gone : S → Progress S

infixl 5 ◌>>=◌
abbrev pub ◌>>=◌ : {S : Type 0} → Progress S → (ClientCon → S → Progress S) → Progress S
go c s >>= f = f c s
stop c s >>= f = stop c s
gone s >>= f = gone s

module _ {S : Type 0} (run : ℕ → List ℕ → S → Bool × S) where
  -- read command len: `drop_client_connection` for a length above CHUNKSIZ or below 4
  pub read_len : ClientCon → S → Progress S
  read_len c s =
      if (c.c_len == 0) && (c.c_cid == 0)
      then elim (two c.input) [
        | none ↦ stop c s
        | some (hi, lo, rest) ↦
            let len = ntohs hi lo in
            if ltb chunksiz len
            then gone s
            else if ltb len 4
            then gone s
            else go (record c { input = rest; c_len = len; low = 2 }) s
      ]
      else go c s

  -- read command cid
  pub read_cid : ClientCon → S → Progress S
  read_cid c s =
      if ltb 0 c.c_len && (c.c_cid == 0)
      then elim (two c.input) [
        | none ↦ stop c s
        | some (a, b, rest) ↦ go (record c { input = rest; c_cid = a + b * 256; low = c.c_len }) s
      ]
      else go c s

  -- `if (!run_server_command (buf, c)) return; c->c_cid = 0;`
  pub ran : ClientCon → Bool × S → Progress S
  ran c (true, s) = go (record c { c_cid = 0 }) s
  ran c (false, s) = gone s

  -- read command name and payload
  pub read_command : ClientCon → S → Progress S
  read_command c s =
      if ltb 0 c.c_len && not (c.c_cid == 0)
      then (if ltb (length c.input) c.c_len
          then stop c s
          else ran (record c { input = drop c.c_len c.input; low = 2; c_len = 0 })
              (run c.c_cid (take c.c_len c.input) s))
      else go c s

  -- One round of `while (1)`.
  pub round : ClientCon → S → Progress S
  round c s = read_len c s >>= read_cid >>= read_command

  -- Falling off the end of a round starts the next.
  pub next : (ClientCon → S → Option (Progress S)) → Progress S → Option (Progress S)
  next again (go c s) = again c s
  next again (stop c s) = some (stop c s)
  next again (gone s) = some (gone s)

  -- The rounds; `none` is out of fuel.
  pub rounds : ℕ → ClientCon → S → Option (Progress S)
  rounds zero c s = none
  rounds (suc fuel) c s = next (rounds fuel) (round c s)

  pub read_cb : ClientCon → S → Option (Progress S)
  read_cb c s = rounds (suc (length c.input)) c s

-- A descriptor that takes `room` more bytes before `write` falls short.
pub record Sink : Type 0 where
  pub sent : List ℕ
  pub room : ℕ

-- `write (sock, x, n) != n`, with what was written all the same.
unfoldable pub sock_write : List ℕ → Sink → Bool × Sink
sock_write x k =
    if ltb k.room (length x)
    then (false, record { sent = k.sent ++ take k.room x; room = 0 })
    else (true, record { sent = k.sent ++ x; room = k.room - length x })

unfoldable pub sock_write_len : ℕ → Sink → Bool × Sink
sock_write_len len k = sock_write (htons len) k

-- The next write, where none has failed.
unfoldable pub then_write : (Sink → Bool × Sink) → Bool × Sink → Bool × Sink
then_write f (true, k) = f k
then_write f (false, k) = (false, k)

-- `strlen (pl)` bytes, and none for a missing payload.
abbrev pub payload_of : Option (List ℕ) → List ℕ
payload_of none = []
payload_of (some x) = x

-- `len` is a `uint16_t`; `cid` is `ntohs (1)` on a little-endian host. A missing payload is `none`.
unfoldable pub sock_send_command : List ℕ → Option (List ℕ) → Sink → Bool × Sink
sock_send_command cmd pl k =
    let len = (length cmd + length (payload_of pl)) % 2 ^ 16 in
    let cid : ℕ = 256 in
    let header = then_write (sock_write_len cid) (sock_write_len len k) in
    let named = then_write (sock_write cmd) header in
    elim pl [ none ↦ named | some x ↦ then_write (sock_write x) named ]
