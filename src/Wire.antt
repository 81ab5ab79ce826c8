-- ===== src/Wire.antt =====
-- Messages on a connection (docs in doc/source/internals.txt): send_message of cmd_server.c cuts a
-- reply into chunks, read_reply of client.c puts it together again.
-- Bytes are numbers below 256; `uint16_t` lengths stand in network byte order.
pub mod Frames
pub mod Client
pub mod Tests
use ubervisor.Common.{
  ℕ, zero, suc, ◌+◌, ◌-◌, ◌*◌, ◌/◌, ◌%◌, ◌^◌, bit_and, bit_or, Bool, true, false, List, [], ◌∷◌,
  ◌++◌, Option, none, some, ◌≡◌, ltb, leb, ◌==◌, if◌then◌else◌, Str, length, take, drop,
}

-- CHUNKEXT and CHUNKSIZ of cmd_server.h
abbrev pub chunkext : ℕ
chunkext = 0x8000

abbrev pub chunksiz : ℕ
chunksiz = 0x3fff

-- The two bytes of `htons (len)`, in memory order.
unfoldable pub htons : ℕ → List ℕ
htons len = (len / 256 % 256) ∷ (len % 256) ∷ []

-- `ntohs` of two bytes in memory order.
unfoldable pub ntohs : ℕ → ℕ → ℕ
ntohs hi lo = hi * 256 + lo

-- A `uint16_t` that is written as it was read: the bytes of a little-endian host.
unfoldable pub raw16 : ℕ → List ℕ
raw16 x = (x % 256) ∷ (x / 256 % 256) ∷ []

-- What the server uses of libevent's `struct bufferevent`: a write either appends to the output or
-- fails (-1) and appends nothing.
pub record Bufferevent : Type 1 where
  pub Handle : Type 0
  pub output : Handle → List ℕ
  pub bufferevent_write : Handle → List ℕ → Bool × Handle
  pub write-appends :
      (b : Handle) (x : List ℕ)
      → (bufferevent_write b x).0 ≡ true
      → output (bufferevent_write b x).1 ≡ output b ++ x

module _ (lib : Bufferevent) where
  open lib use {Handle, bufferevent_write}

  -- Three writes, with a return at the first that fails.
  unfoldable pub write_chunk : Handle → List ℕ → List ℕ → List ℕ → Bool × Handle
  write_chunk b len cid x =
      let (r₁, b₁) = bufferevent_write b len in
      let (r₂, b₂) = bufferevent_write b₁ cid in
      let (r₃, b₃) = bufferevent_write b₂ x in
      if r₁ then (if r₂ then (r₃, b₃) else (false, b₂)) else (false, b₁)

  -- `return 0` where a write has failed.
  unfoldable pub or_return : Bool × Handle → Option (Bool × Handle) → Option (Bool × Handle)
  or_return (true, b) next = next
  or_return (false, b) next = some (false, b)

  -- The do-while loop of send_message: `rest` is `ret + off`, of length `ret_len - off`. `none` is
  -- out of fuel.
  unfoldable pub send_loop : ℕ → Handle → ℕ → List ℕ → Option (Bool × Handle)
  send_loop zero b cid rest = none
  send_loop (suc fuel) b cid rest =
      let long = ltb chunksiz (length rest) in
      let len = if long then bit_or chunkext chunksiz else length rest in
      let r = if long then chunksiz else length rest in
      let wrote = write_chunk b (htons len) (raw16 cid) (take r rest) in
      let next = send_loop fuel wrote.1 cid (drop r rest) in
      or_return wrote (if ltb 0 (length (drop r rest)) then next else some (true, wrote.1))

  unfoldable pub send_message : Handle → ℕ → List ℕ → Option (Bool × Handle)
  send_message b cid ret = send_loop (suc (length ret)) b cid ret

-- A stream socket as what it will deliver: pieces of bytes and failures; at the end of the list the
-- peer has closed. A piece is not empty.
pub data Delivery : Type 0 where
  piece : List ℕ → Delivery
  failure : Delivery

abbrev pub Socket : Type 0
Socket = List Delivery

-- The bytes that a read leaves are delivered next.
abbrev pub put : List ℕ → Socket → Socket
put [] s = s
put (x ∷ xs) s = piece (x ∷ xs) ∷ s

-- `read (sock, buf, n)`: `none` is -1, an empty list is the 0 of a closed socket.
pub read : ℕ → Socket → Option (List ℕ) × Socket
read n [] = (some [], [])
read n (failure ∷ s) = (none, s)
read n (piece x ∷ s) = (some (take n x), put (drop n x) s)

-- The outcome of a function of the client that ends: NULL, or a value and the socket after it.
-- `none` of an `Option (Reply A)` is out of fuel.
pub data Reply (A : Type 0) : Type 0 where
  null : Reply A
  reply : A → Socket → Reply A

pub two_bytes : Option (List ℕ) × Socket → Option (ℕ × ℕ × Socket)
two_bytes (some (a ∷ b ∷ _), s) = some (a, b, s)
two_bytes _ = none

-- `if ((r = read (sock, &x, 2)) < 0) ...; if (r < 2) ...`: a short read is given up on.
pub read_two : Socket → Option (ℕ × ℕ × Socket)
read_two sock = two_bytes (read 2 sock)

pub prepend : List ℕ → Option (Reply (List ℕ)) → Option (Reply (List ℕ))
prepend xs none = none
prepend xs (some null) = some null
prepend xs (some (reply ys s)) = some (reply (xs ++ ys) s)

-- The body of the loop behind the read, with the loop to go on with.
pub take_in :
    (ℕ → Socket → Option (Reply (List ℕ))) → ℕ → Option (List ℕ) × Socket → Option (Reply (List ℕ))
take_in again need (none, s) = some null
take_in again need (some [], s) = some null
take_in again need (some (x ∷ xs), s) = prepend (x ∷ xs) (again (need - length (x ∷ xs)) s)

-- `while (off < len)` over the reads of the payload, `need` being `len - off`.
pub read_full : ℕ → ℕ → Socket → Option (Reply (List ℕ))
read_full zero need sock = none
read_full (suc fuel) zero sock = some (reply [] sock)
read_full (suc fuel) (suc need) sock = take_in (read_full fuel) (suc need) (read (suc need) sock)

-- The bytes that a socket will deliver at most.
abbrev pub pending : Socket → ℕ
pending [] = 0
pending (piece x ∷ s) = length x + pending s
pending (failure ∷ s) = pending s

-- `ret_siz += len` and `while (cont)`, with the loop to go on with.
pub next_chunk :
    (List ℕ → Socket → Option (Reply (List ℕ)))
    → List ℕ
    → Bool
    → Reply (List ℕ)
    → Option (Reply (List ℕ))
next_chunk again ret cont null = some null
next_chunk again ret true (reply x s) = again (ret ++ x) s
next_chunk again ret false (reply x s) = some (reply (ret ++ x) s)

pub and_then :
    (Reply (List ℕ) → Option (Reply (List ℕ))) → Option (Reply (List ℕ)) → Option (Reply (List ℕ))
and_then f none = none
and_then f (some got) = f got

-- The body of the outer loop behind the header, whose length field is `field`.
pub read_payload :
    (List ℕ → Socket → Option (Reply (List ℕ))) → List ℕ → ℕ → Socket → Option (Reply (List ℕ))
read_payload again ret field sock =
    let cont = bit_and field chunkext == chunkext in
    let len = if cont then field - chunkext else field in
    if field == 0
    then some null
    else and_then (next_chunk again ret cont) (read_full (suc len) len sock)

-- The outer loop of read_reply; `ret` is what the chunks before held.
pub read_chunks : ℕ → List ℕ → Socket → Option (Reply (List ℕ))
read_chunks zero ret sock = none
read_chunks (suc fuel) ret sock = elim (read_two sock) [
  | none ↦ some null
  | some (hi, lo, s₁) ↦ elim (read_two s₁) [
    | none ↦ some null
    | some (_, _, s₂) ↦ read_payload (read_chunks fuel) ret (ntohs hi lo) s₂
  ]
]

pub read_reply : Socket → Option (Reply (List ℕ))
read_reply sock = read_chunks (suc (pending sock)) [] sock
