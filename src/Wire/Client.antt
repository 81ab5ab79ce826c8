-- ===== src/Wire/Client.antt =====
-- send_message of cmd_server.c followed by read_reply of client.c.
use ubervisor.Common.{
  if◌then◌else◌, ℕ, zero, suc, ◌+◌, ◌-◌, ◌/◌, ◌%◌, ◌≤◌, ◌<◌, bit_and, ◌≡◌, ◌≢◌, refl, ap, ◌∙◌, Bool,
  true, false, List, [], ◌∷◌, ◌++◌, Option, none, some, arith, append_assoc, append-nil, ltb,
  ltb→lt, ltb→le, ==_iff, ◌==◌, Bool-cases, inl, inr, length, take, drop, length-take, length-drop,
  take_all, drop_all, take-append-drop, length-append,
}
use ubervisor.Wire.{
  chunkext, chunksiz, htons, ntohs, raw16, Bufferevent, send_message, Socket, null, put, read,
  Reply, reply, two_bytes, read_two, prepend, take_in, read_full, pending, next_chunk, and_then,
  read_payload, read_chunks, read_reply,
}
use ubervisor.Wire.Frames.{frames, send_loop-output, send_loop-total}

-- A test that passes for every number under a limit.
passes : (ℕ → Bool) → ℕ → Bool
passes test zero = true
passes test (suc limit) = if test limit then passes test limit else false

passes-test :
    (test : ℕ → Bool) (limit len : ℕ) → passes test limit ≡ true → len < limit → test len ≡ true
unfolding passes
passes-test test zero len all small = absurd (omega arith)
passes-test test (suc limit) len all small = ground (arith, passes-test test limit len)

-- A length that fits a chunk does not carry the CHUNKEXT bit.
abbrev is_plain : ℕ → Bool
is_plain len = bit_and len chunkext == 0

plain_lengths : passes is_plain 0x4000 ≡ true
unfolding passes
plain_lengths = refl

plain_length : (x : ℕ) → x ≤ chunksiz → (bit_and x chunkext == chunkext) ≡ false
plain_length x h =
    let plain = passes-test is_plain 0x4000 x plain_lengths (omega arith) in
    rw ((==_iff (bit_and x chunkext) 0).0 plain)

read-put :
    (n : ℕ) (x y : List ℕ) (s : Socket)
    → 0 < n
    → length x ≡ n
    → read n (put (x ++ y) s) ≡ (some x, put y s)
unfolding read
read-put n [] y s h e = absurd (omega arith)
read-put n (a ∷ x) y s h e = rw (← e, take_all x y, drop_all x y)

sub_same : (m n : ℕ) → m ≡ n → suc n - suc m ≡ 0
sub_same m n e = omega arith

read_two-put :
    (a b : ℕ) (y : List ℕ) (s : Socket) → read_two (put (a ∷ b ∷ y) s) ≡ some (a, b, put y s)
unfolding read_two two_bytes
read_two-put a b y s = rw (read-put 2 (a ∷ b ∷ []) y s (omega arith) refl)

take_in-reply :
    (again : ℕ → Socket → Option (Reply (List ℕ))) (n a : ℕ) (x : List ℕ) (s t : Socket)
    → again (suc n - suc (length x)) s ≡ some (reply [] t)
    → take_in again (suc n) (some (a ∷ x), s) ≡ some (reply (a ∷ x) t)
unfolding take_in prepend
take_in-reply again n a x s t e = rw e (ap (λ z. some (reply (a ∷ z) t)) (append-nil x))

read_full-put :
    (n : ℕ) (x y : List ℕ) (s : Socket)
    → length x ≡ n
    → read_full (suc n) n (put (x ++ y) s) ≡ some (reply x (put y s))
unfolding read_full
read_full-put zero [] y s e = refl
read_full-put zero (a ∷ x) y s e = absurd (omega arith)
read_full-put (suc n) [] y s e = absurd (omega arith)
read_full-put (suc n) (a ∷ x) y s e =
    rw (read-put (suc n) (a ∷ x) y s (omega arith) e, read_full)
      (take_in-reply (read_full (suc n)) n a x (put y s) (put y s)
        (rw (sub_same (length x) n (omega arith))))

pub ntohs-htons : (n : ℕ) → n < 0x10000 → ntohs (n / 256 % 256) (n % 256) ≡ n
unfolding ntohs
ntohs-htons n h = omega arith

read_chunks-put :
    (fuel : ℕ) (ret : List ℕ) (len cid : ℕ) (x : List ℕ) (s : Socket)
    → len < 0x10000
    → read_chunks (suc fuel) ret (put (htons len ++ (raw16 cid ++ x)) s)
      ≡ read_payload (read_chunks fuel) ret len (put x s)
unfolding read_chunks htons raw16
read_chunks-put fuel ret len cid x s h =
    rw (read_two-put, read_chunks) (rw (read_two-put, read_chunks) (rw (ntohs-htons len h)))

module _ (again : List ℕ → Socket → Option (Reply (List ℕ))) (ret x y : List ℕ) (s : Socket) where
  read_payload-full :
      length x ≡ chunksiz
      → read_payload again ret 0xbfff (put (x ++ y) s) ≡ again (ret ++ x) (put y s)
  unfolding read_payload and_then next_chunk
  read_payload-full e = rw (read_full-put 0x3fff x y s e)

  read_payload-last :
      0 < length x
      → length x ≤ chunksiz
      → read_payload again ret (length x) (put (x ++ y) s) ≡ some (reply (ret ++ x) (put y s))
  unfolding read_payload and_then next_chunk
  read_payload-last h e =
      let positive : (length x == 0) ≡ false = ground arith in
      rw (positive, plain_length (length x) e) (rw (read_full-put (length x) x y s refl))

read_full_chunk :
    (fuel : ℕ) (ret : List ℕ) (cid : ℕ) (x z y : List ℕ) (s : Socket)
    → length x ≡ chunksiz
    → read_chunks (suc fuel) ret (put ((htons 0xbfff ++ (raw16 cid ++ (x ++ z))) ++ y) s)
      ≡ read_chunks fuel (ret ++ x) (put (z ++ y) s)
read_full_chunk fuel ret cid x z y s e =
    rw (append_assoc (htons 0xbfff), append_assoc (raw16 cid), append_assoc x)
      (read_chunks-put fuel ret 0xbfff cid (x ++ (z ++ y)) s (omega arith)
        ∙ read_payload-full (read_chunks fuel) ret x (z ++ y) s e)

read_last_chunk :
    (fuel : ℕ) (ret : List ℕ) (cid : ℕ) (x y : List ℕ) (s : Socket)
    → 0 < length x
    → length x ≤ chunksiz
    → read_chunks (suc fuel) ret (put ((htons (length x) ++ (raw16 cid ++ x)) ++ y) s)
      ≡ some (reply (ret ++ x) (put y s))
read_last_chunk fuel ret cid x y s h e =
    rw (append_assoc (htons (length x)), append_assoc (raw16 cid))
      (read_chunks-put fuel ret (length x) cid (x ++ y) s (omega arith)
        ∙ read_payload-last (read_chunks fuel) ret x y s h e)

-- A message that fits into one chunk.
pub read_reply-chunk :
    (cid : ℕ) (x y : List ℕ) (s : Socket)
    → 0 < length x
    → length x ≤ chunksiz
    → read_reply (put ((htons (length x) ++ (raw16 cid ++ x)) ++ y) s) ≡ some (reply x (put y s))
unfolding read_reply
read_reply-chunk cid x y s h e = read_last_chunk _ [] cid x y s h e

regroup : (ret : List ℕ) (n : ℕ) (x : List ℕ) → (ret ++ take n x) ++ drop n x ≡ ret ++ x
regroup ret n x = rw (append_assoc ret, take-append-drop n x)

read_chunks-frames :
    (n : ℕ) (ret : List ℕ) (cid : ℕ) (x y : List ℕ) (s : Socket) (fuel : ℕ)
    → 0 < length x
    → length x ≤ n
    → n ≤ fuel
    → read_chunks fuel ret (put (frames n cid x ++ y) s) ≡ some (reply (ret ++ x) (put y s))
unfolding frames
read_chunks-frames zero ret cid x y s fuel h e f = absurd (omega arith)
read_chunks-frames (suc n) ret cid x y s zero h e f = absurd (omega arith)
read_chunks-frames (suc n) ret cid x y s (suc fuel) h e f =
    elim (Bool-cases (ltb chunksiz (length x))) [
      | inl long ↦
          let x₀ = take chunksiz x in
          let x₁ = drop chunksiz x in
          let over = ltb→lt chunksiz (length x) long in
          let full : length x₀ ≡ chunksiz = omega (arith, length-take chunksiz x) in
          let later =
            read_chunks-frames n (ret ++ x₀) cid x₁ y s fuel (omega (arith, length-drop chunksiz x))
              (omega (arith, length-drop chunksiz x)) (omega arith) in
          rw long (
            read_full_chunk fuel ret cid x₀ (frames n cid x₁) y s full
            ∙ later
            ∙ ap (λ z. some (reply z (put y s))) (regroup ret chunksiz x))
      | inr short ↦
          rw short (read_last_chunk fuel ret cid x y s h (ltb→le chunksiz (length x) short))
    ]

pending-put : (x : List ℕ) (s : Socket) → pending (put x s) ≡ length x + pending s
pending-put [] s = omega arith
pending-put (a ∷ x) s = refl

length-le-frames : (n cid : ℕ) (x : List ℕ) → length x ≤ n → length x ≤ length (frames n cid x)
unfolding frames
length-le-frames zero cid x h = omega arith
length-le-frames (suc n) cid x h = elim (Bool-cases (ltb chunksiz (length x))) [
  | inl long ↦
      let over = ltb→lt chunksiz (length x) long in
      let later =
        length-le-frames n cid (drop chunksiz x) (omega (arith, length-drop chunksiz x)) in
      rw
        (
          long,
          length-append (htons 0xbfff),
          length-append (raw16 cid),
          length-append (take chunksiz x),
        )
        (omega (arith, later, length-drop chunksiz x, length-take chunksiz x))
  | inr short ↦
      rw (short, length-append (htons (length x)), length-append (raw16 cid)) (omega arith)
]

-- Whatever send_message writes in full for a message that is not empty, read_reply reads back as
-- that message, byte for byte and however many chunks it takes, when the chunks come in one piece;
-- what was sent behind them is left on the socket.
pub read_reply-send_message :
    (lib : Bufferevent) (b b' : lib.Handle) (cid : ℕ) (msg later : List ℕ) (s : Socket)
    → 0 < length msg
    → send_message lib b cid msg ≡ some (true, b')
    → (wire : List ℕ) × (lib.output b' ≡ lib.output b ++ wire)
      × (read_reply (put (wire ++ later) s) ≡ some (reply msg (put later s)))
unfolding send_message read_reply
read_reply-send_message lib b b' cid msg later s h e = (
  frames (suc (length msg)) cid msg,
  send_loop-output lib (suc (length msg)) b cid msg b' e,
  read_chunks-frames (suc (length msg)) [] cid msg later s
      (suc (pending (put (frames (suc (length msg)) cid msg ++ later) s))) h (omega arith)
      (omega (
        arith,
        pending-put (frames (suc (length msg)) cid msg ++ later) s,
        length-append (frames (suc (length msg)) cid msg) later,
        length-le-frames (suc (length msg)) cid msg (omega arith),
      )),
)

-- send_message always ends: with every outcome of the writes, its loop stops within one round for
-- each byte of the message and one more.
pub send_message-total :
    (lib : Bufferevent) (b : lib.Handle) (cid : ℕ) (msg : List ℕ)
    → send_message lib b cid msg ≢ none
unfolding send_message
send_message-total lib b cid msg = send_loop-total lib (suc (length msg)) b cid msg (omega arith)

-- A connection that is closed gives no reply.
pub read_reply-closed : read_reply [] ≡ some null
unfolding read_reply read_chunks read_two two_bytes read
read_reply-closed = refl
