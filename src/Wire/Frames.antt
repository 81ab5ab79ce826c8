-- ===== src/Wire/Frames.antt =====
-- The loop of send_message and the chunks that it appends to the output.
use ubervisor.Common.{
  ℕ, zero, suc, ◌<◌, ◌≡◌, refl, sym, ap, ◌∙◌, Bool, true, false, List, [], ◌++◌, Option, none, some,
  arith, append_assoc, ltb, if◌then◌else◌, Bool-cases, lt→ltb, ◌≢◌, take-length, drop-length,
  ltb→lt, inl, inr, length, take, drop, length-drop,
}
use ubervisor.Wire.{chunksiz, htons, raw16, Bufferevent, write_chunk, or_return, send_loop}

-- The chunks of a message: all but the last are full and carry the CHUNKEXT bit.
unfoldable pub frames : ℕ → ℕ → List ℕ → List ℕ
frames zero cid x = []
frames (suc n) cid x =
    let rest = frames n cid (drop chunksiz x) in
    if ltb chunksiz (length x)
    then htons 0xbfff ++ (raw16 cid ++ (take chunksiz x ++ rest))
    else htons (length x) ++ (raw16 cid ++ x)

module _ (lib : Bufferevent) where
  open lib use {Handle, output, bufferevent_write, write-appends}

  pub write_chunk-output :
      (b : Handle) (x y z : List ℕ)
      → (write_chunk lib b x y z).0 ≡ true
      → output (write_chunk lib b x y z).1 ≡ output b ++ (x ++ (y ++ z))
  unfolding write_chunk
  write_chunk-output b x y z h =
      let b₁ = (bufferevent_write b x).1 in
      let b₂ = (bufferevent_write b₁ y).1 in
      ground (
        arith,
        write-appends b x,
        write-appends b₁ y,
        write-appends b₂ z,
        append_assoc (output b) x y,
        append_assoc (output b) (x ++ y) z,
        append_assoc x y z,
      )

  pub write_chunk-succeeds :
      ((b : Handle) (x : List ℕ) → (bufferevent_write b x).0 ≡ true)
      → (b : Handle) (x y z : List ℕ) → (write_chunk lib b x y z).0 ≡ true
  unfolding write_chunk
  write_chunk-succeeds written b x y z = grind (arith, written)

  last_chunk :
      (b : Handle) (cid : ℕ) (x : List ℕ) (b' : Handle)
      → some (write_chunk lib b (htons (length x)) (raw16 cid) x) ≡ some (true, b')
      → output b' ≡ output b ++ (htons (length x) ++ (raw16 cid ++ x))
  last_chunk b cid x b' e =
      let w = write_chunk lib b (htons (length x)) (raw16 cid) x in
      let eq : w ≡ (true, b') = cc e in
      rw (← ap (λ (p : Bool × Handle). p.1) eq)
        (write_chunk-output b (htons (length x)) (raw16 cid) x (ap (λ (p : Bool × Handle). p.0) eq))

  full_chunk : Handle → ℕ → List ℕ → Bool × Handle
  full_chunk b cid x = write_chunk lib b (htons 0xbfff) (raw16 cid) (take chunksiz x)

  full_chunk-output :
      (b : Handle) (cid : ℕ) (x : List ℕ)
      → (full_chunk b cid x).0 ≡ true
      → output (full_chunk b cid x).1 ≡ output b ++ (htons 0xbfff ++ (raw16 cid ++ take chunksiz x))
  unfolding full_chunk
  full_chunk-output b cid x h = write_chunk-output b (htons 0xbfff) (raw16 cid) (take chunksiz x) h

  send_loop_long :
      (fuel : ℕ) (b : Handle) (cid : ℕ) (x : List ℕ)
      → ltb chunksiz (length x) ≡ true
      → send_loop lib (suc fuel) b cid x
        ≡ or_return lib
            (full_chunk b cid x)
            (send_loop lib fuel (full_chunk b cid x).1 cid (drop chunksiz x))
  unfolding send_loop full_chunk
  send_loop_long fuel b cid x long =
      let more : 0 < length (drop chunksiz x) =
        omega (arith, length-drop chunksiz x, ltb→lt chunksiz (length x) long) in
      rw (long, lt→ltb 0 (length (drop chunksiz x)) more)

  send_loop_short :
      (fuel : ℕ) (b : Handle) (cid : ℕ) (x : List ℕ)
      → ltb chunksiz (length x) ≡ false
      → send_loop lib (suc fuel) b cid x ≡ some (write_chunk lib b (htons (length x)) (raw16 cid) x)
  unfolding send_loop or_return
  send_loop_short fuel b cid x short = rw (short, drop-length x, take-length x) (ground arith)

  or_return-ne-none :
      (w : Bool × Handle) (next : Option (Bool × Handle))
      → next ≢ none
      → or_return lib w next ≢ none
  unfolding or_return
  or_return-ne-none (true, b) next h = h
  or_return-ne-none (false, b) next h = λ e. cc e

  or_return-true :
      (w : Bool × Handle) (next : Option (Bool × Handle)) (b' : Handle)
      → or_return lib w next ≡ some (true, b')
      → (w.0 ≡ true) × (next ≡ some (true, b'))
  unfolding or_return
  or_return-true (true, b) next b' h = (refl, h)
  or_return-true (false, b) next b' h = absurd (ground arith)

  pub send_loop-output :
      (fuel : ℕ) (b : Handle) (cid : ℕ) (x : List ℕ) (b' : Handle)
      → send_loop lib fuel b cid x ≡ some (true, b')
      → output b' ≡ output b ++ frames fuel cid x
  unfolding frames
  send_loop-output zero b cid x b' h = unfold send_loop in cc h
  send_loop-output (suc fuel) b cid x b' h = elim (Bool-cases (ltb chunksiz (length x))) [
    | inl long ↦
        let w = full_chunk b cid x in
        let step = or_return-true w _ b' (sym (send_loop_long fuel b cid x long) ∙ h) in
        let later = send_loop-output fuel w.1 cid (drop chunksiz x) b' step.1 in
        rw (long, later) (rw (full_chunk-output b cid x step.0) (simp append_assoc))
    | inr short ↦
        let e = sym (send_loop_short fuel b cid x short) ∙ h in rw short (last_chunk b cid x b' e)
  ]

  pub send_loop-total :
      (fuel : ℕ) (b : Handle) (cid : ℕ) (x : List ℕ)
      → length x < fuel
      → send_loop lib fuel b cid x ≢ none
  send_loop-total zero b cid x h = absurd (omega arith)
  send_loop-total (suc fuel) b cid x h = elim (Bool-cases (ltb chunksiz (length x))) [
    | inl long ↦
        let shorter : length (drop chunksiz x) < fuel =
          omega (arith, length-drop chunksiz x, ltb→lt chunksiz (length x) long) in
        rw (send_loop_long fuel b cid x long)
          (or_return-ne-none _ _ (send_loop-total fuel _ cid (drop chunksiz x) shorter))
    | inr short ↦ rw (send_loop_short fuel b cid x short) (λ e. cc e)
  ]
