-- ===== src/Request/Fragments.antt =====
-- read_cb of cmd_server.c on a stream that comes in pieces.
use ubervisor.Common.{
  ℕ, zero, suc, ◌<◌, ◌≡◌, ◌≢◌, refl, ap, ◌∙◌, Bool, List, [], ◌++◌, none, some, length,
  length-append, arith,
}
use mathlib.Core.Path.{subst}
use mathlib.Core.Option.{some-injective}
use ubervisor.Request.{ClientCon, Progress, go, stop, gone, round, next, rounds, read_cb}
use ubervisor.Request.Stages.{more, Extends, round-Extends}
use ubervisor.Request.Bounds.{IsValid, Keeps, round-Keeps, rounds-enough}

module _ {S : Type 0} (run : ℕ → List ℕ → S → Bool × S) where
  -- What the rounds make of a longer input, given the outcome of the shorter one.
  abbrev Continues : ℕ → ClientCon → S → List ℕ → Progress S → Type 0
  Continues g c s y (go c' s') = ⊥
  Continues g c s y (stop c' s') =
      IsValid c'
      × ((h : ℕ)
          → length (c'.input ++ y) < h
          → rounds run g (more c y) s ≡ rounds run h (more c' y) s')
  Continues g c s y (gone s') = rounds run g (more c y) s ≡ some (gone s')

  extends :
      (c : ClientCon) (s : S) (y : List ℕ) (p : Progress S)
      → round run c s ≡ p
      → Extends (round run) c s y p
  extends c s y p e = subst (Extends (round run) c s y) e (round-Extends run y c s)

  keeps : (c : ClientCon) (s : S) (p : Progress S) → IsValid c → round run c s ≡ p → Keeps c p
  keeps c s p valid e = subst (Keeps c) e (round-Keeps run c s valid)

  -- One more round, on the longer input.
  longer :
      (g : ℕ) (c c' : ClientCon) (s s' : S) (y : List ℕ) (q : Progress S)
      → round run (more c y) s ≡ go (more c' y) s'
      → Continues g c' s' y q
      → Continues (suc g) c s y q
  unfolding rounds next
  longer g c c' s s' y (go c₁ s₁) e k = k
  longer g c c' s s' y (stop c₁ s₁) e k = (k.0, λ h small. rw e (k.1 h small))
  longer g c c' s s' y (gone s₁) e k = rw e k

  more-IsValid : (c : ClientCon) (y : List ℕ) → IsValid c → IsValid (more c y)
  more-IsValid c y valid = ground arith

  stops :
      (g : ℕ) (c c' : ClientCon) (s s' : S) (y : List ℕ)
      → round run (more c y) s ≡ round run (more c' y) s'
      → IsValid c'
      → length (c'.input ++ y) < suc g
      → Continues (suc g) c s y (stop c' s')
  unfolding rounds
  stops g c c' s s' y e valid small = (
    valid,
    λ h large.
        ap (next run (rounds run g)) e
        ∙ (rounds-enough run (suc g) h (more c' y) s' _ refl
            (round-Keeps run (more c' y) s' (more-IsValid c' y valid)) small large).1,
  )

  continues :
      (f g : ℕ) (c : ClientCon) (s : S) (y : List ℕ) (p q : Progress S)
      → IsValid c
      → round run c s ≡ p
      → next run (rounds run f) p ≡ some q
      → length (c.input ++ y) < g
      → Continues g c s y q
  unfolding rounds next
  continues f zero c s y p q valid e o small = absurd (omega arith)
  continues f (suc g) c s y (gone s₁) q valid e o small =
      subst (Continues (suc g) c s y) (some-injective _ _ o)
        (rw (extends c s y (gone s₁) e, rounds))
  continues f (suc g) c s y (stop c₁ s₁) q valid e o small =
      let k = keeps c s (stop c₁ s₁) valid e in
      subst (Continues (suc g) c s y) (some-injective _ _ o) (
        stops g c c₁ s s₁ y (extends c s y (stop c₁ s₁) e) k.0
          (omega (arith, length-append c.input y, length-append c₁.input y)))
  continues zero (suc g) c s y (go c₁ s₁) q valid e o small = cc o
  continues (suc f) (suc g) c s y (go c₁ s₁) q valid e o small =
      let k = keeps c s (go c₁ s₁) valid e in
      longer g c c₁ s s₁ y q (extends c s y (go c₁ s₁) e) (
        continues f g c₁ s₁ y (round run c₁ s₁) q k.0 refl o
          (omega (arith, length-append c.input y, length-append c₁.input y)))

  -- read_cb always returns: a valid connection takes at most one round for each byte of its input and
  -- one more.
  pub read_cb-total : (c : ClientCon) (s : S) → IsValid c → read_cb run c s ≢ none
  unfolding read_cb
  read_cb-total c s valid =
      (rounds-enough run (suc (length c.input)) (suc (length c.input)) c s _ refl
        (round-Keeps run c s valid) (omega arith) (omega arith)).0

  -- A valid connection that read_cb keeps is valid: its length stays within CHUNKSIZ, so that a payload
  -- and its NUL fit the callback's buffer, it is not below 4 once read, and the low watermark stays
  -- within reach of the high one.
  pub read_cb-IsValid :
      (c c' : ClientCon) (s s' : S) → IsValid c → read_cb run c s ≡ some (stop c' s') → IsValid c'
  unfolding read_cb rounds
  read_cb-IsValid c c' s s' valid e =
      (continues (length c.input) (suc (length (c.input ++ []))) c s [] _ (stop c' s') valid refl e
        (omega arith)).0

  -- How the stream is cut up does not matter. Where read_cb has returned with the connection kept, more
  -- bytes have the effect that they have where they stood in the input from the start: the same commands
  -- run, and the connection ends the same.
  pub read_cb-more :
      (c c' : ClientCon) (s s' : S) (y : List ℕ)
      → IsValid c
      → read_cb run c s ≡ some (stop c' s')
      → read_cb run (more c y) s ≡ read_cb run (more c' y) s'
  unfolding read_cb rounds
  read_cb-more c c' s s' y valid e =
      (continues (length c.input) (suc (length (c.input ++ y))) c s y _ (stop c' s') valid refl e
          (omega arith)).1
        (suc (length (c'.input ++ y))) (omega arith)

  -- A connection that is dropped is dropped whatever else has arrived: nothing behind the command or the
  -- length that made the server drop it is run.
  pub read_cb-more_gone :
      (c : ClientCon) (s s' : S) (y : List ℕ)
      → IsValid c
      → read_cb run c s ≡ some (gone s')
      → read_cb run (more c y) s ≡ some (gone s')
  unfolding read_cb rounds
  read_cb-more_gone c s s' y valid e =
      continues (length c.input) (suc (length (c.input ++ y))) c s y _ (gone s') valid refl e
        (omega arith)
