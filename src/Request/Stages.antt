-- ===== src/Request/Stages.antt =====
-- The parts of read_cb when more bytes stand behind those that they look at.
use ubervisor.Common.{
  ℕ, ◌≡◌, ◌⊎◌, refl, Bool, List, [], ◌∷◌, ◌++◌, none, some, take-append, drop-append, length-append,
  inl, inr, arith,
}
use ubervisor.Request.{
  ClientCon, two, Progress, go, stop, gone, ◌>>=◌, read_len, read_cid, ran, read_command, round,
}

-- More bytes arrive.
abbrev pub more : ClientCon → List ℕ → ClientCon
more c y = record c { input = c.input ++ y }

-- What a part makes of a longer input, given what it made of the shorter one: what it took it takes
-- again, and where it waited it goes on from where it stood.
abbrev pub Extends :
    {S : Type 0} → (ClientCon → S → Progress S) → ClientCon → S → List ℕ → Progress S → Type 0
Extends f c s y (go c' s') = f (more c y) s ≡ go (more c' y) s'
Extends f c s y (stop c' s') = f (more c y) s ≡ f (more c' y) s'
Extends f c s y (gone s') = f (more c y) s ≡ gone s'

two_cases :
    (x y : List ℕ)
    → (two x ≡ none)
      ⊎ ((a b : ℕ) × (r : List ℕ) × (two x ≡ some (a, b, r)) × (two (x ++ y) ≡ some (a, b, r ++ y)))
unfolding two
two_cases [] y = inl refl
two_cases (a ∷ []) y = inl refl
two_cases (a ∷ b ∷ x) y = inr (a, b, x, refl, refl)

module _ {S : Type 0} (run : ℕ → List ℕ → S → Bool × S) (c : ClientCon) (s : S) (y : List ℕ) where
  read_len-Extends : (p : Progress S) → read_len run c s ≡ p → Extends (read_len run) c s y p
  unfolding read_len
  read_len-Extends (go c' s') e = ground (arith, two_cases c.input y)
  read_len-Extends (stop c' s') e = ground (arith, two_cases c.input y)
  read_len-Extends (gone s') e = ground (arith, two_cases c.input y)

  read_cid-Extends : (p : Progress S) → read_cid run c s ≡ p → Extends (read_cid run) c s y p
  unfolding read_cid
  read_cid-Extends (go c' s') e = ground (arith, two_cases c.input y)
  read_cid-Extends (stop c' s') e = ground (arith, two_cases c.input y)
  read_cid-Extends (gone s') e = ground (arith, two_cases c.input y)

  read_command-Extends :
      (p : Progress S) → read_command run c s ≡ p → Extends (read_command run) c s y p
  unfolding read_command ran
  read_command-Extends (go c' s') e =
      ground (
        arith,
        take-append c.c_len c.input y,
        drop-append c.c_len c.input y,
        length-append c.input y,
      )
  read_command-Extends (stop c' s') e =
      ground (
        arith,
        take-append c.c_len c.input y,
        drop-append c.c_len c.input y,
        length-append c.input y,
      )
  read_command-Extends (gone s') e =
      ground (
        arith,
        take-append c.c_len c.input y,
        drop-append c.c_len c.input y,
        length-append c.input y,
      )

module _ {S : Type 0} (run : ℕ → List ℕ → S → Bool × S) (y : List ℕ) where
  -- Where `read_len` has gone on, it has nothing to do a second time.
  read_len_again :
      (c c' : ClientCon) (s s' : S)
      → read_len run c s ≡ go c' s'
      → read_len run (more c' y) s' ≡ go (more c' y) s'
  unfolding read_len
  read_len_again c c' s s' e = ground (arith, two_cases c.input y)

  -- A part that stops leaves all as it was.
  read_len-stop :
      (c c' : ClientCon) (s s' : S) → read_len run c s ≡ stop c' s' → (c' ≡ c) × (s' ≡ s)
  unfolding read_len
  read_len-stop c c' s s' e = ground (arith, two_cases c.input y)

  read_cid-stop :
      (c c' : ClientCon) (s s' : S) → read_cid run c s ≡ stop c' s' → (c' ≡ c) × (s' ≡ s)
  unfolding read_cid
  read_cid-stop c c' s s' e = ground (arith, two_cases c.input y)

  -- A command that waits for its payload has its length and its id.
  read_command-stop :
      (c c' : ClientCon) (s s' : S)
      → read_command run c s ≡ stop c' s'
      → (c' ≡ c)
        × (s' ≡ s)
        × (read_len run (more c y) s ≡ go (more c y) s)
        × (read_cid run (more c y) s ≡ go (more c y) s)
  unfolding read_command read_len read_cid ran
  read_command-stop c c' s s' e = ground arith

  after_command :
      (c c₁ c₂ : ClientCon) (s s₁ s₂ : S) (p : Progress S)
      → read_len run (more c y) s ≡ go (more c₁ y) s₁
      → read_cid run (more c₁ y) s₁ ≡ go (more c₂ y) s₂
      → read_command run c₂ s₂ ≡ p
      → Extends (round run) c s y p
  unfolding round
  after_command c c₁ c₂ s s₁ s₂ (go c₃ s₃) e₁ e₂ e =
      rw (e₁, e₂) (read_command-Extends run c₂ s₂ y (go c₃ s₃) e)
  after_command c c₁ c₂ s s₁ s₂ (gone s₃) e₁ e₂ e =
      rw (e₁, e₂) (read_command-Extends run c₂ s₂ y (gone s₃) e)
  after_command c c₁ c₂ s s₁ s₂ (stop c₃ s₃) e₁ e₂ e =
      let (same_c, same_s, len, cid) = read_command-stop c₂ c₃ s₂ s₃ e in
      rw (same_c, same_s) (rw (e₁, e₂) (rw (len, cid)))

  after_cid :
      (c c₁ : ClientCon) (s s₁ : S) (p : Progress S)
      → read_len run c s ≡ go c₁ s₁
      → read_cid run c₁ s₁ ≡ p
      → Extends (round run) c s y (p >>= read_command run)
  unfolding round
  after_cid c c₁ s s₁ (go c₂ s₂) e₁ e =
      after_command c c₁ c₂ s s₁ s₂ (read_command run c₂ s₂)
        (read_len-Extends run c s y (go c₁ s₁) e₁) (read_cid-Extends run c₁ s₁ y (go c₂ s₂) e) refl
  after_cid c c₁ s s₁ (gone s₂) e₁ e =
      rw (read_len-Extends run c s y (go c₁ s₁) e₁) (rw (read_cid-Extends run c₁ s₁ y (gone s₂) e))
  after_cid c c₁ s s₁ (stop c₂ s₂) e₁ e =
      let (same_c, same_s) = read_cid-stop c₁ c₂ s₁ s₂ e in
      rw (same_c, same_s)
        (rw (read_len-Extends run c s y (go c₁ s₁) e₁) (rw (read_len_again c c₁ s s₁ e₁)))

  after_len :
      (c : ClientCon) (s : S) (p : Progress S)
      → read_len run c s ≡ p
      → Extends (round run) c s y (p >>= read_cid run >>= read_command run)
  unfolding round
  after_len c s (go c₁ s₁) e = after_cid c c₁ s s₁ (read_cid run c₁ s₁) e refl
  after_len c s (gone s₁) e = rw (read_len-Extends run c s y (gone s₁) e)
  after_len c s (stop c₁ s₁) e =
      let (same_c, same_s) = read_len-stop c c₁ s s₁ e in rw (same_c, same_s)

  pub round-Extends : (c : ClientCon) (s : S) → Extends (round run) c s y (round run c s)
  round-Extends c s = unfold round in after_len c s (read_len run c s) refl
