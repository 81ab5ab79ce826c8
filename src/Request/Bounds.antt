-- ===== src/Request/Bounds.antt =====
-- Bounds on what each part of read_cb leaves behind, and the fuel for its rounds.
use ubervisor.Common.{
  ℕ, zero, suc, ◌+◌, ◌≤◌, ◌<◌, ◌≡◌, ◌≢◌, ◌⊎◌, inl, inr, refl, Bool, List, [], ◌∷◌, none, some,
  length, length-drop, arith,
}
use ubervisor.Wire.{chunksiz}
use ubervisor.Request.{
  ClientCon, two, Progress, go, stop, gone, ◌>>=◌, read_len, read_cid, ran, read_command, round,
  next, rounds,
}

-- An id is held only with a length, no length is above CHUNKSIZ or, once read, below 4, and the low
-- watermark can be reached below the high one.
pub record IsValid (c : ClientCon) : Type 0 where
  pub held : (0 < c.c_len) ⊎ (c.c_cid ≡ 0)
  pub least : (c.c_len ≡ 0) ⊎ (4 ≤ c.c_len)
  pub bounded : c.c_len ≤ chunksiz
  pub reachable : c.low ≤ chunksiz

length-two :
    (x : List ℕ)
    → (two x ≡ none)
      ⊎ ((a b : ℕ) × (r : List ℕ) × (two x ≡ some (a, b, r)) × (length x ≡ length r + 2))
unfolding two
length-two [] = inl refl
length-two (a ∷ []) = inl refl
length-two (a ∷ b ∷ x) = inr (a, b, x, refl, omega arith)

-- What each part leaves behind: a valid connection, and how the input has shrunk.
abbrev LenKeeps : {S : Type 0} → ClientCon → Progress S → Type 0
LenKeeps c (go c' s') = IsValid c' × (0 < c'.c_len) × (length c'.input ≤ length c.input)
LenKeeps c (stop c' s') = IsValid c' × (length c'.input ≤ length c.input)
LenKeeps c (gone s') = Unit

abbrev CidKeeps : {S : Type 0} → ClientCon → Progress S → Type 0
CidKeeps c (go c' s') =
    IsValid c'
    × (0 < c'.c_len)
    × (length c'.input ≤ length c.input)
    × ((length c'.input < length c.input) ⊎ (0 < c'.c_cid))
CidKeeps c (stop c' s') = IsValid c' × (length c'.input ≤ length c.input)
CidKeeps c (gone s') = Unit

abbrev CommandKeeps : {S : Type 0} → ClientCon → Progress S → Type 0
CommandKeeps c (go c' s') =
    IsValid c'
    × (length c'.input ≤ length c.input)
    × ((length c'.input < length c.input) ⊎ (c.c_cid ≡ 0))
CommandKeeps c (stop c' s') = IsValid c' × (length c'.input ≤ length c.input)
CommandKeeps c (gone s') = Unit

abbrev pub Keeps : {S : Type 0} → ClientCon → Progress S → Type 0
Keeps c (go c' s') = IsValid c' × (length c'.input < length c.input)
Keeps c (stop c' s') = IsValid c' × (length c'.input ≤ length c.input)
Keeps c (gone s') = Unit

module _ {S : Type 0} (run : ℕ → List ℕ → S → Bool × S) (c : ClientCon) (s : S)
    (valid : IsValid c) where
  len_keeps : (p : Progress S) → read_len run c s ≡ p → LenKeeps c p
  unfolding read_len
  len_keeps (go c' s') e = ground (arith, length-two c.input)
  len_keeps (stop c' s') e = ground (arith, length-two c.input)
  len_keeps (gone s') e = tt

  cid_keeps : 0 < c.c_len → (p : Progress S) → read_cid run c s ≡ p → CidKeeps c p
  unfolding read_cid
  cid_keeps h (go c' s') e = ground (arith, length-two c.input)
  cid_keeps h (stop c' s') e = ground (arith, length-two c.input)
  cid_keeps h (gone s') e = tt

  command_keeps : 0 < c.c_len → (p : Progress S) → read_command run c s ≡ p → CommandKeeps c p
  unfolding read_command ran
  command_keeps h (go c' s') e = ground (arith, length-drop c.c_len c.input)
  command_keeps h (stop c' s') e = ground (arith, length-drop c.c_len c.input)
  command_keeps h (gone s') e = tt

module _ {S : Type 0} (run : ℕ → List ℕ → S → Bool × S) where
  after_cid :
      (c c₂ : ClientCon) (s₂ : S)
      → CidKeeps {S = S} c (go c₂ s₂)
      → (p : Progress S) → read_command run c₂ s₂ ≡ p
      → Keeps c p
  after_cid c c₂ s₂ k (go c₃ s₃) e = ground (arith, command_keeps run c₂ s₂ k.0 k.1 (go c₃ s₃) e)
  after_cid c c₂ s₂ k (stop c₃ s₃) e =
      ground (arith, command_keeps run c₂ s₂ k.0 k.1 (stop c₃ s₃) e)
  after_cid c c₂ s₂ k (gone s₃) e = tt

  after_len :
      (c c₁ : ClientCon) (s₁ : S)
      → LenKeeps {S = S} c (go c₁ s₁)
      → (p : Progress S) → read_cid run c₁ s₁ ≡ p
      → Keeps c (p >>= read_command run)
  after_len c c₁ s₁ k (go c₂ s₂) e =
      let k₂ = cid_keeps run c₁ s₁ k.0 k.1 (go c₂ s₂) e in
      after_cid c c₂ s₂ (ground arith) (read_command run c₂ s₂) refl
  after_len c c₁ s₁ k (stop c₂ s₂) e = ground (arith, cid_keeps run c₁ s₁ k.0 k.1 (stop c₂ s₂) e)
  after_len c c₁ s₁ k (gone s₂) e = tt

  from_len :
      (c : ClientCon) (s : S)
      → IsValid c
      → (p : Progress S) → read_len run c s ≡ p
      → Keeps c (p >>= read_cid run >>= read_command run)
  from_len c s valid (go c₁ s₁) e =
      after_len c c₁ s₁ (len_keeps run c s valid (go c₁ s₁) e) (read_cid run c₁ s₁) refl
  from_len c s valid (stop c₁ s₁) e = len_keeps run c s valid (stop c₁ s₁) e
  from_len c s valid (gone s₁) e = tt

  pub round-Keeps : (c : ClientCon) (s : S) → IsValid c → Keeps c (round run c s)
  round-Keeps c s valid = unfold round in from_len c s valid (read_len run c s) refl

  -- With more fuel than bytes the rounds end, and more fuel makes no difference.
  pub rounds-enough :
      (f f' : ℕ) (c : ClientCon) (s : S) (p : Progress S)
      → round run c s ≡ p
      → Keeps c p
      → length c.input < f
      → length c.input < f'
      → (rounds run f c s ≢ none) × (rounds run f c s ≡ rounds run f' c s)
  unfolding rounds next
  rounds-enough zero f' c s p e k h h' = absurd (omega arith)
  rounds-enough (suc f) zero c s p e k h h' = absurd (omega arith)
  rounds-enough (suc f) (suc f') c s (stop c₁ s₁) e k h h' = rw e ((λ x. cc x), refl)
  rounds-enough (suc f) (suc f') c s (gone s₁) e k h h' = rw e ((λ x. cc x), refl)
  rounds-enough (suc f) (suc f') c s (go c₁ s₁) e k h h' = rw e (
      rounds-enough f f' c₁ s₁ (round run c₁ s₁) refl (round-Keeps c₁ s₁ k.0) (omega arith)
        (omega arith))
