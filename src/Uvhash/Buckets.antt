-- ===== src/Uvhash/Buckets.antt =====
-- Writes to one bucket, and what a lookup in another bucket then sees.
use mathlib.Core.List.{map}
use mathlib.Core.Option
use ubervisor.Common.{
  head?, ℕ, ◌<◌, ◌≡◌, refl, Bool, true, false, List, [], ◌∷◌, arith, ==_iff, if◌then◌else◌, length,
  get_or, set, tail, select, remove_first, get_or-set, select-remove_first, select-remove_first_ne,
  select-remove_first_sole, All,
}

module _ {ℓ} {E : Type ℓ} (bs : List (List E)) (i j : ℕ) (bound : i < length bs) where
  -- A new entry is seen in its own bucket only, where it comes first.
  pub select-push :
      (p : E → Bool) (e : E)
      → (p e ≡ true → i ≡ j)
      → select p (get_or (set bs i (e ∷ get_or bs i [])) j [])
        ≡ (if p e then e ∷ select p (get_or bs j []) else select p (get_or bs j []))
  unfolding select
  select-push p e home =
      rw (get_or-set bs i j (e ∷ get_or bs i []) [] bound) (ground (arith, home, ==_iff i j))

  pub select-pull :
      (p : E → Bool)
      → i ≡ j
      → select p (get_or (set bs i (remove_first p (get_or bs i []))) j [])
        ≡ tail (select p (get_or bs j []))
  select-pull p same =
      rw (get_or-set bs i j (remove_first p (get_or bs i [])) [] bound)
        (ground (arith, same, select-remove_first p (get_or bs i [])))

  pub select-pull_ne :
      (p q : E → Bool)
      → ((e : E) → p e ≡ true → q e ≡ false)
      → select q (get_or (set bs i (remove_first p (get_or bs i []))) j [])
        ≡ select q (get_or bs j [])
  select-pull_ne p q apart =
      rw (get_or-set bs i j (remove_first p (get_or bs i [])) [] bound)
        (ground (arith, select-remove_first_ne p q (get_or bs i []) apart))

module _ {ℓ} {E : Type ℓ} (bs : List (List E)) (i : ℕ) (bound : i < length bs) where
  pub select-pull_sole :
      (p q : E → Bool)
      → ((e : E) → p e ≡ true → q e ≡ true)
      → All (λ e. p e ≡ true) (select q (get_or bs i []))
      → select q (get_or (set bs i (remove_first p (get_or bs i []))) i [])
        ≡ tail (select q (get_or bs i []))
  select-pull_sole p q implies sole =
      rw (get_or-set bs i i (remove_first p (get_or bs i [])) [] bound)
        (ground (arith, select-remove_first_sole p q (get_or bs i []) implies sole))

pub map-head? {ℓ κ} :
    {A : Type ℓ} {B : Type κ} (f : A → B) (xs : List A) → Option.map f (head? xs) ≡ head? (map f xs)
map-head? f [] = refl
map-head? f (x ∷ xs) = refl

pub map-tail {ℓ κ} :
    {A : Type ℓ} {B : Type κ} (f : A → B) (xs : List A) → map f (tail xs) ≡ tail (map f xs)
map-tail f [] = refl
map-tail f (x ∷ xs) = refl
