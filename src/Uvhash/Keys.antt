-- ===== src/Uvhash/Keys.antt =====
-- The keys of the string table of uvhash.c as addresses: those that the table holds lie below a bound, so that a
-- text that is written at a later address is not seen through them.
use ubervisor.Common.{
  ℕ, ◌<◌, ◌≤◌, ◌%◌, ◌≡◌, refl, Bool, List, [], ◌∷◌, inl, inr, arith, Bool-cases, ◌==◌, Str, str_eq,
  get_or, set, select, remove_first, get_or-set, get_or-replicate, All, All-map, length, ap,
}
use ubervisor.Uvhash.{
  UvstrhashEnt, Uvstrhash, hash_str, uvstrhash_new, uvstrhash_insert, uvstrhash_remove,
}
use ubervisor.Uvhash.Text.{IsValid, bucket, entries}

module _ {ℓ} {A : Type ℓ} where
  select-congr :
      (P : A → Type 0) (p q : A → Bool) (xs : List A)
      → ((x : A) → P x → p x ≡ q x)
      → All P xs
      → select p xs ≡ select q xs
  unfolding select
  select-congr P p q [] same all = refl
  select-congr P p q (x ∷ xs) same all =
      ground (arith, same x all.0, select-congr P p q xs same all.1)

  remove_first-All :
      (P : A → Type 0) (p : A → Bool) (xs : List A) → All P xs → All P (remove_first p xs)
  unfolding remove_first
  remove_first-All P p [] all = tt
  remove_first-All P p (x ∷ xs) all = elim (Bool-cases (p x)) [
    | inl hit ↦ rw (remove_first, hit) all.1
    | inr kept ↦ rw (remove_first, kept) (all.0, remove_first-All P p xs all.1)
  ]

module _ {ℓ} {V : Type ℓ} where
  -- The keys of the table are below `n`.
  abbrev pub AreBelow : ℕ → Uvstrhash V → Type 0
  AreBelow n h = (i : ℕ) → All (λ ent. ent.she_key < n) (get_or h.sh_buckets i [])

  pub AreBelow-le : (n m : ℕ) (h : Uvstrhash V) → n ≤ m → AreBelow n h → AreBelow m h
  AreBelow-le n m h le below i = All-map (get_or h.sh_buckets i []) (λ e lt. omega arith) (below i)

  set-All :
      (P : UvstrhashEnt V → Type 0) (bs : List (List (UvstrhashEnt V))) (i : ℕ)
      (v : List (UvstrhashEnt V))
      → i < length bs
      → All P v
      → ((j : ℕ) → All P (get_or bs j []))
      → (j : ℕ) → All P (get_or (set bs i v) j [])
  set-All P bs i v bound new old j = elim (Bool-cases (i == j)) [
    | inl same ↦ rw (get_or-set bs i j v [] bound, same) new
    | inr other ↦ rw (get_or-set bs i j v [] bound, other) (old j)
  ]

module _ {ℓ} (V : Type ℓ) where
  pub uvstrhash_new-AreBelow : (size n : ℕ) → AreBelow {V = V} n (uvstrhash_new size)
  unfolding uvstrhash_new
  uvstrhash_new-AreBelow size n i = rw (get_or-replicate {A = List (UvstrhashEnt V)} size i []) tt

module _ {ℓ} {V : Type ℓ} (mem : ℕ → Str) (h : Uvstrhash V) (k : ℕ) (valid : IsValid h) where
  bound : hash_str (mem k) % h.sh_size < length h.sh_buckets
  bound = let positive = valid.positive in let sized = valid.sized in grind arith

  pub uvstrhash_insert-AreBelow :
      (v : V) (n : ℕ) → k < n → AreBelow n h → AreBelow n (uvstrhash_insert mem h k v)
  unfolding uvstrhash_insert
  uvstrhash_insert-AreBelow v n lt below =
      set-All (λ ent. ent.she_key < n) h.sh_buckets (hash_str (mem k) % h.sh_size) _ bound
        (lt, below _) below

  pub uvstrhash_remove-AreBelow : (n : ℕ) → AreBelow n h → AreBelow n (uvstrhash_remove mem h k)
  unfolding uvstrhash_remove
  uvstrhash_remove-AreBelow n below =
      set-All (λ ent. ent.she_key < n) h.sh_buckets (hash_str (mem k) % h.sh_size) _ bound
        (remove_first-All _ (λ ent. ent.she_key == k) _ (below _)) below

module _ {ℓ} {V : Type ℓ} (mem mem' : ℕ → Str) (h : Uvstrhash V) where
  -- A table whose keys are below `n` looks the same in two memories that agree below `n`.
  pub entries-memory :
      (n : ℕ) (t : Str)
      → AreBelow n h
      → ((k : ℕ) → k < n → mem' k ≡ mem k)
      → entries mem' h t ≡ entries mem h t
  unfolding entries bucket
  entries-memory n t below agree =
      select-congr (λ ent. ent.she_key < n) (λ ent. str_eq (mem' ent.she_key) t)
        (λ ent. str_eq (mem ent.she_key) t) (get_or h.sh_buckets (hash_str t % h.sh_size) [])
        (λ e lt. ap (λ x. str_eq x t) (agree e.she_key lt)) (below (hash_str t % h.sh_size))
