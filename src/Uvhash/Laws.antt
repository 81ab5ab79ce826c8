-- ===== src/Uvhash/Laws.antt =====
-- The pid table of uvhash.c as a map from a key to the stack of the values stored under it.
use mathlib.Core.List.{map}
use ubervisor.Common.{
  ℕ, ◌%◌, ◌<◌, ◌≡◌, refl, ap, ◌∙◌, true, List, [], ◌∷◌, some, arith, ◌==◌, ==_iff, if◌then◌else◌,
  inl, inr, Bool-cases, length, get_or, head?, tail, select, length-set, get_or-replicate,
  length-replicate, find_first-select,
}
use ubervisor.Uvhash.{
  UvhashEnt, Uvhash, hash_uint, uvhash_new, uvhash_insert, uvhash_find, uvhash_remove,
}
use ubervisor.Uvhash.Buckets.{select-push, select-pull, select-pull_ne, map-head?, map-tail}

module _ {ℓ} {V : Type ℓ} where
  pub record IsValid (h : Uvhash V) : Type ℓ where
    pub positive : 0 < h.h_size
    pub sized : length h.h_buckets ≡ h.h_size

  bucket : Uvhash V → ℕ → List (UvhashEnt V)
  bucket h k = get_or h.h_buckets (hash_uint k % h.h_size) []

  -- The values under a key, the newest first.
  pub stack : Uvhash V → ℕ → List V
  unfolding bucket
  stack h k = map (λ ent. ent.he_value) (select (λ ent. ent.he_key == k) (bucket h k))

  bound : (h : Uvhash V) (k : ℕ) → IsValid h → hash_uint k % h.h_size < length h.h_buckets
  bound h k valid = grind arith

  pub uvhash_find-stack : (h : Uvhash V) (k : ℕ) → uvhash_find h k ≡ head? (stack h k)
  unfolding uvhash_find stack
  uvhash_find-stack h k =
      rw (find_first-select (λ ent. ent.he_key == k) (bucket h k))
        (map-head? (λ ent. ent.he_value) (select (λ ent. ent.he_key == k) (bucket h k)))

  pub uvhash_new-IsValid : (n : ℕ) → 0 < n → IsValid (uvhash_new n)
  unfolding uvhash_new
  uvhash_new-IsValid n h = record { positive = h; sized = length-replicate n [] }

  pub stack-uvhash_new : (n k : ℕ) → stack (uvhash_new n) k ≡ []
  unfolding uvhash_new stack select
  stack-uvhash_new n k = rw (get_or-replicate {A = List (UvhashEnt V)} n (hash_uint k % n) [])

  pub uvhash_insert-IsValid :
      (h : Uvhash V) (k : ℕ) (v : V) → IsValid h → IsValid (uvhash_insert h k v)
  unfolding uvhash_insert
  uvhash_insert-IsValid h k v valid = record {
    positive = valid.positive;
    sized = length-set h.h_buckets _ _ ∙ valid.sized;
  }

  pub uvhash_remove-IsValid : (h : Uvhash V) (k : ℕ) → IsValid h → IsValid (uvhash_remove h k)
  unfolding uvhash_remove
  uvhash_remove-IsValid h k valid = record {
    positive = valid.positive;
    sized = length-set h.h_buckets _ _ ∙ valid.sized;
  }

  home :
      (h : Uvhash V) (k j : ℕ) → (k == j) ≡ true → hash_uint k % h.h_size ≡ hash_uint j % h.h_size
  home h k j e = ap (λ x. hash_uint x % h.h_size) ((==_iff k j).0 e)

  pub stack-uvhash_insert :
      (h : Uvhash V) (k j : ℕ) (v : V)
      → IsValid h
      → stack (uvhash_insert h k v) j ≡ (if k == j then v ∷ stack h j else stack h j)
  unfolding uvhash_insert stack
  stack-uvhash_insert h k j v valid =
      let e : UvhashEnt V = record { he_key = k; he_value = v } in
      let push =
        select-push h.h_buckets (hash_uint k % h.h_size) (hash_uint j % h.h_size) (bound h k valid)
          (λ ent. ent.he_key == j) e (home h k j) in
      rw push (ground arith)

  pub stack-uvhash_remove :
      (h : Uvhash V) (k j : ℕ)
      → IsValid h
      → stack (uvhash_remove h k) j ≡ (if k == j then tail (stack h j) else stack h j)
  unfolding uvhash_remove stack
  stack-uvhash_remove h k j valid =
      let i = hash_uint k % h.h_size in
      elim (Bool-cases (k == j)) [
        | inl same ↦
            let eq = (==_iff k j).0 same in
            rw
              (
                same,
                ← eq,
                select-pull h.h_buckets i i (bound h k valid) (λ ent. ent.he_key == k) refl,
              )
              (map-tail (λ ent. ent.he_value) (select (λ ent. ent.he_key == k) (bucket h k)))
        | inr other ↦ rw (
          other,
          select-pull_ne h.h_buckets i (hash_uint j % h.h_size) (bound h k valid)
              (λ ent. ent.he_key == k) (λ ent. ent.he_key == j) (λ e hit. ground arith),
        )
      ]

  -- A lookup after an insertion sees the new value under its key and what stood there before under
  -- every other key, whether or not the two keys share a bucket.
  pub uvhash_find-insert :
      (h : Uvhash V) (k j : ℕ) (v : V)
      → IsValid h
      → uvhash_find (uvhash_insert h k v) j ≡ (if k == j then some v else uvhash_find h j)
  uvhash_find-insert h k j v valid =
      rw (uvhash_find-stack, uvhash_find-stack, stack-uvhash_insert h k j v valid) (ground arith)

  -- Removing a key undoes its last insertion for every lookup, also where the key stood in the table
  -- before and was shadowed.
  pub uvhash_find-remove-insert :
      (h : Uvhash V) (k j : ℕ) (v : V)
      → IsValid h
      → uvhash_find (uvhash_remove (uvhash_insert h k v) k) j ≡ uvhash_find h j
  uvhash_find-remove-insert h k j v valid =
      let inserted = uvhash_insert-IsValid h k v valid in
      rw
        (
          uvhash_find-stack,
          uvhash_find-stack,
          stack-uvhash_remove (uvhash_insert h k v) k j inserted,
          stack-uvhash_insert h k j v valid,
        )
        (ground arith)
