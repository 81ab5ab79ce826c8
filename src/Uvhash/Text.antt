-- ===== src/Uvhash/Text.antt =====
-- The string table of uvhash.c: entries are added and found by text and removed by address.
use mathlib.Core.List.{map}
use ubervisor.Common.{
  All-map, ℕ, ◌%◌, ◌<◌, ◌≡◌, ap, ◌∙◌, true, List, [], ◌∷◌, some, arith, ◌==◌, ==_iff, if◌then◌else◌,
  inl, inr, Bool-cases, Str, str_eq, str_eq→eq, str_eq_refl, length, get_or, head?, tail, select,
  length-set, get_or-replicate, length-replicate, find_first-select, All,
}
use ubervisor.Uvhash.{
  UvstrhashEnt, Uvstrhash, hash_str, uvstrhash_new, uvstrhash_insert, uvstrhash_find,
  uvstrhash_remove,
}
use ubervisor.Uvhash.Buckets.{select-push, select-pull_sole, select-pull_ne, map-head?, map-tail}

module _ {ℓ} {V : Type ℓ} where
  pub record IsValid (h : Uvstrhash V) : Type ℓ where
    pub positive : 0 < h.sh_size
    pub sized : length h.sh_buckets ≡ h.sh_size

module _ {ℓ} {V : Type ℓ} (mem : ℕ → Str) where
  unfoldable pub bucket : Uvstrhash V → Str → List (UvstrhashEnt V)
  bucket h t = get_or h.sh_buckets (hash_str t % h.sh_size) []

  -- The entries under a text, the newest first.
  unfoldable pub entries : Uvstrhash V → Str → List (UvstrhashEnt V)
  unfolding bucket
  entries h t = select (λ ent. str_eq (mem ent.she_key) t) (bucket h t)

  abbrev pub values : List (UvstrhashEnt V) → List V
  values = map (λ ent. ent.she_value)

  bound : (h : Uvstrhash V) (t : Str) → IsValid h → hash_str t % h.sh_size < length h.sh_buckets
  bound h k valid = grind arith

  home :
      (h : Uvstrhash V) (k t : Str)
      → str_eq k t ≡ true
      → hash_str k % h.sh_size ≡ hash_str t % h.sh_size
  home h k t e = ap (λ x. hash_str x % h.sh_size) (str_eq→eq k t e)

  pub uvstrhash_find-entries :
      (h : Uvstrhash V) (t : Str) → uvstrhash_find mem h t ≡ head? (values (entries h t))
  unfolding uvstrhash_find entries
  uvstrhash_find-entries h t =
      rw (find_first-select (λ ent. str_eq (mem ent.she_key) t) (bucket h t))
        (map-head? (λ ent. ent.she_value) (select (λ ent. str_eq (mem ent.she_key) t) (bucket h t)))

  pub uvstrhash_new-IsValid : (n : ℕ) → 0 < n → IsValid {V = V} (uvstrhash_new n)
  unfolding uvstrhash_new
  uvstrhash_new-IsValid n h = record { positive = h; sized = length-replicate n [] }

  pub entries-uvstrhash_new : (n : ℕ) (t : Str) → entries (uvstrhash_new n) t ≡ []
  unfolding uvstrhash_new entries select
  entries-uvstrhash_new n t =
      rw (get_or-replicate {A = List (UvstrhashEnt V)} n (hash_str t % n) [])

  pub uvstrhash_insert-IsValid :
      (h : Uvstrhash V) (k : ℕ) (v : V) → IsValid h → IsValid (uvstrhash_insert mem h k v)
  unfolding uvstrhash_insert
  uvstrhash_insert-IsValid h k v valid = record {
    positive = valid.positive;
    sized = length-set h.sh_buckets _ _ ∙ valid.sized;
  }

  pub uvstrhash_remove-IsValid :
      (h : Uvstrhash V) (k : ℕ) → IsValid h → IsValid (uvstrhash_remove mem h k)
  unfolding uvstrhash_remove
  uvstrhash_remove-IsValid h k valid = record {
    positive = valid.positive;
    sized = length-set h.sh_buckets _ _ ∙ valid.sized;
  }

  pub entries-uvstrhash_insert :
      (h : Uvstrhash V) (k : ℕ) (t : Str) (v : V)
      → IsValid h
      → entries (uvstrhash_insert mem h k v) t ≡ (
          if str_eq (mem k) t
          then record { she_key = k; she_value = v } ∷ entries h t
          else entries h t)
  unfolding uvstrhash_insert entries
  entries-uvstrhash_insert h k t v valid =
      select-push h.sh_buckets (hash_str (mem k) % h.sh_size) (hash_str t % h.sh_size)
        (bound h (mem k) valid) (λ ent. str_eq (mem ent.she_key) t)
        (record { she_key = k; she_value = v }) (home h (mem k) t)

  -- Every entry whose text is that of the key `k` is an entry of the key itself.
  abbrev pub Sole : Uvstrhash V → ℕ → Type 0
  Sole h k = All (λ ent. ent.she_key ≡ k) (entries h (mem k))

  key_text :
      (k : ℕ) (e : UvstrhashEnt V) → (e.she_key == k) ≡ true → str_eq (mem e.she_key) (mem k) ≡ true
  key_text k e hit = rw (ap mem ((==_iff e.she_key k).0 hit)) (str_eq_refl (mem k))

  pub entries-uvstrhash_remove :
      (h : Uvstrhash V) (k : ℕ) (t : Str)
      → IsValid h
      → Sole h k
      → entries (uvstrhash_remove mem h k) t
        ≡ (if str_eq (mem k) t then tail (entries h t) else entries h t)
  unfolding uvstrhash_remove entries
  entries-uvstrhash_remove h k t valid sole =
      let i = hash_str (mem k) % h.sh_size in
      elim (Bool-cases (str_eq (mem k) t)) [
        | inl same ↦
            let eq = str_eq→eq (mem k) t same in
            rw (same, ← eq)
              (select-pull_sole h.sh_buckets i (bound h (mem k) valid) (λ ent. ent.she_key == k)
                (λ ent. str_eq (mem ent.she_key) (mem k)) (λ e hit. key_text k e hit)
                (All-map (entries h (mem k)) (λ e eq. (==_iff e.she_key k).1 eq) sole))
        | inr other ↦ rw (
          other,
          select-pull_ne h.sh_buckets i (hash_str t % h.sh_size) (bound h (mem k) valid)
              (λ ent. ent.she_key == k) (λ ent. str_eq (mem ent.she_key) t)
              (λ e hit. rw (ap mem ((==_iff e.she_key k).0 hit)) other),
        )
      ]

  -- A lookup after an insertion sees the new value under a text that equals the key's, and what stood
  -- there before under every other text.
  pub uvstrhash_find-insert :
      (h : Uvstrhash V) (k : ℕ) (t : Str) (v : V)
      → IsValid h
      → uvstrhash_find mem (uvstrhash_insert mem h k v) t
        ≡ (if str_eq (mem k) t then some v else uvstrhash_find mem h t)
  uvstrhash_find-insert h k t v valid =
      rw (uvstrhash_find-entries, uvstrhash_find-entries, entries-uvstrhash_insert h k t v valid)
        (ground arith)

  -- Removing a key by its address leaves the lookup of every other text alone; under the key's own
  -- text the next entry comes up, which is none where the key was the only one of its text.
  pub uvstrhash_find-remove :
      (h : Uvstrhash V) (k : ℕ) (t : Str)
      → IsValid h
      → Sole h k
      → uvstrhash_find mem (uvstrhash_remove mem h k) t
        ≡ (if str_eq (mem k) t then head? (tail (values (entries h t))) else uvstrhash_find mem h t)
  uvstrhash_find-remove h k t valid sole =
      rw (uvstrhash_find-entries, uvstrhash_find-entries, entries-uvstrhash_remove h k t valid sole)
        (elim (Bool-cases (str_eq (mem k) t)) [
          | inl same ↦ rw same (ap head? (map-tail (λ ent. ent.she_value) (entries h t)))
          | inr other ↦ rw other
        ])
