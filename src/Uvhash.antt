-- ===== src/Uvhash.antt =====
-- The hash tables of uvhash.c. A bucket is the list that its LIST_HEAD heads, newest entry first.
-- `h_size` and `sh_size` are sizes that the callers give as positive constants.
pub mod Buckets
pub mod Keys
pub mod Laws
pub mod Text
mod Tests
use ubervisor.Common.{
  ℕ, ◌+◌, ◌-◌, ◌*◌, ◌%◌, ◌^◌, bit_xor, List, [], ◌∷◌, Option, ltb, ◌==◌, if◌then◌else◌, Str, str_eq,
  get_or, set, replicate, find_first, remove_first,
}
use mathlib.Core.Option

-- `x * 2654435761`, cut to 32 bits by the return type.
unfoldable pub hash_uint : ℕ → ℕ
hash_uint x = x * 2654435761 % 2 ^ 32

-- `int c = *x` with a signed `char`, as the 32-bit operand of `^`.
char_operand : ℕ → ℕ
char_operand c = if ltb c 128 then c else c + 2 ^ 32 - 256

-- The loop `hash = ((hash << 5) + hash) ^ c` on a `uint32_t`.
hash_str_from : ℕ → Str → ℕ
unfolding char_operand
hash_str_from hash [] = hash
hash_str_from hash (c ∷ x) =
    hash_str_from (bit_xor ((hash * 2 ^ 5 % 2 ^ 32 + hash) % 2 ^ 32) (char_operand c)) x

unfoldable pub hash_str : Str → ℕ
unfolding hash_str_from
hash_str x = hash_str_from 5381 x

-- `struct uvhash_ent_s`
pub record UvhashEnt {ℓ} (V : Type ℓ) : Type ℓ where
  pub he_key : ℕ
  pub he_value : V

-- `struct uvhash_s`
pub record Uvhash {ℓ} (V : Type ℓ) : Type ℓ where
  pub h_size : ℕ
  pub h_buckets : List (List (UvhashEnt V))

-- `struct uvstrhash_ent_s`: the key is a pointer, so what is stored is an address.
pub record UvstrhashEnt {ℓ} (V : Type ℓ) : Type ℓ where
  pub she_key : ℕ
  pub she_value : V

-- `struct uvstrhash_s`
pub record Uvstrhash {ℓ} (V : Type ℓ) : Type ℓ where
  pub sh_size : ℕ
  pub sh_buckets : List (List (UvstrhashEnt V))

module _ {ℓ} {V : Type ℓ} where
  unfoldable pub uvhash_new : ℕ → Uvhash V
  uvhash_new size = record { h_size = size; h_buckets = replicate size [] }

  unfoldable pub uvhash_insert : Uvhash V → ℕ → V → Uvhash V
  uvhash_insert h k v =
      let i = hash_uint k % h.h_size in
      let ent : UvhashEnt V = record { he_key = k; he_value = v } in
      record h { h_buckets = set h.h_buckets i (ent ∷ get_or h.h_buckets i []) }

  unfoldable pub uvhash_find : Uvhash V → ℕ → Option V
  uvhash_find h k =
      let l = get_or h.h_buckets (hash_uint k % h.h_size) [] in
      Option.map (λ ent. ent.he_value) (find_first (λ ent. ent.he_key == k) l)

  unfoldable pub uvhash_remove : Uvhash V → ℕ → Uvhash V
  uvhash_remove h k =
      let i = hash_uint k % h.h_size in
      let l = get_or h.h_buckets i [] in
      record h { h_buckets = set h.h_buckets i (remove_first (λ ent. ent.he_key == k) l) }

  unfoldable pub uvstrhash_new : ℕ → Uvstrhash V
  uvstrhash_new size = record { sh_size = size; sh_buckets = replicate size [] }

  -- `mem` is the text that stands at an address. `k` is the address of the key.
  unfoldable pub uvstrhash_insert : (ℕ → Str) → Uvstrhash V → ℕ → V → Uvstrhash V
  uvstrhash_insert mem h k v =
      let i = hash_str (mem k) % h.sh_size in
      let ent : UvstrhashEnt V = record { she_key = k; she_value = v } in
      record h { sh_buckets = set h.sh_buckets i (ent ∷ get_or h.sh_buckets i []) }

  -- The entries are compared by their text (`strcmp`).
  unfoldable pub uvstrhash_find : (ℕ → Str) → Uvstrhash V → Str → Option V
  uvstrhash_find mem h k =
      let l = get_or h.sh_buckets (hash_str k % h.sh_size) [] in
      Option.map (λ ent. ent.she_value) (find_first (λ ent. str_eq (mem ent.she_key) k) l)

  -- The entries are compared by their address (`ent->she_key == k`).
  unfoldable pub uvstrhash_remove : (ℕ → Str) → Uvstrhash V → ℕ → Uvstrhash V
  uvstrhash_remove mem h k =
      let i = hash_str (mem k) % h.sh_size in
      let l = get_or h.sh_buckets i [] in
      record h { sh_buckets = set h.sh_buckets i (remove_first (λ ent. ent.she_key == k) l) }
