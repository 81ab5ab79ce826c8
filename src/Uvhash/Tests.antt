-- ===== src/Uvhash/Tests.antt =====
-- The tables of uvhash.c on small inputs.
use ubervisor.Common.{ℕ, ◌%◌, ◌≡◌, refl, if◌then◌else◌, ◌==◌, arith, Str, str_eq_refl, codes}
use ubervisor.Uvhash.{
  Uvhash, Uvstrhash, hash_uint, hash_str, uvhash_new, uvhash_insert, uvhash_find, uvhash_remove,
  uvstrhash_new, uvstrhash_insert,
}
use ubervisor.Uvhash.Laws
use ubervisor.Uvhash.Text

-- 1 and 17 share a bucket of sixteen.
shared : hash_uint 1 % 16 ≡ hash_uint 17 % 16
unfolding hash_uint
shared = refl

hash_ab : hash_str (codes "ab") ≡ 5860902
unfolding hash_str
hash_ab = refl

abbrev table : Uvhash ℕ
table = uvhash_insert (uvhash_new 16) 17 70

table-IsValid : Laws.IsValid table
table-IsValid =
    Laws.uvhash_insert-IsValid (uvhash_new 16) 17 70 (Laws.uvhash_new-IsValid 16 (omega arith))

uvhash_find-remove-insert_example :
    uvhash_find (uvhash_remove (uvhash_insert table 17 10) 17) 17 ≡ uvhash_find table 17
uvhash_find-remove-insert_example = Laws.uvhash_find-remove-insert table 17 17 10 table-IsValid

mem : ℕ → Str
mem a = if a == 5 then codes "web" else codes "mail"

abbrev names : Uvstrhash ℕ
names = uvstrhash_insert mem (uvstrhash_new 16) 5 50

names-IsValid : Text.IsValid names
names-IsValid =
    Text.uvstrhash_insert-IsValid mem (uvstrhash_new 16) 5 50
      (Text.uvstrhash_new-IsValid mem 16 (omega arith))

names-Sole : Text.Sole mem names 5
names-Sole =
    let empty : Uvstrhash ℕ = uvstrhash_new 16 in
    let valid : Text.IsValid empty = Text.uvstrhash_new-IsValid mem 16 (omega arith) in
    rw
      (
        Text.entries-uvstrhash_insert mem empty 5 (mem 5) 50 valid,
        str_eq_refl (mem 5),
        Text.entries-uvstrhash_new {V = ℕ} mem 16 (mem 5),
      )
      (refl, tt)
