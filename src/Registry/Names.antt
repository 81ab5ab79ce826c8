-- ===== src/Registry/Names.antt =====
-- The table and the list of the groups in cmd_server.c against the groups that are there: what
-- child_config_insert makes of them.
use mathlib.Core.Path.{subst}
use ubervisor.Common.{
  ℕ, suc, ◌≡◌, ◌≢◌, ap, sym, refl, inl, inr, arith, false, List, [], ◌∷◌, Option, none, some,
  Bool-cases, ◌==◌, ==_iff, ==_refl, if◌then◌else◌, Str, str_eq, str_eq→eq, str_eq_refl, select,
  head?,
}
use ubervisor.Config.{ChildConfig}
use ubervisor.Uvhash.{Uvstrhash, uvstrhash_insert, uvstrhash_find}
use ubervisor.Uvhash.Text.{
  entries, uvstrhash_insert-IsValid, entries-uvstrhash_insert, uvstrhash_find-entries, values,
  uvstrhash_new-IsValid, entries-uvstrhash_new,
}
use ubervisor.Uvhash.Keys.{
  AreBelow-le, uvstrhash_insert-AreBelow, entries-memory, uvstrhash_new-AreBelow,
}
use ubervisor.Server.{Server}
use ubervisor.Server.Heap.{update}
use ubervisor.Command.{child_config_find_by_name, child_config_insert, allocated, server_start}
use ubervisor.Registry.{titles, book, Keeps, IsNamed, Named, ent, count, held}

pub Keeps-IsNamed : (s t : Server) → Keeps s t → IsNamed s → IsNamed t
Keeps-IsNamed s t kept named =
    let moved : Named (book t) s.next = subst (λ b. Named b s.next) (sym kept.0) named in
    record {
      valid = moved.valid;
      below = AreBelow-le s.next t.next t.child_config_hash kept.1 moved.below;
      filed = moved.filed;
      found = moved.found;
      listed = moved.listed;
    }

pub server_start-IsNamed : (forks : List (Option ℕ)) (now : ℕ) → IsNamed (server_start forks now)
unfolding server_start titles held count select
server_start-IsNamed forks now = record {
  valid = uvstrhash_new-IsValid (λ a. []) 16 (omega arith);
  below = uvstrhash_new-AreBelow ℕ 16 0;
  filed = λ c t e. ground arith;
  found = λ n. inl (entries-uvstrhash_new (λ a. []) 16 n);
  listed = λ c. refl;
}

-- A new group under a name that the table does not have.
module _ (s : Server) (named : IsNamed s) (cc : ChildConfig) (n : Str) (mine : cc.cc_name ≡ some n)
    (absent : entries s.names s.child_config_hash n ≡ [])
    (fresh : titles s.configs s.next ≡ none) where
  new_names : ℕ → Str
  new_names = update s.names s.next n

  new_title : ℕ → Option (Option Str)
  new_title = titles (update s.configs s.next (some cc))

  new_table : Uvstrhash ℕ
  unfolding new_names
  new_table = uvstrhash_insert new_names s.child_config_hash s.next s.next

  new_names-at : (c : ℕ) → new_names c ≡ (if s.next == c then n else s.names c)
  unfolding new_names
  new_names-at c = refl

  new_title-at : (c : ℕ) → new_title c ≡ (if s.next == c then some (some n) else titles s.configs c)
  unfolding new_title titles
  new_title-at c = elim (Bool-cases (s.next == c)) [
    | inl same ↦ rw (titles, same) (ap some mine)
    | inr other ↦ rw (titles, other) refl
  ]

  new_entries :
      (t : Str)
      → entries new_names new_table t ≡ (
          if str_eq n t
          then ent s.next ∷ entries s.names s.child_config_hash t
          else entries s.names s.child_config_hash t)
  unfolding new_table new_names
  new_entries t =
      let same =
        entries-memory s.names new_names s.child_config_hash s.next t named.below
          (λ k lt. ground arith) in
      let added =
        entries-uvstrhash_insert new_names s.child_config_hash s.next t s.next named.valid in
      ground (arith, same, added, ==_refl s.next)

  inserted-Named :
      Named (new_names, new_table, s.next ∷ s.child_config_list, new_title) (suc s.next)
  unfolding held count select
  inserted-Named = record {
    valid =
        unfold new_table in
        uvstrhash_insert-IsValid new_names s.child_config_hash s.next s.next named.valid;
    below =
        unfold new_table in
        uvstrhash_insert-AreBelow new_names s.child_config_hash s.next named.valid s.next
          (suc s.next) (omega arith)
          (AreBelow-le s.next (suc s.next) s.child_config_hash (omega arith) named.below);
    filed = λ c t e. elim (Bool-cases (s.next == c)) [
      | inl same ↦
          let eq = (==_iff s.next c).0 same in
          grind (arith, new_title-at c, new_names-at c, new_entries n, str_eq_refl n)
      | inr other ↦
          let old : titles s.configs c ≡ some t = ground (arith, new_title-at c) in
          let kept = named.filed c t old in
          let apart : s.names c ≢ n = λ eq. ground (arith, kept, absent) in
          grind (arith, new_names-at c, new_entries (s.names c), str_eq→eq n (s.names c))
    ];
    found = λ t. elim (Bool-cases (str_eq n t)) [
      | inl same ↦
          let eq = str_eq→eq n t same in
          inr (
            s.next,
            grind (arith, new_entries t, absent),
            grind (arith, new_names-at s.next, ==_refl s.next),
            grind (arith, new_title-at s.next, ==_refl s.next),
          )
      | inr other ↦ elim (named.found t) [
        | inl none_there ↦ inl (ground (arith, new_entries t))
        | inr (c, there, name, title) ↦
            let apart : (s.next == c) ≡ false = ground (arith, ==_iff s.next c) in
            inr (
              c,
              ground (arith, new_entries t),
              rw (new_names-at c, apart) name,
              rw (new_title-at c, apart) title,
            )
      ]
    ];
    listed = λ c. grind (arith, new_title-at c, named.listed c, ==_iff s.next c, ==_iff c s.next);
  }

  pub inserted-IsNamed : IsNamed (child_config_insert s.next n (allocated cc n s))
  unfolding child_config_insert allocated
  inserted-IsNamed = unfold new_names new_table new_title in inserted-Named

  -- The table then leads from the new name to the new group, and from the others where it led.
  pub find-inserted :
      (t : Str)
      → child_config_find_by_name t (child_config_insert s.next n (allocated cc n s))
        ≡ (if str_eq n t then some s.next else child_config_find_by_name t s)
  unfolding child_config_find_by_name child_config_insert allocated
  find-inserted t =
      let now : uvstrhash_find new_names new_table t
          ≡ head? (values new_names (entries new_names new_table t)) =
        uvstrhash_find-entries new_names new_table t in
      let before = uvstrhash_find-entries s.names s.child_config_hash t in
      unfold new_names new_table in ground (arith, now, before, new_entries t)
