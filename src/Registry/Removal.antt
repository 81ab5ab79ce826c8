-- ===== src/Registry/Removal.antt =====
-- The end of a group in cmd_server.c: child_config_remove and child_config_free against the table, the list and the
-- groups that are there.
use mathlib.Core.Path.{subst, fun_ext}
use ubervisor.Common.{
  ℕ, ◌≤◌, ◌≡◌, ◌∙◌, ap, sym, refl, inl, inr, arith, false, List, [], ◌∷◌, Option, none, some,
  Bool-cases, ◌==◌, ==_iff, if◌then◌else◌, Str, str_eq, str_eq→eq, str_eq_refl, length, select,
  remove_first, select-remove_first, select-remove_first_ne, head?, tail, All,
}
use ubervisor.Config.{ChildConfig}
use ubervisor.Uvhash.{Uvstrhash, uvstrhash_remove, uvstrhash_find}
use ubervisor.Uvhash.Text.{
  entries, Sole, uvstrhash_remove-IsValid, entries-uvstrhash_remove, uvstrhash_find-entries, values,
}
use ubervisor.Uvhash.Keys.{AreBelow-le, uvstrhash_remove-AreBelow}
use ubervisor.Server.{Server}
use ubervisor.Server.Heap.{update}
use ubervisor.Command.{child_config_find_by_name}
use ubervisor.Command.Pids.{child_config_remove, freed_config}
use ubervisor.Registry.{titles, Book, book, IsNamed, Named, ent, count, held}

titles-freed :
    (f : ℕ → Option ChildConfig) (c : ℕ)
    → titles (update f c none) ≡ (λ d. if c == d then none else titles f d)
unfolding titles update
titles-freed f c = fun_ext (λ d. elim (Bool-cases (c == d)) [
  | inl here ↦ rw (titles, here) refl
  | inr other ↦ rw (titles, other) refl
])

tail_sole : (l : List ℕ) → length l ≡ 1 → length (tail l) ≡ 0
tail_sole [] e = refl
tail_sole (x ∷ l) e = omega arith

-- The end of a group that is there.
module _ (s : Server) (named : IsNamed s) (c : ℕ) (name : Option Str)
    (there : titles s.configs c ≡ some name) where
  old_table : Uvstrhash ℕ
  old_table = uvstrhash_remove s.names s.child_config_hash c

  mine : entries s.names s.child_config_hash (s.names c) ≡ ent c ∷ []
  mine = (named.filed c name there).1

  sole : Sole s.names s.child_config_hash c
  sole = subst (All (λ e. e.she_key ≡ c)) (sym mine) (refl, tt)

  old_entries :
      (t : Str)
      → entries s.names old_table t
        ≡ (if str_eq (s.names c) t then [] else entries s.names s.child_config_hash t)
  unfolding old_table
  old_entries t = elim (Bool-cases (str_eq (s.names c) t)) [
    | inl same ↦
        let eq = str_eq→eq (s.names c) t same in
        let removed = entries-uvstrhash_remove s.names s.child_config_hash c t named.valid sole in
        grind (arith, mine)
    | inr other ↦
        ground (arith, entries-uvstrhash_remove s.names s.child_config_hash c t named.valid sole)
  ]

  count-remove_first :
      (d : ℕ)
      → count d (remove_first (λ x. x == c) s.child_config_list)
        ≡ (if c == d then 0 else count d s.child_config_list)
  unfolding count
  count-remove_first d = elim (Bool-cases (c == d)) [
    | inl same ↦
        let eq = (==_iff c d).0 same in
        let once : length (select (λ x. x == c) s.child_config_list) ≡ 1 =
          unfold count held in named.listed c ∙ ap held there in
        let left = tail_sole (select (λ x. x == c) s.child_config_list) once in
        rw (same, ← eq) (ap length (select-remove_first (λ x. x == c) s.child_config_list) ∙ left)
    | inr other ↦
        let apart =
          select-remove_first_ne (λ x. x == c) (λ x. x == d) s.child_config_list
            (λ x hit. ground (arith, ==_iff x c, ==_iff x d)) in
        grind arith
  ]

  old_title : ℕ → Option (Option Str)
  old_title d = if c == d then none else titles s.configs d

  old_book : Book
  unfolding old_table old_title
  old_book = (s.names, old_table, remove_first (λ x. x == c) s.child_config_list, old_title)

  old_book-Named : (next : ℕ) → s.next ≤ next → Named old_book next
  unfolding old_book held old_title
  old_book-Named next later = record {
    valid = unfold old_table in uvstrhash_remove-IsValid s.names s.child_config_hash c named.valid;
    below =
        unfold old_table in
        AreBelow-le s.next next old_table later
          (uvstrhash_remove-AreBelow s.names s.child_config_hash c named.valid s.next named.below);
    filed = λ d t e.
        let apart : (c == d) ≡ false = ground arith in
        let before : titles s.configs d ≡ some t = ground arith in
        let kept = named.filed d t before in
        elim (Bool-cases (str_eq (s.names c) (s.names d))) [
          | inl same ↦
              let eq = str_eq→eq (s.names c) (s.names d) same in
              ground (arith, kept, mine, ==_iff c d)
          | inr other ↦ (kept.0, old_entries (s.names d) ∙ rw other kept.1)
        ];
    found = λ n. elim (Bool-cases (str_eq (s.names c) n)) [
      | inl same ↦ inl (old_entries n ∙ rw same refl)
      | inr other ↦ elim (named.found n) [
        | inl none_there ↦ inl (old_entries n ∙ rw other none_there)
        | inr (d, filed, text, title) ↦
            let apart : (c == d) ≡ false = ground (arith, ==_iff c d, str_eq_refl n) in
            inr (d, old_entries n ∙ rw other filed, text, rw (old_title, apart) title)
      ]
    ];
    listed = λ d. count-remove_first d ∙ ground (arith, named.listed d);
  }

  module _ (t : Server) (same : book t ≡ book (child_config_remove c s))
      (later : s.next ≤ t.next) where
    book-removed : book (freed_config c t) ≡ old_book
    unfolding freed_config old_book
    book-removed =
        let kept : titles t.configs ≡ titles s.configs =
          ap (λ b. b.3) same ∙ unfold child_config_remove in refl in
        let freed : titles (update t.configs c none) ≡ old_title =
          titles-freed t.configs c
          ∙ unfold old_title in ap (λ f d. if c == d then none else f d) kept in
        ap (λ b. (b.0, b.1, b.2, titles (update t.configs c none))) same
        ∙ unfold old_table child_config_remove in
          ap (λ f. (s.names, old_table, remove_first (λ x. x == c) s.child_config_list, f)) freed

    pub removed-IsNamed : IsNamed (freed_config c t)
    unfolding freed_config
    removed-IsNamed = subst (λ b. Named b t.next) (sym book-removed) (old_book-Named t.next later)

    -- The table then leads nowhere from the name of the group, and from the others where it led.
    pub find-removed :
        (x : Str)
        → child_config_find_by_name x (freed_config c t)
          ≡ (if str_eq (s.names c) x then none else child_config_find_by_name x s)
    unfolding child_config_find_by_name
    find-removed x =
        let same_book : book (freed_config c t)
            ≡ (s.names, old_table, remove_first (λ x. x == c) s.child_config_list, old_title) =
          unfold old_book in book-removed in
        let look : uvstrhash_find (freed_config c t).names (freed_config c t).child_config_hash x
            ≡ uvstrhash_find s.names old_table x =
          ap (λ b. uvstrhash_find b.0 b.1 x) same_book in
        let now : uvstrhash_find s.names old_table x
            ≡ head? (values s.names (entries s.names old_table x)) =
          uvstrhash_find-entries s.names old_table x in
        let before = uvstrhash_find-entries s.names s.child_config_hash x in
        look ∙ ground (arith, now, before, old_entries x)
