-- ===== src/Command/Grow/Filled.antt =====
-- The loop of grow_one over the places of a group, beside the same loop over memory that was cleared.
use mathlib.Core.Option
use ubervisor.Common.{
  ℕ, zero, suc, ◌≡◌, ◌≢◌, inl, inr, refl, sym, ap, ◌∙◌, fun_ext, map, List, [], ◌∷◌, none, some,
  ◌==◌, ==_iff, ==_refl, if◌then◌else◌, Bool-cases, Option-cases, length, get_elem?, set,
}
use ubervisor.Common.Int.{eq_ℤ}
use ubervisor.Config.{ChildConfig, Slot, empty, child, unwritten, status_running}
use ubervisor.Uvhash.{uvhash_insert}
use ubervisor.Server.{
  Server, put_config, spawn, spawned, parent, fork, first_answer, process_insert, new_process,
}
use ubervisor.Server.Heap.{update}
use ubervisor.Command.Update.{grow_one, grow_from}

-- Memory that was cleared instead.
abbrev pub fill : Slot → Slot
fill empty = empty
fill (child p) = child p
fill unwritten = empty

abbrev pub filled : ChildConfig → ChildConfig
filled cc = record cc { cc_childs = map fill cc.cc_childs }

-- The server with the unwritten places of a group cleared.
abbrev pub patch : ℕ → Server → Server
patch c s = record s {
  configs = λ d. if c == d then Option.map filled (s.configs d) else s.configs d;
}

map-set : (xs : List Slot) (i : ℕ) (v : Slot) → map fill (set xs i v) ≡ set (map fill xs) i (fill v)
map-set [] i v = refl
map-set (x ∷ xs) zero v = refl
map-set (x ∷ xs) (suc i) v = ap (λ l. fill x ∷ l) (map-set xs i v)

pub get_elem?-map :
    (xs : List Slot) (i : ℕ) → get_elem? (map fill xs) i ≡ Option.map fill (get_elem? xs i)
get_elem?-map [] i = refl
get_elem?-map (x ∷ xs) zero = refl
get_elem?-map (x ∷ xs) (suc i) = get_elem?-map xs i

pub length-map : (xs : List Slot) → length (map fill xs) ≡ length xs
length-map [] = refl
length-map (x ∷ xs) = ap suc (length-map xs)

pub patch-put_config :
    (c : ℕ) (cc : ChildConfig) (s : Server)
    → patch c (put_config c cc s) ≡ put_config c (filled cc) (patch c s)
unfolding put_config
patch-put_config c cc s =
    ap (λ f. record s { configs = f })
      (fun_ext
        λ d. elim (Bool-cases (c == d)) [ inl same ↦ rw same refl | inr other ↦ rw other refl ])

pub put_config-patch :
    (c : ℕ) (cc : ChildConfig) (s : Server) → put_config c cc (patch c s) ≡ put_config c cc s
unfolding put_config
put_config-patch c cc s =
    ap (λ f. record s { configs = f })
      (fun_ext
        λ d. elim (Bool-cases (c == d)) [ inl same ↦ rw same refl | inr other ↦ rw other refl ])

patch-spawned :
    (pid c : ℕ) (cc : ChildConfig) (i : ℕ) (s : Server)
    → patch c (spawned pid c cc i s) ≡ spawned pid c (filled cc) i (patch c s)
unfolding spawned process_insert new_process
patch-spawned pid c cc i s =
    let started = record s {
      processes = update s.processes s.next (some (new_process pid c cc i s.now));
      next = suc s.next;
      process_hash = uvhash_insert s.process_hash pid s.next;
    } in
    patch-put_config c (record cc { cc_childs = set cc.cc_childs i (child s.next) }) started
    ∙ ap (λ l. put_config c (record cc { cc_childs = l }) (patch c started))
        (map-set cc.cc_childs i (child s.next))

patch-grow_one :
    (c i : ℕ) (up : ChildConfig) (s : Server)
    → patch c (grow_one c i up s) ≡ grow_one c i (filled up) (patch c s)
unfolding grow_one spawn parent fork
patch-grow_one c i up s = elim (Bool-cases (eq_ℤ up.cc_status status_running)) [
  | inl on ↦ rw on (elim (Option-cases (first_answer s.forks)) [
    | inl failed ↦ rw failed refl
    | inr (pid, got) ↦ rw got (patch-spawned pid c up i (fork s).1)
  ])
  | inr off ↦ rw off (
      patch-put_config c (record up { cc_childs = set up.cc_childs i empty }) s
      ∙ ap (λ l. put_config c (record up { cc_childs = l }) (patch c s))
          (map-set up.cc_childs i empty))
]

grow_from-none : (c i n : ℕ) (s : Server) → s.configs c ≡ none → grow_from c i (suc n) s ≡ s
unfolding grow_from
grow_from-none c i n s missing = rw (grow_from, missing) refl

grow_from-some :
    (c i n : ℕ) (s : Server) (up : ChildConfig)
    → s.configs c ≡ some up
    → grow_from c i (suc n) s ≡ grow_from c (suc i) n (grow_one c i up s)
unfolding grow_from
grow_from-some c i n s up there = rw (grow_from, there) refl

pub patch-grow_from :
    (c i n : ℕ) (s : Server) → patch c (grow_from c i n s) ≡ grow_from c i n (patch c s)
patch-grow_from c i zero s = unfold grow_from in refl
patch-grow_from c i (suc n) s = elim (Option-cases (s.configs c)) [
  | inl missing ↦
      ap (patch c) (grow_from-none c i n s missing)
      ∙ sym (grow_from-none c i n (patch c s) (rw (==_refl c, missing) refl))
  | inr (up, there) ↦
      ap (patch c) (grow_from-some c i n s up there)
      ∙ patch-grow_from c (suc i) n (grow_one c i up s)
      ∙ ap (grow_from c (suc i) n) (patch-grow_one c i up s)
      ∙ sym (grow_from-some c i n (patch c s) (filled up) (rw (==_refl c, there) refl))
]

-- Memory that is written already is left alone.
map-fill : (xs : List Slot) → ((i : ℕ) → get_elem? xs i ≢ some unwritten) → map fill xs ≡ xs
map-fill [] written = refl
map-fill (empty ∷ xs) written = ap (λ l. empty ∷ l) (map-fill xs (λ i. written (suc i)))
map-fill (child p ∷ xs) written = ap (λ l. child p ∷ l) (map-fill xs (λ i. written (suc i)))
map-fill (unwritten ∷ xs) written = absurd (written 0 refl)

-- Each place of the group at `c` has been written.
abbrev pub IsWritten : ℕ → Server → Type 0
IsWritten c s =
    (cc : ChildConfig) → s.configs c ≡ some cc → (i : ℕ) → get_elem? cc.cc_childs i ≢ some unwritten

pub patch-IsWritten : (c : ℕ) (s : Server) → IsWritten c s → patch c s ≡ s
patch-IsWritten c s written =
    ap (λ f. record s { configs = f })
      (fun_ext λ d. elim (Bool-cases (c == d)) [
        | inl same ↦ rw same (elim (Option-cases (s.configs d)) [
          | inl missing ↦ rw missing refl
          | inr (cc, there) ↦
              let here : s.configs c ≡ some cc = ap s.configs ((==_iff c d).0 same) ∙ there in
              rw there (
                ap (λ l. some (record cc { cc_childs = l }))
                  (map-fill cc.cc_childs (written cc here)))
        ])
        | inr other ↦ rw other refl
      ])
