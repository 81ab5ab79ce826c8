-- ===== src/Command/Fields.antt =====
-- The fields of a group after c_updt of cmd_server.c.
use ubervisor.Common.{
  ℕ, zero, suc, ◌≡◌, refl, ap, ◌∙◌, sym, inl, inr, arith, Bool, true, false, ==_refl, if◌then◌else◌,
  Option, none, some, Option-cases, Bool-cases, Str, str_eq, str_eq→eq,
}
use ubervisor.Common.Int.{ℤ, pos, minus_one, eq_ℤ, eq_ℤ→eq, lt_ℤ}
use ubervisor.Config.{ChildConfig}
use ubervisor.Server.{
  Server, Message, emit, spawn, spawned, parent, fork, put_config, process_insert,
}
use ubervisor.Json.{JsonC}
use ubervisor.Command.{Disk}
use ubervisor.Command.Shrink.{modify-put_config}
use ubervisor.Command.Updates.{world-update_group}
use ubervisor.Command.Update.{
  log_if, log_text, log_texts, log_instances, log_status, log_age, modify, grow_one, grow_from,
  grow, shrink_one, shrink_from, shrink, set_instances, start_one, start_from, set_status, updated,
  set_texts, set_age, pick, differs, differs_int, xstrcmp, age_changes, update_group,
}

-- The strings, the signal and the age of the group at `c`.
abbrev pub Fields : Type 0
Fields = Option Str × Option Str × Option Str × Option Str × Option Str × ℤ × ℤ

abbrev pub fields : ChildConfig → Fields
fields cc = (
  cc.cc_dir, cc.cc_heartbeat, cc.cc_fatal_cb, cc.cc_stdout, cc.cc_stderr, cc.cc_killsig, cc.cc_age,
)

abbrev pub fields_at : ℕ → Server → Option Fields
fields_at c s = elim (s.configs c) [ none ↦ none | some cc ↦ some (fields cc) ]

put_config-fields :
    (c : ℕ) (cc : ChildConfig) (s : Server) → fields_at c (put_config c cc s) ≡ some (fields cc)
unfolding put_config
put_config-fields c cc s = ground (arith, ==_refl c)

fields-there :
    (c : ℕ) (up : ChildConfig) (s : Server)
    → s.configs c ≡ some up
    → fields_at c s ≡ some (fields up)
fields-there c up s there = ap (λ o. elim o [ none ↦ none | some cc ↦ some (fields cc) ]) there

modify-fields :
    (c : ℕ) (f : ChildConfig → ChildConfig) (s : Server)
    → ((up : ChildConfig) → fields (f up) ≡ fields up)
    → fields_at c (modify c f s) ≡ fields_at c s
unfolding modify
modify-fields c f s same = elim (Option-cases (s.configs c)) [
  | inl missing ↦ rw (modify, missing) refl
  | inr (up, there) ↦
      rw (modify, there)
        (put_config-fields c (f up) s ∙ ap some (same up) ∙ sym (fields-there c up s there))
]

spawn-fields :
    (c i : ℕ) (up : ChildConfig) (s : Server)
    → s.configs c ≡ some up
    → fields_at c (spawn c up i s).1 ≡ fields_at c s
unfolding spawn parent fork spawned process_insert put_config
spawn-fields c i up s there = elim (Option-cases (fork s).0) [
  | inl failed ↦ rw failed refl
  | inr (pid, got) ↦ rw got (ground (arith, ==_refl c))
]

grow_one-fields :
    (c i : ℕ) (up : ChildConfig) (s : Server)
    → s.configs c ≡ some up
    → fields_at c (grow_one c i up s) ≡ fields_at c s
unfolding grow_one
grow_one-fields c i up s there = grind (arith, spawn-fields c i up s there, put_config-fields)

grow_from-fields : (c i n : ℕ) (s : Server) → fields_at c (grow_from c i n s) ≡ fields_at c s
unfolding grow_from
grow_from-fields c i zero s = refl
grow_from-fields c i (suc n) s = elim (Option-cases (s.configs c)) [
  | inl missing ↦ rw (grow_from, missing) refl
  | inr (up, there) ↦
      rw (grow_from, there)
        (grow_from-fields c (suc i) n (grow_one c i up s) ∙ grow_one-fields c i up s there)
]

shrink_one-fields :
    (c i : ℕ) (up : ChildConfig) (s : Server)
    → s.configs c ≡ some up
    → fields_at c (shrink_one c i up s) ≡ fields_at c s
unfolding shrink_one
shrink_one-fields c i up s there = grind (arith, put_config-fields)

shrink_from-fields : (c i n : ℕ) (s : Server) → fields_at c (shrink_from c i n s) ≡ fields_at c s
unfolding shrink_from
shrink_from-fields c i zero s = refl
shrink_from-fields c i (suc n) s = elim (Option-cases (s.configs c)) [
  | inl missing ↦ rw (shrink_from, missing) refl
  | inr (up, there) ↦
      rw (shrink_from, there)
        (shrink_from-fields c (suc i) n (shrink_one c i up s) ∙ shrink_one-fields c i up s there)
]

set_instances-fields :
    (c : ℕ) (cc up : ChildConfig) (s : Server)
    → fields_at c (set_instances c cc up s) ≡ fields_at c s
unfolding set_instances grow shrink
set_instances-fields c cc up s = grind (arith, modify-fields, grow_from-fields, shrink_from-fields)

start_one-fields :
    (c i : ℕ) (up : ChildConfig) (s : Server)
    → s.configs c ≡ some up
    → fields_at c (start_one c i up s) ≡ fields_at c s
unfolding start_one
start_one-fields c i up s there = grind (arith, spawn-fields c i up s there)

start_from-fields : (c i n : ℕ) (s : Server) → fields_at c (start_from c i n s) ≡ fields_at c s
unfolding start_from
start_from-fields c i zero s = refl
start_from-fields c i (suc n) s = elim (Option-cases (s.configs c)) [
  | inl missing ↦ rw (start_from, missing) refl
  | inr (up, there) ↦
      rw (start_from, there)
        (start_from-fields c (suc i) n (start_one c i up s) ∙ start_one-fields c i up s there)
]

set_status-fields :
    (c : ℕ) (cc : ChildConfig) (s : Server) → fields_at c (set_status c cc s) ≡ fields_at c s
unfolding set_status log_status emit
set_status-fields c cc s = grind (arith, modify-fields, start_from-fields)

log_if-configs : (b : Bool) (m : Message) (s : Server) → (log_if b m s).configs ≡ s.configs
unfolding log_if emit
log_if-configs true m s = refl
log_if-configs false m s = refl

log_texts-configs : (cc up : ChildConfig) (s : Server) → (log_texts cc up s).configs ≡ s.configs
unfolding log_texts log_text
log_texts-configs cc up s = grind (arith, log_if-configs)

-- A string that the request has, or else the old one.
abbrev pub or_old : Option Str → Option Str → Option Str
or_old none old = old
or_old (some x) old = some x

pick-or_old : (new old : Option Str) → pick new old ≡ or_old new old
unfolding pick differs xstrcmp
pick-or_old none old = refl
pick-or_old (some x) none = refl
pick-or_old (some x) (some y) = elim (Bool-cases (str_eq x y)) [
  | inl same ↦ rw same (ap some (sym (str_eq→eq x y same)))
  | inr other ↦ rw other refl
]

int-or_old :
    (new old : ℤ)
    → (if differs_int new old then new else old) ≡ (if eq_ℤ new minus_one then old else new)
unfolding differs_int
int-or_old new old = elim (Bool-cases (eq_ℤ new minus_one)) [
  | inl unset ↦ rw unset refl
  | inr set_to ↦ rw set_to (elim (Bool-cases (eq_ℤ new old)) [
    | inl same ↦ rw same (sym (eq_ℤ→eq new old same))
    | inr other ↦ rw other refl
  ])
]

set_texts-fields :
    (cc up : ChildConfig)
    → fields (set_texts cc up) ≡ (
      or_old cc.cc_dir up.cc_dir,
      or_old cc.cc_heartbeat up.cc_heartbeat,
      or_old cc.cc_fatal_cb up.cc_fatal_cb,
      or_old cc.cc_stdout up.cc_stdout,
      or_old cc.cc_stderr up.cc_stderr,
      (if eq_ℤ cc.cc_killsig minus_one then up.cc_killsig else cc.cc_killsig),
      up.cc_age,
    )
unfolding set_texts
set_texts-fields cc up =
    rw
      (
        pick-or_old cc.cc_dir up.cc_dir,
        pick-or_old cc.cc_heartbeat up.cc_heartbeat,
        pick-or_old cc.cc_fatal_cb up.cc_fatal_cb,
        pick-or_old cc.cc_stdout up.cc_stdout,
        pick-or_old cc.cc_stderr up.cc_stderr,
        int-or_old cc.cc_killsig up.cc_killsig,
      )
      refl

abbrev with_age : ℤ → Fields → Fields
with_age n (a, b, d, e, f, g, old) = (a, b, d, e, f, g, if lt_ℤ (pos 0) n then n else old)

set_age-fields : (cc w : ChildConfig) → fields (set_age cc w) ≡ with_age cc.cc_age (fields w)
unfolding set_age age_changes
set_age-fields cc w = elim (Bool-cases (lt_ℤ (pos 0) cc.cc_age)) [
  | inr small ↦ rw small refl
  | inl large ↦ rw large (elim (Bool-cases (eq_ℤ cc.cc_age w.cc_age)) [
    | inl same ↦ rw same (
        ap
          (λ n.
            (w.cc_dir, w.cc_heartbeat, w.cc_fatal_cb, w.cc_stdout, w.cc_stderr, w.cc_killsig, n))
          (sym (eq_ℤ→eq cc.cc_age w.cc_age same)))
    | inr other ↦ rw other refl
  ])
]

modify-age :
    (c : ℕ) (cc : ChildConfig) (s : Server) (f : Fields)
    → fields_at c s ≡ some f
    → fields_at c (modify c (set_age cc) s) ≡ some (with_age cc.cc_age f)
unfolding modify
modify-age c cc s f e = elim (Option-cases (s.configs c)) [
  | inl missing ↦ absurd (ground arith)
  | inr (w, there) ↦
      let now : fields w ≡ f =
        ap (λ o. elim o [ none ↦ f | some g ↦ g ]) (sym (fields-there c w s there) ∙ e) in
      rw (modify, there)
        (put_config-fields c (set_age cc w) s
          ∙ ap some (set_age-fields cc w ∙ ap (with_age cc.cc_age) now))
]

log_if-fields :
    (c : ℕ) (b : Bool) (m : Message) (s : Server) → fields_at c (log_if b m s) ≡ fields_at c s
log_if-fields c b m s =
    ap (λ f. elim (f c) [ none ↦ none | some cc ↦ some (fields cc) ]) (log_if-configs b m s)

-- The fields that an update leaves: what the request has, or else what was there; an age only above 0.
abbrev pub updated_fields : ChildConfig → ChildConfig → Fields
updated_fields cc up = (
  or_old cc.cc_dir up.cc_dir,
  or_old cc.cc_heartbeat up.cc_heartbeat,
  or_old cc.cc_fatal_cb up.cc_fatal_cb,
  or_old cc.cc_stdout up.cc_stdout,
  or_old cc.cc_stderr up.cc_stderr,
  if eq_ℤ cc.cc_killsig minus_one then up.cc_killsig else cc.cc_killsig,
  if lt_ℤ (pos 0) cc.cc_age then cc.cc_age else up.cc_age,
)

pub updated-fields :
    (c : ℕ) (cc up : ChildConfig) (s : Server)
    → s.configs c ≡ some up
    → fields_at c (updated c cc up s) ≡ some (updated_fields cc up)
unfolding updated log_age log_instances
updated-fields c cc up s there =
    let s₀ = log_texts cc up s in
    let there₀ : s₀.configs c ≡ some up = ap (λ f. f c) (log_texts-configs cc up s) ∙ there in
    let s₁ = modify c (set_texts cc) s₀ in
    let first : fields_at c s₁ ≡ some (fields (set_texts cc up)) =
      ap (fields_at c) (modify-put_config c (set_texts cc) s₀ up there₀)
      ∙ put_config-fields c (set_texts cc up) s₀ in
    let kept =
      log_if-fields c _ _ _
      ∙ set_status-fields c cc _
      ∙ set_instances-fields c cc up _
      ∙ log_if-fields c _ _ s₁ in
    modify-age c cc _ _ (kept ∙ first ∙ ap some (set_texts-fields cc up))

module _ (lib : JsonC) (auto_dump : Bool) (disk : Disk) where
  pub update_group-fields :
      (c : ℕ) (cc up : ChildConfig) (s : Server)
      → s.configs c ≡ some up
      → fields_at c (update_group lib auto_dump disk c cc s) ≡ some (updated_fields cc up)
  update_group-fields c cc up s there =
      ap (λ w. elim (w.0 c) [ none ↦ none | some d ↦ some (fields d) ])
        (world-update_group lib auto_dump disk s c cc up there)
      ∙ updated-fields c cc up s there
