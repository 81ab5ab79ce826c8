-- ===== src/Command/Updates/Steps.antt =====
-- The parts of an update of cmd_server.c, as steps of a live server that keep its group.
use mathlib.Core.Path.{subst}
use ubervisor.Common.{
  ℕ, zero, suc, ◌≤◌, ◌≡◌, inl, inr, refl, sym, ap, ◌∙◌, Bool, true, false, not, ◌&&◌, none, some,
  arith, ◌==◌, ==_iff, if◌then◌else◌, Bool-cases, Option-cases, length, get_elem?,
}
use ubervisor.Common.Int.{ℤ, pos, negsuc, to_ℕ, eq_ℤ, lt_ℤ}
use ubervisor.Config.{ChildConfig, empty, child, unwritten, status_running}
use ubervisor.Server.{Server, Event, Message, emit, process_find_instance}
use ubervisor.Server.Alive.{
  IsAlive, configs-put_config, spawn-IsAlive, put_config-IsAlive, emit-IsAlive,
}
use ubervisor.Server.Spawn.{spawn-Spawned}
use ubervisor.Command.Update.{
  log_if, log_status, grow, modify, set_instances, differs_int, start_one, start_from, set_status,
}
use ubervisor.Command.Shrink.{modify-put_config, shrink-IsAlive}
use ubervisor.Command.Grow.{grow-IsAlive}
use ubervisor.Command.Grow.Filled.{IsWritten}

-- A step of the update from a server whose group is there.
pub record Step (c : ℕ) (s t : Server) : Type 0 where
  pub alive : IsAlive s → IsAlive t
  pub after : ChildConfig
  pub group : t.configs c ≡ some after
  -- it writes no place that was unwritten
  pub back : IsWritten c t → IsWritten c s

pub none-Step : (c : ℕ) (s : Server) (up : ChildConfig) → s.configs c ≡ some up → Step c s s
none-Step c s up group = record { alive = λ a. a; after = up; group = group; back = λ w. w }

pub then-Step : (c : ℕ) (s t u : Server) → Step c s t → Step c t u → Step c s u
then-Step c s t u one two = record {
  alive = λ a. two.alive (one.alive a);
  after = two.after;
  group = two.group;
  back = λ w. one.back (two.back w);
}

same_childs :
    (s : Server) (c : ℕ) (up dd : ChildConfig)
    → s.configs c ≡ some up
    → s.configs c ≡ some dd
    → up.cc_childs ≡ dd.cc_childs
same_childs s c up dd e h =
    ap (λ o. elim o [ none ↦ up.cc_childs | some x ↦ x.cc_childs ]) (sym e ∙ h)

-- A change that keeps the children.
module _ (c : ℕ) (f : ChildConfig → ChildConfig)
    (childs : (up : ChildConfig) → (f up).cc_childs ≡ up.cc_childs)
    (instances : (up : ChildConfig) → (f up).cc_instances ≡ up.cc_instances) where
  modify-IsAlive :
      (s : Server) (up : ChildConfig) → IsAlive s → s.configs c ≡ some up → IsAlive (modify c f s)
  modify-IsAlive s up alive group =
      rw (modify-put_config c f s up group)
        (put_config-IsAlive s c up (f up) group (childs up) (instances up) alive)

  pub configs-modify :
      (s : Server) (up : ChildConfig)
      → s.configs c ≡ some up
      → (modify c f s).configs c ≡ some (f up)
  configs-modify s up group = rw (modify-put_config c f s up group) (configs-put_config c (f up) s)

  modify-IsWritten :
      (s : Server) (up : ChildConfig)
      → s.configs c ≡ some up
      → IsWritten c (modify c f s)
      → IsWritten c s
  modify-IsWritten s up group written dd e i at =
      written (f up) (configs-modify s up group) i
        (ap (λ l. get_elem? l i) (childs up ∙ same_childs s c up dd group e) ∙ at)

  pub modify-Step :
      (s : Server) (up : ChildConfig) → s.configs c ≡ some up → Step c s (modify c f s)
  modify-Step s up group = record {
    alive = λ a. modify-IsAlive s up a group;
    after = f up;
    group = configs-modify s up group;
    back = modify-IsWritten s up group;
  }

le-to_ℕ : (l : ℕ) (n : ℤ) → lt_ℤ (pos l) n ≡ true → l ≤ to_ℕ n
le-to_ℕ l (pos n) h = ground arith
le-to_ℕ l (negsuc n) h = ground arith

to_ℕ-le : (l : ℕ) (n : ℤ) → lt_ℤ (pos l) n ≡ false → to_ℕ n ≤ l
to_ℕ-le l (pos n) h = ground arith
to_ℕ-le l (negsuc n) h = omega arith

pub set_instances-IsAlive :
    (s : Server) (c : ℕ) (cc up now : ChildConfig)
    → IsAlive s
    → s.configs c ≡ some now
    → now.cc_instances ≡ up.cc_instances
    → IsWritten c (set_instances c cc up s)
    → IsAlive (set_instances c cc up s)
unfolding set_instances
set_instances-IsAlive s c cc up now alive group same written =
    let sized : pos (length now.cc_childs) ≡ up.cc_instances =
      (alive.sound.groups c now group).sized ∙ same in
    let old : length now.cc_childs ≡ to_ℕ up.cc_instances = ap to_ℕ sized in
    elim (Bool-cases (differs_int cc.cc_instances up.cc_instances)) [
      | inr same_number ↦ rw (set_instances, same_number) alive
      | inl other ↦ elim (Bool-cases (lt_ℤ up.cc_instances cc.cc_instances)) [
        | inl more ↦
            let eq : set_instances c cc up s
                ≡ grow c (length now.cc_childs) (to_ℕ cc.cc_instances) s =
              rw (set_instances, other, more, ← old) refl in
            subst IsAlive (sym eq) (
              grow-IsAlive s c (to_ℕ cc.cc_instances) now alive group
                (le-to_ℕ (length now.cc_childs) cc.cc_instances (rw sized more))
                (subst (IsWritten c) eq written))
        | inr fewer ↦
            rw (set_instances, other, fewer, ← old)
              (shrink-IsAlive s c (to_ℕ cc.cc_instances) now alive group
                (to_ℕ-le (length now.cc_childs) cc.cc_instances (rw sized fewer)))
      ]
    ]

-- The start of the children that are missing.
start_one-Step :
    (s : Server) (c i : ℕ) (up : ChildConfig)
    → s.configs c ≡ some up
    → Step c s (start_one c i up s)
unfolding start_one process_find_instance
start_one-Step s c i up group = elim (Option-cases (get_elem? up.cc_childs i)) [
  | inl outside ↦ rw (start_one, process_find_instance, outside) (none-Step c s up group)
  | inr (empty, free) ↦
      let done = spawn-Spawned s c up i group free in
      rw (start_one, process_find_instance, free)
        (record {
          alive = λ a. spawn-IsAlive s c up i a group free;
          after = done.after;
          group = done.there;
          back = λ written dd e j at.
              let at_up : get_elem? up.cc_childs j ≡ some unwritten =
                ap (λ l. get_elem? l j) (same_childs s c up dd group e) ∙ at in
              elim (Bool-cases (i == j)) [
                | inl same ↦
                    let place : i ≡ j = (==_iff i j).0 same in
                    let both : some empty ≡ some unwritten =
                      sym free ∙ ap (get_elem? up.cc_childs) place ∙ at_up in
                    ground arith
                | inr other ↦ written done.after done.there j (done.others j other ∙ at_up)
              ];
        })
  | inr (child p, there) ↦ rw (start_one, process_find_instance, there) (none-Step c s up group)
  | inr (unwritten, there) ↦ rw (start_one, process_find_instance, there) (none-Step c s up group)
]

start_from-Step :
    (s : Server) (c i n : ℕ) (up : ChildConfig)
    → s.configs c ≡ some up
    → Step c s (start_from c i n s)
unfolding start_from
start_from-Step s c i zero up group = none-Step c s up group
start_from-Step s c i (suc n) up group =
    let one = start_one-Step s c i up group in
    rw (start_from, group)
      (then-Step c s (start_one c i up s) _ one
        (start_from-Step (start_one c i up s) c (suc i) n one.after one.group))

emit-Step : (c : ℕ) (s t : Server) (e : Event) → Step c s t → Step c s (emit e t)
emit-Step c s t e one = record {
  alive = λ a. emit-IsAlive t e (one.alive a);
  after = one.after;
  group = unfold emit in one.group;
  back = unfold emit in one.back;
}

pub log_if-Step :
    (c : ℕ) (b : Bool) (m : Message) (s t : Server) → Step c s t → Step c s (log_if b m t)
unfolding log_if
log_if-Step c true m s t one = emit-Step c s t _ one
log_if-Step c false m s t one = one

pub set_status-Step :
    (s : Server) (c : ℕ) (cc up : ChildConfig)
    → s.configs c ≡ some up
    → Step c s (set_status c cc s)
unfolding set_status
set_status-Step s c cc up group =
    let reset = λ (u : ChildConfig). record u { cc_error = pos 0 } in
    let s₀ = log_status cc up s in
    let s₁ = modify c reset s₀ in
    let zero_step : Step c s s₀ = unfold log_status in emit-Step c s s _ (none-Step c s up group) in
    let one =
      then-Step c s s₀ s₁ zero_step
        (modify-Step c reset (λ u. refl) (λ u. refl) s₀ zero_step.after zero_step.group) in
    let start = not (eq_ℤ up.cc_status status_running) && eq_ℤ cc.cc_status status_running in
    let s₂ = if start then start_from c 0 (to_ℕ up.cc_instances) s₁ else s₁ in
    let two : Step c s s₂ = elim (Bool-cases start) [
      | inl on ↦ rw on (
          then-Step c s s₁ (start_from c 0 (to_ℕ up.cc_instances) s₁) one
            (start_from-Step s₁ c 0 (to_ℕ up.cc_instances) one.after one.group))
      | inr off ↦ rw off one
    ] in
    let status = λ (u : ChildConfig). record u { cc_status = cc.cc_status } in
    let three =
      then-Step c s s₂ (modify c status s₂) two
        (modify-Step c status (λ u. refl) (λ u. refl) s₂ two.after two.group) in
    elim (Bool-cases (differs_int cc.cc_status up.cc_status)) [
      | inr same ↦ rw (set_status, group, same) (none-Step c s up group)
      | inl other ↦ rw (set_status, group, other) (emit-Step c s (modify c status s₂) _ three)
    ]
