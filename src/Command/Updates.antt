-- ===== src/Command/Updates.antt =====
-- c_updt of cmd_server.c against the pointers of the server.
mod Steps
use mathlib.Core.Path.{subst}
use ubervisor.Common.{
  ℕ, zero, suc, ◌≤◌, ◌≡◌, inl, inr, refl, sym, ap, ◌∙◌, Bool, true, false, not, ◌&&◌, none, some,
  arith, ◌==◌, ==_iff, if◌then◌else◌, Bool-cases, Option-cases, length, get_elem?, Str, codes,
}
use ubervisor.Common.Int.{ℤ, pos, negsuc, to_ℕ, eq_ℤ, lt_ℤ}
use ubervisor.Config.{ChildConfig, empty, child, unwritten, status_running}
use ubervisor.Json.{JsonC}
use ubervisor.Server.{
  Server, Message, logged, update_error, update_number, Event, emit, process_find_instance,
}
use ubervisor.Server.Alive.{
  IsAlive, configs-put_config, spawn-IsAlive, put_config-IsAlive, emit-IsAlive,
}
use ubervisor.Server.Spawn.{spawn-Spawned}
use ubervisor.Command.{Disk}
use ubervisor.Command.Groups.{same-IsAlive, world, world-succeeded, said}
use ubervisor.Command.Update.{
  log_if, log_text, log_texts, log_instances, log_age, grow, modify, set_texts, age_changes,
  set_instances, differs_int, start_one, start_from, set_status, set_age, updated, changed,
  notify_update, update_group, c_updt,
}
use ubervisor.Command.Shrink.{modify-put_config, shrink-IsAlive}
use ubervisor.Command.Grow.{grow-IsAlive}
use ubervisor.Command.Grow.Filled.{IsWritten}
use ubervisor.Command.Refusals.{c_updt-cases}
use ubervisor.Command.Updates.Steps.{
  configs-modify, modify-Step, Step, then-Step, set_instances-IsAlive, set_status-Step, none-Step,
  log_if-Step,
}

set_texts-childs : (cc up : ChildConfig) → (set_texts cc up).cc_childs ≡ up.cc_childs
unfolding set_texts
set_texts-childs cc up = refl

set_texts-instances : (cc up : ChildConfig) → (set_texts cc up).cc_instances ≡ up.cc_instances
unfolding set_texts
set_texts-instances cc up = refl

set_age-childs : (cc up : ChildConfig) → (set_age cc up).cc_childs ≡ up.cc_childs
unfolding set_age
set_age-childs cc up = ground arith

set_age-instances : (cc up : ChildConfig) → (set_age cc up).cc_instances ≡ up.cc_instances
unfolding set_age
set_age-instances cc up = ground arith

log_texts-Step :
    (s : Server) (c : ℕ) (cc up : ChildConfig)
    → s.configs c ≡ some up
    → Step c s (log_texts cc up s)
unfolding log_texts log_text
log_texts-Step s c cc up group = log_if-Step c _ _ s _ (
    log_if-Step c _ _ s _ (
      log_if-Step c _ _ s _ (
        log_if-Step c _ _ s _
          (log_if-Step c _ _ s _ (log_if-Step c _ _ s s (none-Step c s up group))))))

configs-log_texts : (cc up : ChildConfig) (s : Server) → (log_texts cc up s).configs ≡ s.configs
unfolding log_texts log_text log_if emit
configs-log_texts cc up s = grind arith

-- A line of the log changes no pointer.
log_if-world : (b : Bool) (m : Message) (s : Server) → world (log_if b m s) ≡ world s
unfolding log_if emit
log_if-world true m s = refl
log_if-world false m s = refl

-- The steps behind the change of the instances.
finish-Step :
    (s : Server) (c : ℕ) (cc up now : ChildConfig)
    → s.configs c ≡ some now
    → Step c s (modify c (set_age cc) (log_age cc up (set_status c cc s)))
unfolding log_age
finish-Step s c cc up now group =
    let one =
      log_if-Step c (age_changes cc up) (update_number up.cc_name (codes "age") up.cc_age cc.cc_age)
        s (set_status c cc s) (set_status-Step s c cc now group) in
    then-Step c s _ _ one
      (modify-Step c (set_age cc) (set_age-childs cc) (set_age-instances cc) _ one.after one.group)

nothing_left :
    (s : Server) (c : ℕ) (cc up : ChildConfig)
    → s.configs c ≡ none
    → world (modify c (set_age cc) (log_age cc up (set_status c cc s))) ≡ world s
unfolding modify set_status log_age log_if emit
nothing_left s c cc up missing =
    let same : set_status c cc s ≡ s = rw (set_status, missing) refl in
    ap (λ t. world (modify c (set_age cc) (log_age cc up t))) same
    ∙ elim (Bool-cases (age_changes cc up)) [
      | inl logs ↦ rw logs (rw (modify, missing) refl)
      | inr silent ↦ rw silent (rw (modify, missing) refl)
    ]

updated-IsAlive :
    (s : Server) (c : ℕ) (cc up : ChildConfig)
    → IsAlive s
    → s.configs c ≡ some up
    → IsWritten c (updated c cc up s)
    → IsAlive (updated c cc up s)
unfolding updated
updated-IsAlive s c cc up alive group written =
    let s₀ = log_texts cc up s in
    let zero_step = log_texts-Step s c cc up group in
    let group₀ : s₀.configs c ≡ some up = ap (λ f. f c) (configs-log_texts cc up s) ∙ group in
    let s₁ = modify c (set_texts cc) s₀ in
    let one =
      modify-Step c (set_texts cc) (set_texts-childs cc) (set_texts-instances cc) s₀ up group₀ in
    let group₁ =
      configs-modify c (set_texts cc) (set_texts-childs cc) (set_texts-instances cc) s₀ up group₀ in
    let s₂ = log_instances cc up s₁ in
    let same₂ : world s₂ ≡ world s₁ = unfold log_instances in log_if-world _ _ s₁ in
    let t = set_instances c cc up s₂ in
    let enough =
      set_instances-IsAlive s₂ c cc up (set_texts cc up)
        (same-IsAlive s₁ s₂ same₂ (one.alive (zero_step.alive alive)))
        (ap (λ w. w.0 c) same₂ ∙ group₁) (set_texts-instances cc up) in
    elim (Option-cases (t.configs c)) [
      | inl missing ↦
          let same = nothing_left t c cc up missing in
          same-IsAlive t _ same (enough (λ dd e i at. written dd (ap (λ w. w.0 c) same ∙ e) i at))
      | inr (now, there) ↦
          let rest = finish-Step t c cc up now there in rest.alive (enough (rest.back written))
    ]

module _ (lib : JsonC) (auto_dump : Bool) (disk : Disk) where
  world-notify_update : (b : Bool) (c : ℕ) (s : Server) → world (notify_update b c s) ≡ world s
  unfolding notify_update emit
  world-notify_update b c s = ground arith

  pub world-update_group :
      (s : Server) (c : ℕ) (cc up : ChildConfig)
      → s.configs c ≡ some up
      → world (update_group lib auto_dump disk c cc s) ≡ world (updated c cc up s)
  unfolding update_group
  world-update_group s c cc up group =
      rw (update_group, group)
        (world-succeeded lib auto_dump disk (codes "success")
            (notify_update (changed cc up) c (updated c cc up s))
          ∙ world-notify_update (changed cc up) c (updated c cc up s))

  update_group-IsAlive :
      (s : Server) (c : ℕ) (cc : ChildConfig)
      → IsAlive s
      → IsWritten c (update_group lib auto_dump disk c cc s)
      → IsAlive (update_group lib auto_dump disk c cc s)
  update_group-IsAlive s c cc alive written = elim (Option-cases (s.configs c)) [
    | inl missing ↦ unfold update_group in rw (update_group, missing) alive
    | inr (up, group) ↦
        let same = world-update_group s c cc up group in
        let configs : (update_group lib auto_dump disk c cc s).configs
            ≡ (updated c cc up s).configs =
          ap (λ w. w.0) same in
        same-IsAlive (updated c cc up s) (update_group lib auto_dump disk c cc s) same (
          updated-IsAlive s c cc up alive group
            (λ dd e i at. written dd (ap (λ f. f c) configs ∙ e) i at))
  ]

  -- From a live server c_updt leads to a live one, whatever it is sent and whatever fork and the file
  -- system answer, where it leaves no place of a group unwritten.
  pub c_updt-IsAlive :
      (buf : Str) (s : Server)
      → IsAlive s
      → ((c : ℕ) → IsWritten c (c_updt lib auto_dump disk buf s).1)
      → IsAlive (c_updt lib auto_dump disk buf s).1
  c_updt-IsAlive buf s alive written = elim (c_updt-cases lib auto_dump disk buf s) [
    | inl (_, same) ↦ subst IsAlive (sym (ap (λ r. r.1) same)) (
        said lib auto_dump disk (emit (logged update_error) s) (emit-IsAlive s _ alive) false
          (codes "failure"))
    | inr (inl (_, code, msg, same)) ↦
        subst IsAlive (sym same) (said lib auto_dump disk s alive code msg)
    | inr (inr (cc, name, c, _, _, _, _, same)) ↦
        let end = ap (λ r. r.1) same in
        subst IsAlive (sym end)
          (update_group-IsAlive s c cc alive (subst (IsWritten c) end (written c)))
  ]
