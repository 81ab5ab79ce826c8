-- ===== src/Registry/Frames.antt =====
-- What starts, reaps and signals processes leaves the names of the groups alone.
use mathlib.Core.Path.{fun_ext}
use ubervisor.Common.{
  ℕ, zero, suc, ◌≡◌, ◌∙◌, ap, sym, refl, inl, inr, arith, List, [], ◌∷◌, Option, some, Option-cases,
  Bool-cases, set, tail, ◌==◌, ==_iff,
}
use ubervisor.Config.{ChildConfig, child}
use ubervisor.Server.{
  Process, Server, Wait, emit, put_config, spawn, parent, spawned, fork, first_answer, fatal_child,
  run_fatal_cb, note_error, note_exit, restart, reap_group, reap, sigchld_cb, process_insert,
  process_remove, clear_child, count_error,
}
use ubervisor.Server.Heartbeat.{heartbeat_cb, heartbeat_child, run_heartbeat, overdue, terminate}
use ubervisor.Command.{spawn_from}
use ubervisor.Server.Heap.{update}
use ubervisor.Registry.{titles, Keeps, Tagged}

titles-update :
    (f : ℕ → Option ChildConfig) (c : ℕ) (cc : ChildConfig)
    → titles f c ≡ some cc.cc_name
    → titles (update f c (some cc)) ≡ titles f
unfolding titles update
titles-update f c cc tagged = fun_ext (λ d. elim (Bool-cases (c == d)) [
  | inl same ↦ rw (titles, same) (sym tagged ∙ ap (titles f) ((==_iff c d).0 same))
  | inr other ↦ rw (titles, other) refl
])

pub put_config-Keeps :
    (c : ℕ) (cc : ChildConfig) (s : Server) → Tagged c cc s → Keeps s (put_config c cc s)
unfolding put_config
put_config-Keeps c cc s tagged = (
  ap (λ t. (s.names, s.child_config_hash, s.child_config_list, t))
      (titles-update s.configs c cc tagged),
  omega arith,
)

spawned-Keeps :
    (pid c : ℕ) (cc : ChildConfig) (i : ℕ) (s : Server)
    → Tagged c cc s
    → Keeps s (spawned pid c cc i s)
unfolding spawned process_insert
spawned-Keeps pid c cc i s tagged =
    let kept =
      put_config-Keeps c (record cc { cc_childs = set cc.cc_childs i (child s.next) }) s tagged in
    (unfold put_config in kept.0, unfold put_config in omega arith)

pub spawn-Keeps :
    (c : ℕ) (cc : ChildConfig) (i : ℕ) (s : Server) → Tagged c cc s → Keeps s (spawn c cc i s).1
unfolding spawn parent fork
spawn-Keeps c cc i s tagged = elim (Option-cases (first_answer s.forks)) [
  | inl failed ↦ rw failed (refl, omega arith)
  | inr (pid, got) ↦ rw got (spawned-Keeps pid c cc i (record s { forks = tail s.forks }) tagged)
]

pub run_fatal_cb-Keeps : (cc : ChildConfig) (s : Server) → Keeps s (run_fatal_cb cc s)
unfolding run_fatal_cb fatal_child emit fork
run_fatal_cb-Keeps cc s = ground arith

-- The name that note_exit hands on.
name-note_exit :
    (c : ℕ) (cc : ChildConfig) (w : Wait) (s : Server) → (note_exit c cc w s).0.cc_name ≡ cc.cc_name
unfolding note_exit note_error count_error
name-note_exit c cc w s = ground arith

note_error-Keeps :
    (c : ℕ) (cc : ChildConfig) (s : Server) → Tagged c cc s → Keeps s (note_error c cc s).1
unfolding note_error count_error emit
note_error-Keeps c cc s tagged = grind (arith, run_fatal_cb-Keeps, put_config-Keeps)

note_exit-Keeps :
    (c : ℕ) (cc : ChildConfig) (w : Wait) (s : Server)
    → Tagged c cc s
    → Keeps s (note_exit c cc w s).1
unfolding note_exit
note_exit-Keeps c cc w s tagged = grind (arith, note_error-Keeps)

restart-Keeps :
    (c i : ℕ) (cc : ChildConfig) (s : Server) → Tagged c cc s → Keeps s (restart c i (cc, s))
unfolding restart
restart-Keeps c i cc s tagged = grind (arith, spawn-Keeps)

-- What follows a step that keeps the names still has the group.
pub still : (c : ℕ) (cc : ChildConfig) (s t : Server) → Keeps s t → Tagged c cc s → Tagged c cc t
still c cc s t kept tagged = ap (λ b. b.3 c) kept.0 ∙ tagged

pub chain : (s t u : Server) → Keeps s t → Keeps t u → Keeps s u
chain s t u first second = (second.0 ∙ first.0, omega (arith, first.1, second.1))

tag-clear_child :
    (c i : ℕ) (cc : ChildConfig) (s : Server) → Tagged c cc s → Tagged c (clear_child i cc) s
unfolding clear_child
tag-clear_child c i cc s tagged = ground arith

reap_group-Keeps :
    (c : ℕ) (cc : ChildConfig) (i : ℕ) (w : Wait) (s : Server)
    → Tagged c cc s
    → Keeps s (reap_group c cc i w s)
unfolding reap_group
reap_group-Keeps c cc i w s tagged =
    let cleared = clear_child i cc in
    let s₁ = put_config c cleared s in
    let kept₁ = put_config-Keeps c cleared s (tag-clear_child c i cc s tagged) in
    let tagged₁ = still c cleared s s₁ kept₁ (tag-clear_child c i cc s tagged) in
    let r = note_exit c cleared w s₁ in
    let kept₂ = note_exit-Keeps c cleared w s₁ tagged₁ in
    let tagged₂ : Tagged c r.0 r.1 =
      still c cleared s₁ r.1 kept₂ tagged₁ ∙ ap some (sym (name-note_exit c cleared w s₁)) in
    let done = restart c i r in
    chain s s₁ done kept₁ (chain s₁ r.1 done kept₂ (restart-Keeps c i r.0 r.1 tagged₂))

-- A group that is there has its name.
pub tag : (c : ℕ) (cc : ChildConfig) (s : Server) → s.configs c ≡ some cc → Tagged c cc s
unfolding titles
tag c cc s there = rw (Tagged, titles, there) refl

reap-Keeps : (p : ℕ) (pr : Process) (w : Wait) (s : Server) → Keeps s (reap p pr w s)
unfolding reap process_remove
reap-Keeps p pr w s = elim (Option-cases pr.p_child_config) [
  | inl none_left ↦ ground arith
  | inr (c, mine) ↦ elim (Option-cases (s.configs c)) [
    | inl gone ↦ ground arith
    | inr (cc, there) ↦ grind (arith, reap_group-Keeps, tag)
  ]
]

pub sigchld_cb-Keeps : (ended : List (ℕ × Wait)) (s : Server) → Keeps s (sigchld_cb ended s)
unfolding sigchld_cb
sigchld_cb-Keeps [] s = (refl, omega arith)
sigchld_cb-Keeps ((pid, w) ∷ rest) s = grind (arith, reap-Keeps, sigchld_cb-Keeps rest)

pub heartbeat_cb-Keeps : (p : ℕ) (s : Server) → Keeps s (heartbeat_cb p s)
unfolding heartbeat_cb run_heartbeat heartbeat_child overdue terminate emit fork
heartbeat_cb-Keeps p s = ground arith

pub spawn_from-Keeps : (c i n : ℕ) (s : Server) → Keeps s (spawn_from c i n s)
unfolding spawn_from
spawn_from-Keeps c i zero s = (refl, omega arith)
spawn_from-Keeps c i (suc n) s = grind (arith, tag, spawn-Keeps, spawn_from-Keeps c (suc i) n)
