-- ===== src/Server/Heartbeat.antt =====
-- heartbeat_cb of cmd_server.c, which looks after one process.
pub mod Alive
pub mod Signals
use ubervisor.Common.{
  ℕ, ◌≡◌, inl, inr, refl, sym, ap, ◌∙◌, Bool, true, false, ◌&&◌, ◌∷◌, Option, none, some, arith,
  ◌==◌, ==_iff, ==_refl, if◌then◌else◌, Bool-cases, Option-cases, Str, ◌⊎◌,
}
use ubervisor.Common.Int.{ℤ, pos, lt_ℤ, sub_ℕ}
use ubervisor.Config.{ChildConfig}
use ubervisor.Server.Heap.{update}
use ubervisor.Server.{
  Process, Server, emit, killed, ran_heartbeat, logged, exceeded_kill, exceeded_signal,
  heartbeat_error, fork, first_answer,
}
use ubervisor.Server.Alive.{IsAlive, fork-IsAlive, emit-IsAlive}

-- SIGKILL and SIGTERM
abbrev pub sigkill : ℤ
sigkill = pos 9

abbrev pub sigterm : ℤ
sigterm = pos 15

-- `p->p_age > 0 && uptime > p->p_age` at the time `t`
unfoldable pub exceeded : Process → ℕ → Bool
exceeded pr t = lt_ℤ (pos 0) pr.p_age && lt_ℤ pr.p_age (sub_ℕ t pr.p_start)

-- The group of a process; NULL is `none`.
unfoldable pub group_of : Process → Server → Option ChildConfig
group_of pr s = elim pr.p_child_config [ none ↦ none | some c ↦ s.configs c ]

-- The signal that asks a process to end.
unfoldable pub ending_signal : Option ChildConfig → ℤ
ending_signal none = sigterm
ending_signal (some cc) = cc.cc_killsig

unfoldable pub terminate : ℕ → Process → Server → Server
terminate p pr s = record s {
  processes = update s.processes p (some (record pr { p_terminated = true }));
}

-- `pid = fork ()` and what follows it, for the group of the process.
unfoldable pub heartbeat_child : ChildConfig → Process → Option ℕ × Server → Server
heartbeat_child cc pr (none, s) = emit (logged (heartbeat_error cc.cc_name)) s
heartbeat_child cc pr (some pid, s) = emit (ran_heartbeat cc.cc_name pr.p_pid pr.p_instance) s

unfoldable pub run_heartbeat : Option ChildConfig → Process → Server → Server
run_heartbeat none pr s = s
run_heartbeat (some cc) pr s = elim cc.cc_heartbeat [
  | none ↦ s
  | some program ↦ heartbeat_child cc pr (fork s)
]

unfoldable pub overdue : ℕ → Process → Server → Server
overdue p pr s =
    if pr.p_terminated
    then emit (killed pr.p_pid sigkill) (emit (logged (exceeded_kill pr.p_pid)) s)
    else terminate p pr (
        emit (killed pr.p_pid (ending_signal (group_of pr s)))
          (emit (logged (exceeded_signal pr.p_pid)) s))

-- The timer that is set again belongs to libevent.
unfoldable pub heartbeat_cb : ℕ → Server → Server
heartbeat_cb p s = elim (s.processes p) [
  | none ↦ s
  | some pr ↦ if exceeded pr s.now then overdue p pr s else run_heartbeat (group_of pr s) pr s
]

-- A later time, with nothing else changed.
unfoldable pub at_time : ℕ → Server → Server
at_time now s = record s { now = now }
