-- ===== src/Server/Heartbeat/Signals.antt =====
-- The signals that heartbeat_cb of cmd_server.c sends.
use ubervisor.Common.{
  ℕ, ◌≡◌, inl, inr, refl, false, ◌∷◌, Option, none, some, Option-cases, Str, ◌⊎◌,
}
use ubervisor.Config.{ChildConfig}
use ubervisor.Server.{
  Process, Server, emit, ran_heartbeat, logged, heartbeat_error, fork, first_answer,
}
use ubervisor.Server.Heartbeat.{exceeded, group_of, heartbeat_child, run_heartbeat, heartbeat_cb}

young-heartbeat :
    (p : ℕ) (pr : Process) (s : Server)
    → s.processes p ≡ some pr
    → exceeded pr s.now ≡ false
    → heartbeat_cb p s ≡ run_heartbeat (group_of pr s) pr s
unfolding heartbeat_cb
young-heartbeat p pr s there young = rw (heartbeat_cb, there) (rw young refl)

run_heartbeat-events :
    (group : Option ChildConfig) (pr : Process) (s : Server)
    → ((run_heartbeat group pr s).events ≡ s.events)
      ⊎ ((name : Option Str) × ((run_heartbeat group pr s).events
            ≡ logged (heartbeat_error name) ∷ s.events))
      ⊎ ((name : Option Str) × ((run_heartbeat group pr s).events
            ≡ ran_heartbeat name pr.p_pid pr.p_instance ∷ s.events))
unfolding run_heartbeat fork heartbeat_child emit
run_heartbeat-events none pr s = inl refl
run_heartbeat-events (some cc) pr s = elim (Option-cases cc.cc_heartbeat) [
  | inl unset ↦ rw unset (inl refl)
  | inr (program, set_to) ↦ rw set_to (elim (Option-cases (first_answer s.forks)) [
    | inl failed ↦ rw failed (inr (inl (cc.cc_name, refl)))
    | inr (pid, got) ↦ rw got (inr (inr (cc.cc_name, refl)))
  ])
]

-- A process that has no age, or has not outlived it, is sent no signal: its heartbeat runs the
-- program of its group, or logs that it cannot, or does nothing.
pub heartbeat_cb-spares :
    (p : ℕ) (pr : Process) (s : Server)
    → s.processes p ≡ some pr
    → exceeded pr s.now ≡ false
    → ((heartbeat_cb p s).events ≡ s.events)
      ⊎ ((name : Option Str) × ((heartbeat_cb p s).events
            ≡ logged (heartbeat_error name) ∷ s.events))
      ⊎ ((name : Option Str) × ((heartbeat_cb p s).events
            ≡ ran_heartbeat name pr.p_pid pr.p_instance ∷ s.events))
heartbeat_cb-spares p pr s there young =
    rw (young-heartbeat p pr s there young) (run_heartbeat-events (group_of pr s) pr s)
