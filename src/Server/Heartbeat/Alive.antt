-- ===== src/Server/Heartbeat/Alive.antt =====
-- heartbeat_cb of cmd_server.c against the pointers of the server.
use ubervisor.Common.{
  ℕ, ◌≡◌, inl, inr, refl, sym, ap, ◌∙◌, true, Option, none, some, arith, ◌==◌, ==_iff,
  if◌then◌else◌, Bool-cases, Option-cases,
}
use ubervisor.Config.{ChildConfig}
use ubervisor.Server.Heap.{update}
use ubervisor.Server.{Process, Server, emit, killed, logged, exceeded_signal, fork}
use ubervisor.Server.Alive.{IsAlive, fork-IsAlive, emit-IsAlive}
use ubervisor.Server.Heartbeat.{
  exceeded, group_of, ending_signal, terminate, heartbeat_child, run_heartbeat, overdue,
  heartbeat_cb,
}

module _ (s : Server) (alive : IsAlive s) (p : ℕ) (pr : Process)
    (there : s.processes p ≡ some pr) where
  abbrev marked : Process
  marked = record pr { p_terminated = true }

  process_after :
      (q : ℕ)
      → update s.processes p (some marked) q ≡ (if p == q then some marked else s.processes q)
  process_after q = refl

  -- A process after the mark as it was before.
  was :
      (q : ℕ) (qr : Process)
      → update s.processes p (some marked) q ≡ some qr
      → (rr : Process) × (s.processes q ≡ some rr)
        × (rr.p_pid ≡ qr.p_pid)
        × (rr.p_child_config ≡ qr.p_child_config)
        × (rr.p_instance ≡ qr.p_instance)
  was q qr e = elim (Bool-cases (p == q)) [
    | inl same ↦
        let eq : marked ≡ qr = ground (arith, process_after q) in
        (
          pr,
          ap s.processes (sym ((==_iff p q).0 same)) ∙ there,
          ap (λ r. r.p_pid) eq,
          ap (λ r. r.p_child_config) eq,
          ap (λ r. r.p_instance) eq,
        )
    | inr other ↦ (qr, ground (arith, process_after q), refl, refl, refl)
  ]

  will_be :
      (q : ℕ) (qr : Process)
      → s.processes q ≡ some qr
      → (rr : Process) × (update s.processes p (some marked) q ≡ some rr)
        × (rr.p_pid ≡ qr.p_pid)
        × (rr.p_child_config ≡ qr.p_child_config)
        × (rr.p_instance ≡ qr.p_instance)
  will_be q qr e = elim (Bool-cases (p == q)) [
    | inl same ↦
        let both : some pr ≡ some qr = sym there ∙ ap s.processes ((==_iff p q).0 same) ∙ e in
        let eq : pr ≡ qr = cc in
        (
          marked,
          ground (arith, process_after q),
          ap (λ r. r.p_pid) eq,
          ap (λ r. r.p_child_config) eq,
          ap (λ r. r.p_instance) eq,
        )
    | inr other ↦ (qr, ground (arith, process_after q), refl, refl, refl)
  ]

  terminate-IsAlive : IsAlive (terminate p pr s)
  unfolding terminate
  terminate-IsAlive = record {
    sound = record {
      valid = alive.sound.valid;
      unused_config = alive.sound.unused_config;
      unused_process = λ q h.
          ground
            (arith, process_after q, alive.sound.unused_process q, alive.sound.unused_process p);
      groups = λ d dd e.
          let o = alive.sound.groups d dd e in
          record {
            sized = o.sized;
            written = o.written;
            owned = λ i q at.
                let (qr, its, mine, here) = o.owned i q at in
                let (rr, now, pid, config, inst) = will_be q qr its in
                (rr, now, config ∙ mine, inst ∙ here);
          };
      running = λ q qr e.
          let (rr, before, pid, config, inst) = was q qr e in
          let o = alive.sound.running q rr before in
          record {
            has_group = λ d mine. rw (← inst) (o.has_group d (config ∙ mine));
            listed = rw (← pid) o.listed;
          };
      known = λ pid q e.
          let (qr, its, here) = alive.sound.known pid q e in
          let (rr, now, same, group, inst) = will_be q qr its in (rr, now, same ∙ here);
    };
    fresh = alive.fresh;
  }

heartbeat_child-IsAlive :
    (cc : ChildConfig) (pr : Process) (s : Server)
    → IsAlive s
    → IsAlive (heartbeat_child cc pr (fork s))
unfolding heartbeat_child
heartbeat_child-IsAlive cc pr s alive = elim (Option-cases (fork s).0) [
  | inl failed ↦ rw failed (emit-IsAlive (fork s).1 _ (fork-IsAlive s alive))
  | inr (pid, got) ↦ rw got (emit-IsAlive (fork s).1 _ (fork-IsAlive s alive))
]

run_heartbeat-IsAlive :
    (group : Option ChildConfig) (pr : Process) (s : Server)
    → IsAlive s
    → IsAlive (run_heartbeat group pr s)
unfolding run_heartbeat
run_heartbeat-IsAlive none pr s alive = alive
run_heartbeat-IsAlive (some cc) pr s alive = elim (Option-cases cc.cc_heartbeat) [
  | inl unset ↦ rw unset alive
  | inr (program, set_to) ↦ rw set_to (heartbeat_child-IsAlive cc pr s alive)
]

-- From a live server heartbeat_cb leads to a live one, for every process and every answer of fork.
pub heartbeat_cb-IsAlive : (p : ℕ) (s : Server) → IsAlive s → IsAlive (heartbeat_cb p s)
unfolding heartbeat_cb overdue terminate group_of
heartbeat_cb-IsAlive p s alive = elim (Option-cases (s.processes p)) [
  | inl gone ↦ rw (heartbeat_cb, gone) alive
  | inr (pr, there) ↦
      rw (heartbeat_cb, there)
        (elim (Bool-cases (exceeded pr s.now)) [
          | inl old ↦ rw old (elim (Bool-cases pr.p_terminated) [
            | inl again ↦ rw again (emit-IsAlive _ _ (emit-IsAlive s _ alive))
            | inr first ↦
                let signal = killed pr.p_pid (ending_signal (group_of pr s)) in
                let told = emit (logged (exceeded_signal pr.p_pid)) s in
                rw first (
                  terminate-IsAlive (emit signal told)
                    (emit-IsAlive told signal (emit-IsAlive s _ alive)) p pr (unfold emit in there))
          ])
          | inr young ↦ rw young (run_heartbeat-IsAlive (group_of pr s) pr s alive)
        ])
]
