-- ===== src/Server/Ends.antt =====
-- sigchld_cb of cmd_server.c against the pointers of the server.
use ubervisor.Common.{
  ℕ, ◌≡◌, inl, inr, refl, ap, ◌∙◌, ◌&&◌, List, [], ◌∷◌, some, arith, Bool-cases, Option-cases,
  get_elem?,
}
use ubervisor.Common.Int.{pos, lt_ℤ, eq_ℤ}
use ubervisor.Config.{ChildConfig, empty, status_broken, status_running}
use ubervisor.Uvhash.{uvhash_remove}
use ubervisor.Uvhash.Laws.{stack-uvhash_remove}
use ubervisor.Server.{
  Process, Server, Wait, emit, put_config, process_find_by_pid, process_remove, clear_child,
  count_error, is_broken, note_error, note_exit, restart, exit_is_error, reap_group, reap,
  sigchld_cb,
}
use ubervisor.Server.Reap.{freed-IsSound, cleared-IsSound, cleared-free}
use ubervisor.Server.Alive.{
  IsAlive, AreFresh, put_config-IsAlive, spawn-IsAlive, run_fatal_cb-IsAlive, configs-run_fatal_cb,
  emit-IsAlive, configs-put_config,
}

-- What the tail of a round works on: a live server whose group has its children as before.
record Handed (c : ℕ) (cc : ChildConfig) (next : ChildConfig × Server) : Type 0 where
  alive : IsAlive next.1
  group : next.1.configs c ≡ some next.0
  childs : next.0.cc_childs ≡ cc.cc_childs

note_error-Handed :
    (s : Server) (c : ℕ) (cc : ChildConfig)
    → IsAlive s
    → s.configs c ≡ some cc
    → Handed c cc (note_error c cc s)
unfolding note_error count_error
note_error-Handed s c cc alive group =
    let counted = count_error s.now cc in
    let broken = record counted { cc_status = status_broken } in
    let put = put_config c broken s in
    elim (Bool-cases (is_broken counted)) [
      | inl limit ↦ rw limit (record {
        alive =
            run_fatal_cb-IsAlive (emit _ put) broken
              (emit-IsAlive put _ (put_config-IsAlive s c cc broken group refl refl alive));
        group =
            ap (λ f. f c) (configs-run_fatal_cb (emit _ put) broken)
            ∙ unfold emit in configs-put_config c broken s;
        childs = refl;
      })
      | inr fine ↦ rw fine (record {
        alive = put_config-IsAlive s c cc counted group refl refl alive;
        group = configs-put_config c counted s;
        childs = refl;
      })
    ]

note_exit-Handed :
    (s : Server) (c : ℕ) (cc : ChildConfig) (status : Wait)
    → IsAlive s
    → s.configs c ≡ some cc
    → Handed c cc (note_exit c cc status s)
unfolding note_exit
note_exit-Handed s c cc status alive group = elim (Bool-cases (exit_is_error status cc)) [
  | inl failed ↦ rw failed (note_error-Handed s c cc alive group)
  | inr fine ↦ rw fine (record { alive = alive; group = group; childs = refl })
]

restart-IsAlive :
    (c inst : ℕ) (cc : ChildConfig) (next : ChildConfig × Server)
    → Handed c cc next
    → get_elem? cc.cc_childs inst ≡ some empty
    → IsAlive (restart c inst next)
unfolding restart
restart-IsAlive c inst cc next handed free =
    elim (Bool-cases
      (lt_ℤ (pos inst) next.0.cc_instances && eq_ℤ next.0.cc_status status_running)) [
        | inl on ↦
            rw on
              (spawn-IsAlive next.1 c next.0 inst handed.alive handed.group (rw handed.childs free))
        | inr off ↦ rw off handed.alive
      ]

reap_group-IsAlive :
    (s : Server) (c : ℕ) (cc : ChildConfig) (inst : ℕ) (status : Wait)
    → IsAlive (put_config c (clear_child inst cc) s)
    → get_elem? (clear_child inst cc).cc_childs inst ≡ some empty
    → IsAlive (reap_group c cc inst status s)
unfolding reap_group
reap_group-IsAlive s c cc inst status alive free =
    let cleared = clear_child inst cc in
    let s₁ = put_config c cleared s in
    restart-IsAlive c inst cleared (note_exit c cleared status s₁)
      (note_exit-Handed s₁ c cleared status alive (configs-put_config c cleared s)) free

module _ (s : Server) (alive : IsAlive s) (p : ℕ) (pr : Process)
    (there : s.processes p ≡ some pr) where
  fresh_removed : AreFresh (uvhash_remove s.process_hash pr.p_pid) s.forks
  fresh_removed i pid e =
      let (unlisted, once) = alive.fresh i pid e in
      (ground (arith, stack-uvhash_remove s.process_hash pr.p_pid pid alive.sound.valid), once)

  reap-IsAlive : (status : Wait) → IsAlive (reap p pr status s)
  unfolding reap process_remove
  reap-IsAlive status = elim (Option-cases pr.p_child_config) [
    | inl orphan ↦
        rw orphan
          (record { sound = freed-IsSound s alive.sound p pr there orphan; fresh = fresh_removed })
    | inr (c, mine) ↦
        let (cc, group, slot) = (alive.sound.running p pr there).has_group c mine in
        rw (reap, mine, group)
          (reap_group-IsAlive _ c cc pr.p_instance status
            (unfold put_config in
              record {
                sound = cleared-IsSound s alive.sound p pr there c mine cc group;
                fresh = fresh_removed;
              })
            (cleared-free s alive.sound p pr there c mine cc group))
  ]

-- From a live server sigchld_cb leads to a live one, whatever children have ended and however fork
-- answers. In a live server no pointer dangles between groups, processes and the table of pids, each
-- process is listed under its pid alone, and the pids that fork will give are neither listed nor equal.
pub sigchld_cb-IsAlive :
    (ended : List (ℕ × Wait)) (s : Server) → IsAlive s → IsAlive (sigchld_cb ended s)
unfolding sigchld_cb
sigchld_cb-IsAlive [] s alive = alive
sigchld_cb-IsAlive ((pid, status) ∷ rest) s alive =
    elim (Option-cases (process_find_by_pid pid s)) [
      | inl unknown ↦ rw (sigchld_cb, unknown) alive
      | inr (p, known) ↦
          rw (sigchld_cb, known)
            (elim (Option-cases (s.processes p)) [
              | inl missing ↦ rw missing alive
              | inr (pr, there) ↦ rw there (
                  sigchld_cb-IsAlive rest (reap p pr status s)
                    (reap-IsAlive s alive p pr there status))
            ])
    ]
