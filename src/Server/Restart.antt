-- ===== src/Server/Restart.antt =====
-- What sigchld_cb does to the group of a process that ended: a new child, or the group is broken.
use ubervisor.Common.{
  ℕ, ◌≡◌, inl, inr, refl, sym, ap, ◌∙◌, true, false, ◌&&◌, List, [], ◌∷◌, Option, none, some, arith,
  lt→ltb, ◌==◌, ==_iff, ==_refl, if◌then◌else◌, Bool-cases, length, get_elem?, set, head?, tail,
  length-set, get_elem?-set, get_elem?-lt,
}
use ubervisor.Common.Int.{pos, lt_ℤ, eq_ℤ}
use ubervisor.Config.{ChildConfig, Slot, empty, child, status_broken, status_running}
use ubervisor.Uvhash.{uvhash_insert, uvhash_remove}
use ubervisor.Uvhash.Laws.{
  stack, uvhash_find-stack, stack-uvhash_insert, stack-uvhash_remove, uvhash_remove-IsValid,
}
use ubervisor.Server.{
  Process, Server, Event, ran_fatal_cb, Wait, status_update, exited, signaled, emit, put_config,
  new_process, spawn, fork, first_answer, parent, spawned, process_insert, process_find_by_pid,
  process_remove, clear_child, count_error, is_broken, note_error, note_exit, restart,
  exit_is_error, reap_group, reap, sigchld_cb,
}
use ubervisor.Server.Alive.{IsAlive}
use ubervisor.Server.Reap.{left, cleared-free, childs_cleared, instances_cleared, status_cleared}

-- What the place `i` of the group at `c` holds.
abbrev pub child_of : Server → ℕ → ℕ → Option Slot
child_of s c i = elim (s.configs c) [ none ↦ none | some cc ↦ get_elem? cc.cc_childs i ]

exit_is_error-cc_killsig :
    (status : Wait) (a b : ChildConfig)
    → a.cc_killsig ≡ b.cc_killsig
    → exit_is_error status a ≡ exit_is_error status b
unfolding exit_is_error
exit_is_error-cc_killsig (exited code) a b same = refl
exit_is_error-cc_killsig (signaled sig) a b same = ap (eq_ℤ sig) same

get_elem?-first_answer :
    (forks : List (Option ℕ)) (pid : ℕ)
    → first_answer forks ≡ some pid
    → get_elem? forks 0 ≡ some (some pid)
get_elem?-first_answer [] pid e = ground arith
get_elem?-first_answer (a ∷ later) pid e = ap some e

-- What run_fatal_cb leaves among the events: its program has run where the group names one and the fork succeeds.
abbrev pub fatal_events : ChildConfig → Option ℕ → List Event
fatal_events cc answer = elim cc.cc_fatal_cb [
  | none ↦ []
  | some program ↦ elim answer [ none ↦ [] | some pid ↦ ran_fatal_cb cc.cc_name ∷ [] ]
]

module _ (s : Server) (alive : IsAlive s) (pid p : ℕ) (pr : Process) (c : ℕ) (cc : ChildConfig)
    (status : Wait) (known : process_find_by_pid pid s ≡ some p) (there : s.processes p ≡ some pr)
    (mine : pr.p_child_config ≡ some c) (group : s.configs c ≡ some cc) where
  freed : Server
  unfolding process_remove
  freed = record (process_remove pr.p_pid s) { processes = left s alive.sound p pr there }

  one : sigchld_cb ((pid, status) ∷ []) s ≡ reap_group c cc pr.p_instance status freed
  unfolding sigchld_cb reap freed process_remove
  one = rw (sigchld_cb, known, there, reap, mine, group) refl

  own_pid : pr.p_pid ≡ pid
  unfolding process_find_by_pid
  own_pid =
      let (qr, its, here) =
        alive.sound.known pid p (sym (uvhash_find-stack s.process_hash pid) ∙ known) in
      ap (λ o. elim o [ none ↦ pid | some r ↦ r.p_pid ]) (sym there ∙ its) ∙ here

  abbrev cleared : ChildConfig
  cleared = clear_child pr.p_instance cc

  -- the server at the entry of `if (exit_is_error (ret, cc))`
  s₁ : Server
  s₁ = put_config c cleared freed

  -- What the restart finds where the group is not broken.
  record Kept (next : ChildConfig × Server) : Type 0 where
    childs : next.0.cc_childs ≡ cleared.cc_childs
    age : next.0.cc_age ≡ cleared.cc_age
    instances : next.0.cc_instances ≡ cleared.cc_instances
    status_kept : next.0.cc_status ≡ cleared.cc_status
    forks : next.1.forks ≡ s.forks
    table : next.1.process_hash ≡ uvhash_remove s.process_hash pr.p_pid
    free : next.1.next ≡ s.next
    time : next.1.now ≡ s.now

  kept :
      (exit_is_error status cleared && is_broken (count_error s.now cleared)) ≡ false
      → Kept (note_exit c cleared status s₁)
  unfolding note_exit note_error put_config s₁ freed process_remove count_error
  kept spared = elim (Bool-cases (exit_is_error status cleared)) [
    | inr fine ↦ rw fine (record {
      childs = refl;
      age = refl;
      instances = refl;
      status_kept = refl;
      forks = refl;
      table = refl;
      free = refl;
      time = refl;
    })
    | inl failed ↦
        let unbroken : is_broken (count_error s.now cleared) ≡ false = ground arith in
        rw (failed, unbroken)
          (record {
            childs = refl;
            age = refl;
            instances = refl;
            status_kept = refl;
            forks = refl;
            table = refl;
            free = refl;
            time = refl;
          })
  ]

  sized_cleared : pos (length cleared.cc_childs) ≡ cleared.cc_instances
  sized_cleared =
      rw
        (
          childs_cleared s alive.sound p pr there c mine cc group,
          instances_cleared s alive.sound p pr there c mine cc group,
          length-set cc.cc_childs pr.p_instance empty,
        )
        (alive.sound.groups c cc group).sized

  free_cleared : get_elem? cleared.cc_childs pr.p_instance ≡ some empty
  free_cleared = cleared-free s alive.sound p pr there c mine cc group

  same_error : exit_is_error status cleared ≡ exit_is_error status cc
  unfolding clear_child
  same_error = exit_is_error-cc_killsig status cleared cc (ground arith)

  same_limit : is_broken (count_error s.now cleared) ≡ is_broken (count_error s.now cc)
  unfolding clear_child is_broken count_error
  same_limit = elim (Bool-cases (lt_ℤ (pos pr.p_instance) cc.cc_instances)) [
    | inl on ↦ rw on refl
    | inr off ↦ rw off refl
  ]

  same_age : cleared.cc_age ≡ cc.cc_age
  unfolding clear_child
  same_age = ground arith

  module _ (running : cc.cc_status ≡ status_running) (new : ℕ)
      (forked : first_answer s.forks ≡ some new) where
    restarts :
        (next : ChildConfig × Server)
        → Kept next
        → restart c pr.p_instance next ≡ spawned new c next.0 pr.p_instance (fork next.1).1
    unfolding restart spawn parent fork
    restarts next k =
        let in_bounds : lt_ℤ (pos pr.p_instance) next.0.cc_instances ≡ true =
          rw (k.instances, ← sized_cleared)
            (lt→ltb _ _ (get_elem?-lt cleared.cc_childs pr.p_instance empty free_cleared)) in
        let on : eq_ℤ next.0.cc_status status_running ≡ true =
          rw (k.status_kept, status_cleared s alive.sound p pr there c mine cc group, running)
            refl in
        rw (in_bounds, on, k.forks, forked) refl

    -- the table after the restart
    listed_new :
        (j : ℕ) (next : ChildConfig × Server)
        → Kept next
        → process_find_by_pid j (spawned new c next.0 pr.p_instance (fork next.1).1) ≡ (
            if new == j
            then some s.next
            else head?
                (if pr.p_pid == j then tail (stack s.process_hash j) else stack s.process_hash j))
    unfolding spawned put_config process_insert fork process_find_by_pid
    listed_new j next k =
        let table = uvhash_remove s.process_hash pr.p_pid in
        let valid = uvhash_remove-IsValid s.process_hash pr.p_pid alive.sound.valid in
        rw
          (
            k.table,
            k.free,
            uvhash_find-stack (uvhash_insert table new s.next) j,
            stack-uvhash_insert table new j s.next valid,
            stack-uvhash_remove s.process_hash pr.p_pid j alive.sound.valid,
          )
          (ground arith)

    module _ (spared : (exit_is_error status cc && is_broken (count_error s.now cc)) ≡ false) where
      next : ChildConfig × Server
      next = note_exit c cleared status s₁

      next-Kept : Kept next
      unfolding next
      next-Kept = kept (rw (same_error, same_limit) spared)

      after : sigchld_cb ((pid, status) ∷ []) s ≡ spawned new c next.0 pr.p_instance (fork next.1).1
      unfolding reap_group s₁ next
      after = one ∙ restarts next next-Kept

      found_new : process_find_by_pid new (sigchld_cb ((pid, status) ∷ []) s) ≡ some s.next
      found_new = rw (after, listed_new new next next-Kept, ==_refl new) refl

      forgotten : process_find_by_pid pid (sigchld_cb ((pid, status) ∷ []) s) ≡ none
      forgotten =
          rw (after, listed_new pid next next-Kept)
            (let listed = (alive.sound.running p pr there).listed in
              let (unlisted, once) =
                alive.fresh 0 new (get_elem?-first_answer s.forks new forked) in
              let gone : tail (stack s.process_hash pid) ≡ [] = rw (← own_pid, listed) refl in
              let full : stack s.process_hash pid ≡ p ∷ [] = rw (← own_pid) listed in
              let other : (new == pid) ≡ false = ground (arith, (==_iff new pid).0) in
              rw (other, own_pid, ==_refl pid, gone) refl)

      process_new :
          (q : Process) × ((sigchld_cb ((pid, status) ∷ []) s).processes s.next ≡ some q)
          × (q.p_child_config ≡ some c)
          × (q.p_instance ≡ pr.p_instance)
          × (q.p_pid ≡ new)
          × (q.p_age ≡ cc.cc_age)
          × (q.p_start ≡ s.now)
      unfolding spawned put_config process_insert fork new_process
      process_new = rw after (
        new_process new c next.0 pr.p_instance next.1.now,
        ground (arith, ==_refl s.next, next-Kept.free),
        refl,
        refl,
        refl,
        next-Kept.age ∙ same_age,
        next-Kept.time,
      )

      group_new :
          (sigchld_cb ((pid, status) ∷ []) s).configs c
          ≡ some
              (record next.0 { cc_childs = set next.0.cc_childs pr.p_instance (child next.1.next) })
      unfolding spawned put_config process_insert fork
      group_new = rw after (ground (arith, ==_refl c))

      child_new : child_of (sigchld_cb ((pid, status) ∷ []) s) c pr.p_instance ≡ some (child s.next)
      child_new =
          ap (λ o. elim o [ none ↦ none | some dd ↦ get_elem? dd.cc_childs pr.p_instance ])
            group_new
          ∙ rw (next-Kept.childs, next-Kept.free)
              (get_elem?-set cleared.cc_childs pr.p_instance pr.p_instance (child s.next)
                  (get_elem?-lt cleared.cc_childs pr.p_instance empty free_cleared)
                ∙ rw (==_refl pr.p_instance) refl)

      -- In a live server a process ends, its group is running, fork gives a pid, and the exit is no
      -- error or one below the limit: then the server knows the new pid and no longer the old one, the
      -- process under the new pid belongs to the group and the instance of the old, starts now with the
      -- age of the group, and stands in the place of the old in the group.
      pub sigchld_cb-restart :
          (process_find_by_pid new (sigchld_cb ((pid, status) ∷ []) s) ≡ some s.next)
          × (process_find_by_pid pid (sigchld_cb ((pid, status) ∷ []) s) ≡ none)
          × (child_of (sigchld_cb ((pid, status) ∷ []) s) c pr.p_instance ≡ some (child s.next))
          × ((q : Process) × ((sigchld_cb ((pid, status) ∷ []) s).processes s.next ≡ some q)
              × (q.p_child_config ≡ some c)
              × (q.p_instance ≡ pr.p_instance)
              × (q.p_pid ≡ new)
              × (q.p_age ≡ cc.cc_age)
              × (q.p_start ≡ s.now))
      sigchld_cb-restart = (found_new, forgotten, child_new, process_new)

  module _ (failed : exit_is_error status cc ≡ true)
      (limit : is_broken (count_error s.now cc) ≡ true) where
    broken : ChildConfig
    broken = record (count_error s.now cleared) { cc_status = status_broken }

    told : Server
    told = emit (status_update cleared.cc_name status_broken) (put_config c broken s₁)
