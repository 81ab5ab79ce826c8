-- ===== src/Server/Spawn.antt =====
-- spawn of cmd_server.c against the pointers of the server.
use ubervisor.Common.{
  ℕ, ◌≡◌, inl, inr, refl, false, [], ◌∷◌, some, arith, ◌==◌, ==_iff, ==_refl, if◌then◌else◌,
  Bool-cases, Option-cases, get_elem?, set, head?, length-set, get_elem?-set, get_elem?-lt,
}
use ubervisor.Config.{ChildConfig, empty, child}
use ubervisor.Uvhash.Laws.{stack, stack-uvhash_insert, uvhash_insert-IsValid}
use ubervisor.Server.{
  Process, Server, put_config, process_insert, new_process, spawned, fork, parent, spawn,
}
use ubervisor.Server.Invariant.{Owns, IsRunning, IsSound}

module _ (pid c : ℕ) (cc : ChildConfig) (inst : ℕ) (s : Server) (sound : IsSound s)
    (group : s.configs c ≡ some cc) (free : get_elem? cc.cc_childs inst ≡ some empty)
    (unlisted : stack s.process_hash pid ≡ []) where
  after : Server
  unfolding spawned put_config process_insert
  after = spawned pid c cc inst s

  new : Process
  unfolding new_process
  new = new_process pid c cc inst s.now

  grown : ChildConfig
  grown = record cc { cc_childs = set cc.cc_childs inst (child s.next) }

  stack_after :
      (j : ℕ)
      → stack after.process_hash j
        ≡ (if pid == j then s.next ∷ stack s.process_hash j else stack s.process_hash j)
  unfolding after
  stack_after j = stack-uvhash_insert s.process_hash pid j s.next sound.valid

  kept : (p : ℕ) (pr : Process) → s.processes p ≡ some pr → after.processes p ≡ some pr
  unfolding after
  kept p pr e = ground (arith, sound.unused_process p)

  new_child :
      (i : ℕ)
      → get_elem? grown.cc_childs i
        ≡ (if inst == i then some (child s.next) else get_elem? cc.cc_childs i)
  unfolding grown
  new_child i =
      get_elem?-set cc.cc_childs inst i (child s.next) (get_elem?-lt cc.cc_childs inst empty free)

  found : after.processes s.next ≡ some new
  unfolding after new
  found = ground arith

  grown-Owns : Owns after.processes c grown
  unfolding grown new
  grown-Owns =
      let old = sound.groups c cc group in
      record {
        sized = rw (length-set cc.cc_childs inst (child s.next)) old.sized;
        written = λ i. ground (arith, new_child i, old.written i);
        owned = λ i p e. elim (Bool-cases (inst == i)) [
          | inl same ↦ (new, ground (arith, new_child i, found), refl, (==_iff inst i).0 same)
          | inr other ↦
              let (pr, there, mine, here) = old.owned i p (ground (arith, new_child i)) in
              (pr, kept p pr there, mine, here)
        ];
      }

  group_after : (d : ℕ) → after.configs d ≡ (if c == d then some grown else s.configs d)
  unfolding after grown
  group_after d = refl

  process_after : (p : ℕ) → after.processes p ≡ (if s.next == p then some new else s.processes p)
  unfolding after new
  process_after p = refl

  other-Owns : (d : ℕ) (dd : ChildConfig) → s.configs d ≡ some dd → Owns after.processes d dd
  other-Owns d dd e =
      let old = sound.groups d dd e in
      record {
        sized = old.sized;
        written = old.written;
        owned = λ i p e.
            let (pr, there, mine, here) = old.owned i p e in (pr, kept p pr there, mine, here);
      }

  groups_after : (d : ℕ) (dd : ChildConfig) → after.configs d ≡ some dd → Owns after.processes d dd
  groups_after d dd e = elim (Bool-cases (c == d)) [
    | inl same ↦
        let eq : grown ≡ dd = ground (arith, group_after d) in
        let here : c ≡ d = (==_iff c d).0 same in rw (← eq, ← here) grown-Owns
    | inr other ↦ other-Owns d dd (ground (arith, group_after d))
  ]

  new-IsRunning : IsRunning after.configs after.process_hash s.next new
  unfolding new
  new-IsRunning = record {
    has_group = λ d e. (grown, ground (arith, group_after d), ground (arith, new_child inst));
    listed = rw (stack_after pid, ==_refl pid, unlisted);
  }

  other-IsRunning :
      (p : ℕ) (pr : Process)
      → s.processes p ≡ some pr
      → IsRunning after.configs after.process_hash p pr
  other-IsRunning p pr e =
      let old = sound.running p pr e in
      record {
        has_group = λ d mine.
            let (dd, there, here) = old.has_group d mine in
            elim (Bool-cases (c == d)) [
              | inl same ↦ (
                grown,
                ground (arith, group_after d),
                ground (
                  arith,
                  new_child pr.p_instance,
                  (==_iff c d).0 same,
                  (==_iff inst pr.p_instance).0,
                ),
              )
              | inr other ↦ (dd, ground (arith, group_after d), here)
            ];
        listed = ground (arith, stack_after pr.p_pid, (==_iff pid pr.p_pid).0, old.listed);
      }

  running_after :
      (p : ℕ) (pr : Process)
      → after.processes p ≡ some pr
      → IsRunning after.configs after.process_hash p pr
  running_after p pr e = elim (Bool-cases (s.next == p)) [
    | inl same ↦
        let eq : new ≡ pr = ground (arith, process_after p) in
        let here : s.next ≡ p = (==_iff s.next p).0 same in rw (← eq, ← here) new-IsRunning
    | inr other ↦ other-IsRunning p pr (ground (arith, process_after p))
  ]

  known_after :
      (j p : ℕ)
      → head? (stack after.process_hash j) ≡ some p
      → (pr : Process) × (after.processes p ≡ some pr) × (pr.p_pid ≡ j)
  unfolding new
  known_after j p e = elim (Bool-cases (pid == j)) [
    | inl same ↦ (new, ground (arith, stack_after j, found), (==_iff pid j).0 same)
    | inr other ↦
        let (pr, there, here) = sound.known j p (ground (arith, stack_after j)) in
        (pr, kept p pr there, here)
  ]

  -- A process that is started at a free instance of a group, under a pid that is not in the table,
  -- leaves the server sound.
  pub spawned-IsSound : IsSound (spawned pid c cc inst s)
  spawned-IsSound =
      unfold after in
      record {
        valid = uvhash_insert-IsValid s.process_hash pid s.next sound.valid;
        unused_config =
            λ d h. ground (arith, sound.unused_config d, sound.unused_config c, group_after d);
        unused_process = λ p h. ground (arith, sound.unused_process p, process_after p);
        groups = groups_after;
        running = running_after;
        known = known_after;
      }

-- What spawn does to the group.
pub record Spawned (c : ℕ) (cc : ChildConfig) (inst : ℕ) (s : Server) : Type 0 where
  pub after : ChildConfig
  pub there : s.configs c ≡ some after
  pub others :
      (j : ℕ) → (inst == j) ≡ false → get_elem? after.cc_childs j ≡ get_elem? cc.cc_childs j

pub spawn-Spawned :
    (s : Server) (c : ℕ) (cc : ChildConfig) (inst : ℕ)
    → s.configs c ≡ some cc
    → get_elem? cc.cc_childs inst ≡ some empty
    → Spawned c cc inst (spawn c cc inst s).1
unfolding spawn parent fork spawned put_config
spawn-Spawned s c cc inst group free = elim (Option-cases (fork s).0) [
  | inl failed ↦ rw failed (record { after = cc; there = group; others = λ j h. refl })
  | inr (pid, got) ↦ rw got (record {
    after = record cc { cc_childs = set cc.cc_childs inst (child s.next) };
    there = ground (arith, ==_refl c);
    others = λ j h. ground (
      arith,
      get_elem?-set cc.cc_childs inst j (child s.next) (get_elem?-lt cc.cc_childs inst empty free),
    );
  })
]
