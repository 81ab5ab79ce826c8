-- ===== src/Server/Alive.antt =====
-- The state of the server between callbacks of cmd_server.c, and what starts a process in it.
use ubervisor.Common.{
  ℕ, suc, ◌≡◌, inl, inr, refl, sym, ap, ◌∙◌, false, List, [], ◌∷◌, Option, some, arith, ◌==◌,
  ==_iff, ==_refl, if◌then◌else◌, Bool-cases, Option-cases, get_elem?, tail,
}
use ubervisor.Config.{ChildConfig, empty}
use ubervisor.Uvhash.{Uvhash}
use ubervisor.Uvhash.Laws.{stack, stack-uvhash_insert}
use ubervisor.Server.Heap.{update}
use ubervisor.Server.{
  Server, Event, emit, put_config, spawn, fork, first_answer, parent, spawned, process_insert,
  fatal_child, run_fatal_cb,
}
use ubervisor.Server.Invariant.{IsSound}
use ubervisor.Server.Spawn.{spawned-IsSound}

-- The pids that fork is to give are not in the table and differ from each other.
abbrev pub AreFresh : Uvhash ℕ → List (Option ℕ) → Type 0
AreFresh table forks =
    (i pid : ℕ)
    → get_elem? forks i ≡ some (some pid)
    → (stack table pid ≡ []) × ((j : ℕ) → get_elem? forks j ≡ some (some pid) → i ≡ j)

-- What holds between two callbacks of the server.
pub record IsAlive (s : Server) : Type 0 where
  pub sound : IsSound s
  pub fresh : AreFresh s.process_hash s.forks

-- A write that keeps the children of a group.
module _ (s : Server) (c : ℕ) (old cc : ChildConfig) (group : s.configs c ≡ some old)
    (childs : cc.cc_childs ≡ old.cc_childs) (instances : cc.cc_instances ≡ old.cc_instances) where
  config_at : (d : ℕ) → update s.configs c (some cc) d ≡ (if c == d then some cc else s.configs d)
  config_at d = refl

  put_group :
      (d : ℕ) (dd : ChildConfig)
      → update s.configs c (some cc) d ≡ some dd
      → (ee : ChildConfig) × (s.configs d ≡ some ee)
        × (dd.cc_childs ≡ ee.cc_childs)
        × (dd.cc_instances ≡ ee.cc_instances)
  put_group d dd e = elim (Bool-cases (c == d)) [
    | inl same ↦
        let eq : cc ≡ dd = ground (arith, config_at d) in
        (old, ground (arith, (==_iff c d).0 same), rw (← eq) childs, rw (← eq) instances)
    | inr other ↦ (dd, ground (arith, config_at d), refl, refl)
  ]

  put_back :
      (d : ℕ) (ee : ChildConfig)
      → s.configs d ≡ some ee
      → (dd : ChildConfig) × (update s.configs c (some cc) d ≡ some dd)
        × (dd.cc_childs ≡ ee.cc_childs)
  put_back d ee e = elim (Bool-cases (c == d)) [
    | inl same ↦
        let eq : old ≡ ee = ground (arith, (==_iff c d).0 same) in
        (cc, ground (arith, config_at d), childs ∙ ap (λ x. x.cc_childs) eq)
    | inr other ↦ (ee, ground (arith, config_at d), refl)
  ]

  pub put_config-IsAlive : IsAlive s → IsAlive (put_config c cc s)
  unfolding put_config
  put_config-IsAlive alive =
      let sound = alive.sound in
      record {
        sound = record {
          valid = sound.valid;
          unused_config =
              λ d h. ground (arith, config_at d, sound.unused_config d, sound.unused_config c);
          unused_process = sound.unused_process;
          groups = λ d dd e.
              let (ee, before, cs, is) = put_group d dd e in
              let o = sound.groups d ee before in
              record {
                sized = rw (cs, is) o.sized;
                written = rw cs o.written;
                owned = rw cs o.owned;
              };
          running = λ p pr e.
              let o = sound.running p pr e in
              record {
                has_group = λ d mine.
                    let (ee, before, here) = o.has_group d mine in
                    let (dd, now, cs) = put_back d ee before in (dd, now, rw cs here);
                listed = o.listed;
              };
          known = sound.known;
        };
        fresh = alive.fresh;
      }

fresh-tail :
    (table : Uvhash ℕ) (forks : List (Option ℕ))
    → AreFresh table forks
    → AreFresh table (tail forks)
fresh-tail table [] fresh = fresh
fresh-tail table (a ∷ later) fresh = λ i pid e.
    let (unlisted, once) = fresh (suc i) pid e in (unlisted, λ j h. ground (arith, once (suc j) h))

-- A pid that fork gives is in no table, and is not given again.
fresh-head :
    (table : Uvhash ℕ) (forks : List (Option ℕ)) (pid : ℕ)
    → AreFresh table forks
    → first_answer forks ≡ some pid
    → (stack table pid ≡ [])
      × ((i j : ℕ) → get_elem? (tail forks) i ≡ some (some j) → (pid == j) ≡ false)
fresh-head table [] pid fresh e = ground arith
fresh-head table (a ∷ later) pid fresh e =
    let (unlisted, once) = fresh 0 pid (ap some e) in
    (
      unlisted,
      λ i j h. elim (Bool-cases (pid == j)) [
        | inl same ↦
            let here : pid ≡ j = (==_iff pid j).0 same in
            let zero_suc : 0 ≡ suc i = once (suc i) (h ∙ ap (λ x. some (some x)) (sym here)) in
            ground arith
        | inr other ↦ other
      ],
    )

pub fork-IsAlive : (s : Server) → IsAlive s → IsAlive (fork s).1
unfolding fork
fork-IsAlive s alive = record {
  sound = alive.sound;
  fresh = fresh-tail s.process_hash s.forks alive.fresh;
}

-- A child that is started in a free place.
spawned-IsAlive :
    (s : Server) (pid c : ℕ) (cc : ChildConfig) (inst : ℕ)
    → IsAlive s
    → s.configs c ≡ some cc
    → get_elem? cc.cc_childs inst ≡ some empty
    → first_answer s.forks ≡ some pid
    → IsAlive (spawned pid c cc inst (fork s).1)
unfolding fork
spawned-IsAlive s pid c cc inst alive group free e =
    let (unlisted, later) = fresh-head s.process_hash s.forks pid alive.fresh e in
    let now = (fork-IsAlive s alive).fresh in
    record {
      sound = spawned-IsSound pid c cc inst (fork s).1 alive.sound group free unlisted;
      fresh =
          unfold spawned put_config process_insert in
          λ i j h.
            let (none_yet, once) = now i j h in
            (
              rw (stack-uvhash_insert s.process_hash pid j s.next alive.sound.valid, later i j h)
                  none_yet,
              once,
            );
    }

pub spawn-IsAlive :
    (s : Server) (c : ℕ) (cc : ChildConfig) (inst : ℕ)
    → IsAlive s
    → s.configs c ≡ some cc
    → get_elem? cc.cc_childs inst ≡ some empty
    → IsAlive (spawn c cc inst s).1
unfolding spawn parent fork
spawn-IsAlive s c cc inst alive group free = elim (Option-cases (fork s).0) [
  | inl failed ↦ rw failed (fork-IsAlive s alive)
  | inr (pid, got) ↦ rw got (spawned-IsAlive s pid c cc inst alive group free got)
]

pub run_fatal_cb-IsAlive : (s : Server) (cc : ChildConfig) → IsAlive s → IsAlive (run_fatal_cb cc s)
unfolding run_fatal_cb fatal_child emit
run_fatal_cb-IsAlive s cc alive = elim (Option-cases cc.cc_fatal_cb) [
  | inl unset ↦ rw unset alive
  | inr (program, set_to) ↦ rw set_to (elim (Option-cases (fork s).0) [
    | inl failed ↦ rw failed (fork-IsAlive s alive)
    | inr (pid, got) ↦
        rw got (let now = fork-IsAlive s alive in record { sound = now.sound; fresh = now.fresh })
  ])
]

-- run_fatal_cb changes no group.
pub configs-run_fatal_cb : (s : Server) (cc : ChildConfig) → (run_fatal_cb cc s).configs ≡ s.configs
unfolding run_fatal_cb fatal_child emit fork
configs-run_fatal_cb s cc = ground arith

pub emit-IsAlive : (s : Server) (e : Event) → IsAlive s → IsAlive (emit e s)
unfolding emit
emit-IsAlive s e alive = record { sound = alive.sound; fresh = alive.fresh }

pub configs-put_config :
    (c : ℕ) (cc : ChildConfig) (s : Server) → (put_config c cc s).configs c ≡ some cc
unfolding put_config
configs-put_config c cc s = ground (arith, ==_refl c)
