-- ===== src/Command/Started.antt =====
-- The start of the instances of a new group, spawn_from in c_spwn and load_dump of cmd_server.c.
use mathlib.Core.List.{map}
use ubervisor.Common.{
  ℕ, zero, suc, ◌+◌, ◌≤◌, ◌<◌, ◌≡◌, refl, sym, ap, ◌∙◌, arith, ==_refl, true, Bool, List, [], ◌∷◌,
  ◌++◌, Option, some, Str, codes, length, replicate, set, get_elem?, get_elem?-set, length-set,
  length-replicate,
}
use ubervisor.Common.Int.{pos, eq_ℤ}
use ubervisor.Config.{ChildConfig, Slot, empty, child, status_running, status_create}
use ubervisor.Json.{JsonC}
use ubervisor.Server.Heap.{update}
use ubervisor.Server.{
  Process, Server, spawn, spawned, parent, fork, put_config, process_insert, new_process, emit,
  status_update,
}
use ubervisor.Command.Load.{load_group}
use ubervisor.Command.Groups.{world, world-succeeded}
use ubervisor.Command.{Disk, spawn_from, created, allocated, child_config_insert, succeeded}

-- The pids that fork has given run at the places of the group from `i` on, each as a process of its own that knows its
-- group, its place and its age. The places in front of `i`, the other processes and the other fields of the
-- group are as they were.
pub record Started (c i : ℕ) (pids : List ℕ) (cc : ChildConfig) (s t : Server) : Type 0 where
  pub after : ChildConfig
  pub there : t.configs c ≡ some after
  pub same : after ≡ record cc { cc_childs = after.cc_childs }
  pub earlier : (j : ℕ) → j < i → get_elem? after.cc_childs j ≡ get_elem? cc.cc_childs j
  pub old : (p : ℕ) → p < s.next → t.processes p ≡ s.processes p
  pub children :
      (j pid : ℕ)
      → get_elem? pids j ≡ some pid
      → (q : Process) × (get_elem? after.cc_childs (i + j) ≡ some (child (s.next + j)))
        × (t.processes (s.next + j) ≡ some q)
        × (q.p_pid ≡ pid)
        × (q.p_child_config ≡ some c)
        × (q.p_instance ≡ i + j)
        × (q.p_age ≡ cc.cc_age)

-- spawn at the place `i`, where fork gives `pid`.
abbrev grown : ℕ → ChildConfig → Server → ChildConfig
grown i cc s = record cc { cc_childs = set cc.cc_childs i (child s.next) }

module _ (s : Server) (c i pid : ℕ) (cc : ChildConfig) (pids : List ℕ) (rest : List (Option ℕ))
    (forks : s.forks ≡ some pid ∷ map some pids ++ rest) where
  spawn-forks : (spawn c cc i s).1.forks ≡ map some pids ++ rest
  unfolding spawn parent fork spawned put_config process_insert
  spawn-forks = rw forks refl

  spawn-next : (spawn c cc i s).1.next ≡ suc s.next
  unfolding spawn parent fork spawned put_config process_insert
  spawn-next = rw forks refl

  spawn-configs : (spawn c cc i s).1.configs c ≡ some (grown i cc s)
  unfolding spawn parent fork spawned put_config process_insert
  spawn-configs = rw forks (ground (arith, ==_refl c))

  spawn-processes :
      (spawn c cc i s).1.processes ≡ update s.processes s.next (some (new_process pid c cc i s.now))
  unfolding spawn parent fork spawned put_config process_insert
  spawn-processes = rw forks refl

set-here :
    (xs : List Slot) (i p : ℕ) → i < length xs → get_elem? (set xs i (child p)) i ≡ some (child p)
set-here xs i p h = get_elem?-set xs i i (child p) h ∙ ground (arith, ==_refl i)

-- The first place and the places behind it.
children_from :
    (s : Server) (c i pid : ℕ) (cc : ChildConfig) (pids : List ℕ) (rest : List (Option ℕ))
    (forks : s.forks ≡ some pid ∷ map some pids ++ rest) (t : Server)
    → i < length cc.cc_childs
    → (later : Started c (suc i) pids (grown i cc s) (spawn c cc i s).1 t) → (j pid' : ℕ)
    → get_elem? (pid ∷ pids) j ≡ some pid'
    → (q : Process) × (get_elem? later.after.cc_childs (i + j) ≡ some (child (s.next + j)))
      × (t.processes (s.next + j) ≡ some q)
      × (q.p_pid ≡ pid')
      × (q.p_child_config ≡ some c)
      × (q.p_instance ≡ i + j)
      × (q.p_age ≡ cc.cc_age)
unfolding new_process
children_from s c i pid cc pids rest forks t room later zero pid' e =
    let next = spawn-next s c i pid cc pids rest forks in
    let procs = spawn-processes s c i pid cc pids rest forks in
    (
      new_process pid c cc i s.now,
      ap (get_elem? later.after.cc_childs) (omega arith)
          ∙ later.earlier i (omega arith)
          ∙ set-here cc.cc_childs i s.next room
          ∙ ap (λ p. some (child p)) (omega arith),
      ap t.processes (omega arith)
          ∙ later.old s.next (omega (arith, next))
          ∙ ap (λ f. f s.next) procs
          ∙ ground (arith, ==_refl s.next),
      ground arith,
      refl,
      omega arith,
      refl,
    )
children_from s c i pid cc pids rest forks t room later (suc j) pid' e =
    let next = spawn-next s c i pid cc pids rest forks in
    let (q, at, there, its, mine, place, age) = later.children j pid' e in
    let far : (spawn c cc i s).1.next + j ≡ s.next + suc j = omega (arith, next) in
    let down : suc i + j ≡ i + suc j = omega arith in
    (
      q,
      ap (get_elem? later.after.cc_childs) (omega arith) ∙ at ∙ ap (λ p. some (child p)) far,
      ap t.processes (omega (arith, next)) ∙ there,
      its,
      mine,
      place ∙ down,
      age,
    )

pub spawn_from-Started :
    (c i : ℕ) (pids : List ℕ) (rest : List (Option ℕ)) (cc : ChildConfig) (s : Server)
    → s.forks ≡ map some pids ++ rest
    → s.configs c ≡ some cc
    → i + length pids ≤ length cc.cc_childs
    → Started c i pids cc s (spawn_from c i (length pids) s)
unfolding spawn_from
spawn_from-Started c i [] rest cc s forks group room = record {
  after = cc;
  there = group;
  same = refl;
  earlier = λ j h. refl;
  old = λ p h. refl;
  children = λ j pid e. ground arith;
}
spawn_from-Started c i (pid ∷ pids) rest cc s forks group room =
    let t = (spawn c cc i s).1 in
    let later =
      spawn_from-Started c (suc i) pids rest (grown i cc s) t
        (spawn-forks s c i pid cc pids rest forks) (spawn-configs s c i pid cc pids rest forks)
        (omega (arith, length-set cc.cc_childs i (child s.next))) in
    let next = spawn-next s c i pid cc pids rest forks in
    let procs = spawn-processes s c i pid cc pids rest forks in
    rw (spawn_from, group)
      (record {
        after = later.after;
        there = later.there;
        same = later.same;
        earlier = λ j h.
            later.earlier j (omega arith)
            ∙ get_elem?-set cc.cc_childs i j (child s.next) (omega arith)
            ∙ ground arith;
        old = λ p h. later.old p (omega (arith, next)) ∙ ap (λ f. f p) procs ∙ ground arith;
        children =
            λ j pid' e. children_from s c i pid cc pids rest forks _ (omega arith) later j pid' e;
      })

-- Only the processes before, and the address that is next, count.
rebase :
    (c i : ℕ) (pids : List ℕ) (cc : ChildConfig) (s s' t : Server)
    → s.next ≡ s'.next
    → s.processes ≡ s'.processes
    → Started c i pids cc s t
    → Started c i pids cc s' t
rebase c i pids cc s s' t next processes one = record {
  after = one.after;
  there = one.there;
  same = one.same;
  earlier = one.earlier;
  old = λ p h. one.old p (omega (arith, next)) ∙ ap (λ f. f p) processes;
  children = λ j pid e.
      let (q, at, there, its, mine, place, age) = one.children j pid e in
      let far : s.next + j ≡ s'.next + j = omega (arith, next) in
      (
        q,
        at ∙ ap (λ p. some (child p)) far,
        ap t.processes (sym far) ∙ there,
        its,
        mine,
        place,
        age,
      );
}

module _ (lib : JsonC) (auto_dump : Bool) (disk : Disk) where
  -- What `created` makes of a group that is to run, where fork gives a pid for each instance: the group is in the
  -- server with its fields, and each of its instances runs under the pid that fork has given for it.
  pub created-Started :
      (cc : ChildConfig) (name : Str) (pids : List ℕ) (rest : List (Option ℕ)) (s : Server)
      → cc.cc_status ≡ status_running
      → s.forks ≡ map some pids ++ rest
      → Started s.next 0 pids
          (record cc {
            cc_instances = pos (length pids);
            cc_childs = replicate (length pids) empty;
          })
          (record s { next = suc s.next })
          (created lib auto_dump disk s.next cc name (length pids) s)
  unfolding created emit
  created-Started cc name pids rest s runs forks =
      let n = length pids in
      let with_childs = record cc { cc_instances = pos n; cc_childs = replicate n empty } in
      let s₀ = allocated with_childs name s in
      let s₁ = child_config_insert s.next name s₀ in
      let done = succeeded lib auto_dump disk (codes "success") s₁ in
      let s₂ =
        emit (status_update (some name) cc.cc_status)
          (emit (status_update (some name) status_create) done) in
      let same : world s₂ ≡ world s₀ =
        world-succeeded lib auto_dump disk (codes "success") s₁
        ∙ unfold child_config_insert in refl in
      let on : eq_ℤ cc.cc_status status_running ≡ true = rw runs refl in
      rw on (
        rebase s.next 0 pids with_childs s₂ (record s { next = suc s.next }) _
          (ap (λ w. w.2) same ∙ unfold allocated in refl)
          (ap (λ w. w.1) same ∙ unfold allocated in refl)
          (spawn_from-Started s.next 0 pids rest with_childs s₂
            (ap (λ w. w.4) same ∙ unfold allocated in forks)
            (ap (λ w. w.0 s.next) same ∙ unfold allocated in ground (arith, ==_refl s.next))
            (omega (arith, length-replicate n empty))))

-- The same for load_group, which load_dump runs for a group of a dump.
pub load_group-Started :
    (cc : ChildConfig) (name : Str) (pids : List ℕ) (rest : List (Option ℕ)) (s : Server)
    → cc.cc_status ≡ status_running
    → s.forks ≡ map some pids ++ rest
    → Started s.next 0 pids
        (record cc { cc_instances = pos (length pids); cc_childs = replicate (length pids) empty })
        (record s { next = suc s.next })
        (load_group cc name (length pids) s)
unfolding load_group allocated child_config_insert
load_group-Started cc name pids rest s runs forks =
    let n = length pids in
    let with_childs = record cc { cc_instances = pos n; cc_childs = replicate n empty } in
    let s₁ = child_config_insert s.next name (allocated with_childs name s) in
    let on : eq_ℤ cc.cc_status status_running ≡ true = rw runs refl in
    rw on (
      rebase s.next 0 pids with_childs s₁ (record s { next = suc s.next }) _ refl refl
        (spawn_from-Started s.next 0 pids rest with_childs s₁ forks (ground (arith, ==_refl s.next))
          (omega (arith, length-replicate n empty))))
