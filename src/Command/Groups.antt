-- ===== src/Command/Groups.antt =====
-- server_start and c_spwn of cmd_server.c against the pointers of the server.
use mathlib.Core.Path.{subst}
use ubervisor.Common.{
  ℕ, zero, suc, ◌+◌, ◌≤◌, ◌<◌, ◌≡◌, inl, inr, refl, sym, ap, ◌∙◌, Bool, true, List, Option, none,
  some, arith, ltb, ◌==◌, ==_refl, if◌then◌else◌, Bool-cases, Str, codes, replicate,
  length-replicate, get_elem?-replicate, get_elem?,
}
use ubervisor.Common.Int.{pos, eq_ℤ}
use ubervisor.Config.{ChildConfig, empty, status_running, status_create}
use ubervisor.Json.{JsonC}
use ubervisor.Uvhash.Laws.{uvhash_new-IsValid, stack-uvhash_new}
use ubervisor.Uvhash.{Uvhash}
use ubervisor.Server.{Server, Process, spawn, emit, status_update}
use ubervisor.Server.Heap.{update}
use ubervisor.Server.Invariant.{Owns, Sound}
use ubervisor.Server.Alive.{IsAlive, AreFresh, spawn-IsAlive}
use ubervisor.Command.{
  on_group, Disk, server_start, allocated, spawn_from, child_config_insert, succeeded, created,
  check_instances, c_spwn, c_dump, dump_end, send_status_msg,
}
use ubervisor.Server.Spawn.{spawn-Spawned}

-- A new group with no child yet.
module _ (cc : ChildConfig) (name : Str) (s : Server) (alive : IsAlive s) (n : ℕ)
    (instances : cc.cc_instances ≡ pos n) (childs : cc.cc_childs ≡ replicate n empty) where
  child_at : (i : ℕ) → get_elem? cc.cc_childs i ≡ (if ltb i n then some empty else none)
  child_at i = rw childs (get_elem?-replicate n i empty)

  config_at :
      (d : ℕ) → update s.configs s.next (some cc) d ≡ (if s.next == d then some cc else s.configs d)
  config_at d = refl

  new-Owns : (d : ℕ) → Owns s.processes d cc
  new-Owns d = record {
    sized = rw (childs, instances, length-replicate n empty) refl;
    written = λ i. ground (arith, child_at i);
    owned = λ i p e. ground (arith, child_at i);
  }

  pub allocated-IsAlive : IsAlive (allocated cc name s)
  unfolding allocated
  allocated-IsAlive =
      let sound = alive.sound in
      record {
        sound = record {
          valid = sound.valid;
          unused_config = λ d h. ground (arith, config_at d, sound.unused_config d);
          unused_process = λ p h. ground (arith, sound.unused_process p);
          groups = λ d dd e. elim (Bool-cases (s.next == d)) [
            | inl same ↦ let eq : cc ≡ dd = ground (arith, config_at d) in rw (← eq) (new-Owns d)
            | inr other ↦ sound.groups d dd (ground (arith, config_at d))
          ];
          running = λ p pr e.
              let old = sound.running p pr e in
              record {
                has_group = λ d mine.
                    let (dd, there, here) = old.has_group d mine in
                    (dd, ground (arith, config_at d, sound.unused_config d), here);
                listed = old.listed;
              };
          known = sound.known;
        };
        fresh = alive.fresh;
      }

-- The server as it starts.
pub server_start-IsAlive :
    (forks : List (Option ℕ)) (now : ℕ)
    → ((i j pid : ℕ)
        → get_elem? forks i ≡ some (some pid)
        → get_elem? forks j ≡ some (some pid)
        → i ≡ j)
    → IsAlive (server_start forks now)
unfolding server_start
server_start-IsAlive forks now once = record {
  sound = record {
    valid = uvhash_new-IsValid 16 (omega arith);
    unused_config = λ c h. refl;
    unused_process = λ p h. refl;
    groups = λ c cc e. ground arith;
    running = λ p pr e. ground arith;
    known = λ pid p e. ground (arith, stack-uvhash_new {V = ℕ} 16 pid);
  };
  fresh = λ i pid e. (stack-uvhash_new 16 pid, λ j h. once i j pid e h);
}

pub spawn_from-IsAlive :
    (c i n : ℕ) (cc : ChildConfig) (s : Server)
    → IsAlive s
    → s.configs c ≡ some cc
    → ((j : ℕ) → i ≤ j → j < i + n → get_elem? cc.cc_childs j ≡ some empty)
    → IsAlive (spawn_from c i n s)
unfolding spawn_from
spawn_from-IsAlive c i zero cc s alive group free = alive
spawn_from-IsAlive c i (suc n) cc s alive group free =
    let here = free i (omega arith) (omega arith) in
    let done = spawn-Spawned s c cc i group here in
    rw (spawn_from, group)
      (spawn_from-IsAlive c (suc i) n done.after (spawn c cc i s).1
        (spawn-IsAlive s c cc i alive group here) done.there
        (λ j lo hi. done.others j (ground arith) ∙ free j (omega arith) (omega arith)))

-- The part of the server that processes and groups are in.
abbrev pub World : Type 0
World = (ℕ → Option ChildConfig) × (ℕ → Option Process) × ℕ × Uvhash ℕ × List (Option ℕ)

abbrev pub world : Server → World
world s = (s.configs, s.processes, s.next, s.process_hash, s.forks)

-- A server with the same groups and processes is as alive.
pub same-IsAlive : (s t : Server) → world t ≡ world s → IsAlive s → IsAlive t
same-IsAlive s t same alive =
    let moved =
      subst (λ w. Sound w.0 w.1 w.2 w.3 × AreFresh w.3 w.4) (sym same) (alive.sound, alive.fresh) in
    record { sound = moved.0; fresh = moved.1 }

module _ (lib : JsonC) (auto_dump : Bool) (disk : Disk) where
  world-send_status_msg :
      (code : Bool) (msg : Str) (s : Server)
      → world (send_status_msg lib auto_dump disk code msg s) ≡ world s
  unfolding send_status_msg emit
  world-send_status_msg code msg s = refl

  world-dump_end :
      (lines : Str) (s : Server) → world (dump_end lib auto_dump disk lines s) ≡ world s
  unfolding dump_end send_status_msg emit
  world-dump_end lines s = ground arith

  pub world-c_dump : (s : Server) → world (c_dump lib auto_dump disk s).1 ≡ world s
  unfolding c_dump send_status_msg emit
  world-c_dump s = grind (arith, world-dump_end)

  pub world-succeeded :
      (msg : Str) (s : Server) → world (succeeded lib auto_dump disk msg s) ≡ world s
  unfolding succeeded
  world-succeeded msg s = ground (arith, world-c_dump s, world-send_status_msg true msg s)

  created-IsAlive :
      (cc : ChildConfig) (name : Str) (n : ℕ) (s : Server)
      → IsAlive s
      → IsAlive (created lib auto_dump disk s.next cc name n s)
  unfolding created emit
  created-IsAlive cc name n s alive =
      let with_childs = record cc { cc_instances = pos n; cc_childs = replicate n empty } in
      let s₀ = allocated with_childs name s in
      let s₁ = child_config_insert s.next name s₀ in
      let s₂ = emit (status_update (some name) cc.cc_status) (
        emit (status_update (some name) status_create)
          (succeeded lib auto_dump disk (codes "success") s₁)) in
      let same : world s₂ ≡ world s₀ =
        world-succeeded (codes "success") s₁ ∙ unfold child_config_insert in refl in
      let alive₂ =
        same-IsAlive s₀ s₂ same (allocated-IsAlive with_childs name s alive n refl refl) in
      elim (Bool-cases (eq_ℤ cc.cc_status status_running)) [
        | inl on ↦ rw on (
            spawn_from-IsAlive s.next 0 n with_childs s₂ alive₂
              (ap (λ w. w.0 s.next) same ∙ unfold allocated in ground (arith, ==_refl s.next))
              (λ j lo hi. get_elem?-replicate n j empty ∙ ground arith))
        | inr off ↦ rw off alive₂
      ]

  module _ (s : Server) (alive : IsAlive s) where
    pub said : (code : Bool) (msg : Str) → IsAlive (send_status_msg lib auto_dump disk code msg s)
    said code msg = same-IsAlive s _ (world-send_status_msg code msg s) alive

    check_instances-IsAlive :
        (cc : ChildConfig) (name : Str) → IsAlive (check_instances lib auto_dump disk cc name s).1
    unfolding check_instances
    check_instances-IsAlive cc name = grind (arith, said, created-IsAlive)

    -- From a live server c_spwn leads to a live one, whatever it is sent, and whatever fork and the
    -- file system answer.
    pub c_spwn-IsAlive : (buf : Str) → IsAlive (c_spwn lib auto_dump disk buf s).1
    unfolding c_spwn
    c_spwn-IsAlive buf = grind (arith, said, check_instances-IsAlive)

  -- What on_group does keeps the server alive where what it does to a group does.
  pub on_group-IsAlive :
      (keep : Bool) (act : lib.Json → ℕ → ChildConfig → Server → Server)
      → ((obj : lib.Json) (c : ℕ) (cc : ChildConfig) (s : Server)
          → IsAlive s
          → s.configs c ≡ some cc
          → IsAlive (act obj c cc s))
      → (buf : Str) (s : Server) → IsAlive s
      → IsAlive (on_group lib auto_dump disk keep act buf s).1
  unfolding on_group
  on_group-IsAlive keep act acts buf s alive = grind (arith, said, acts)
