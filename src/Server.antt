-- ===== src/Server.antt =====
-- The state of cmd_server.c and what starts and reaps processes. Structures that the code links by
-- pointers stand on a heap under their addresses; malloc gives an address that was not given before.
pub mod Alive
pub mod Ends
pub mod Heap
pub mod Heartbeat
pub mod Invariant
pub mod Reap
pub mod Relink
pub mod Restart
pub mod Spawn
mod Tests
use Heap.{update}
use ubervisor.Common.{
  ℕ, zero, suc, ◌+◌, ◌*◌, Bool, true, false, not, ◌&&◌, ◌||◌, List, [], ◌∷◌, ◌++◌, Option, none,
  some, ltb, ◌==◌, if◌then◌else◌, Str, length, get_elem?, set, remove_first, tail,
}
use ubervisor.Common.Int.{ℤ, pos, negsuc, eq_ℤ, lt_ℤ, suc_ℤ}
use ubervisor.Subscription.{Subscription}
use ubervisor.Config.{ChildConfig, Slot, empty, child, status_running, status_broken}
use ubervisor.Uvhash.{Uvhash, Uvstrhash, uvhash_insert, uvhash_find, uvhash_remove}

-- `struct process`: the addresses of its group (NULL is `none`) and the data of its child process.
pub record Process : Type 0 where
  pub p_pid : ℕ
  pub p_start : ℕ
  pub p_age : ℤ
  pub p_terminated : Bool
  pub p_child_config : Option ℕ
  pub p_instance : ℕ

-- What the server does to its surroundings: signals sent, the notifications to subscribers, the
-- programs that it runs beside the groups, replies handed to send_message, dump files linked.
-- A line of slog, by its format: the two of an age that is exceeded, that of a heartbeat that cannot start, of
-- c_kill, and of c_updt, for a request that it cannot parse, for a string and for a number.
pub data Message : Type 0 where
  exceeded_kill : ℕ → Message
  exceeded_signal : ℕ → Message
  heartbeat_error : Option Str → Message
  kill_signal : Option Str → ℤ → Message
  update_error : Message
  update_text : Option Str → Str → Option Str → Option Str → Message
  update_number : Option Str → Str → ℤ → ℤ → Message

pub data Event : Type 0 where
  killed : ℕ → ℤ → Event
  status_update : Option Str → ℤ → Event
  group_update : ChildConfig → Event
  ran_fatal_cb : Option Str → Event
  replied : Str → Event
  linked : Str → Event
  ran_heartbeat : Option Str → ℕ → ℕ → Event
  logged : Message → Event

-- `clients` are the connections, `forks` the answers still to come to the calls that start a process: the pid, or `none` where
-- fork, or the socketpair before it, fails. Past the end of the list they fail. `now` is what time (NULL) gives, `events` has the newest
-- event first.
pub record Server : Type 0 where
  pub configs : ℕ → Option ChildConfig
  pub processes : ℕ → Option Process
  pub next : ℕ
  pub names : ℕ → Str
  pub child_config_list : List ℕ
  pub child_config_hash : Uvstrhash ℕ
  pub process_hash : Uvhash ℕ
  pub forks : List (Option ℕ)
  pub now : ℕ
  pub clients : List ℕ
  pub subscriptions : List Subscription
  pub events : List Event

unfoldable pub emit : Event → Server → Server
emit e s = record s { events = e ∷ s.events }

-- A write through a pointer to a group.
unfoldable pub put_config : ℕ → ChildConfig → Server → Server
put_config c cc s = record s { configs = update s.configs c (some cc) }

unfoldable pub process_insert : ℕ → ℕ → Server → Server
process_insert pid p s = record s { process_hash = uvhash_insert s.process_hash pid p }

unfoldable pub process_find_by_pid : ℕ → Server → Option ℕ
process_find_by_pid pid s = uvhash_find s.process_hash pid

unfoldable pub process_remove : ℕ → Server → Server
process_remove pid s = record s { process_hash = uvhash_remove s.process_hash pid }

unfoldable pub process_find_instance : ChildConfig → ℕ → Option Slot
process_find_instance cc i = get_elem? cc.cc_childs i

-- The struct that spawn fills for a child that has been forked.
unfoldable pub new_process : ℕ → ℕ → ChildConfig → ℕ → ℕ → Process
new_process pid c cc inst now = record {
  p_pid = pid;
  p_start = now;
  p_age = cc.cc_age;
  p_terminated = false;
  p_child_config = some c;
  p_instance = inst;
}

-- The part of spawn behind a fork that succeeded, in the server.
unfoldable pub spawned : ℕ → ℕ → ChildConfig → ℕ → Server → Server
spawned pid c cc inst s =
    let p = s.next in
    let started = record s {
      processes = update s.processes p (some (new_process pid c cc inst s.now));
      next = suc p;
    } in
    put_config c (record cc { cc_childs = set cc.cc_childs inst (child p) })
      (process_insert pid p started)

abbrev pub first_answer : List (Option ℕ) → Option ℕ
first_answer [] = none
first_answer (a ∷ later) = a

-- One call that forks.
unfoldable pub fork : Server → Option ℕ × Server
fork s = (first_answer s.forks, record s { forks = tail s.forks })

unfoldable pub parent : ℕ → ChildConfig → ℕ → Option ℕ × Server → Bool × Server
parent c cc inst (none, s) = (false, s)
parent c cc inst (some pid, s) = (true, spawned pid c cc inst s)

-- `spawn (cc, instance)`: 0 where a call fails.
unfoldable pub spawn : ℕ → ChildConfig → ℕ → Server → Bool × Server
spawn c cc inst s = parent c cc inst (fork s)

-- The status that waitpid stores, as the macros of wait.h read it.
pub data Wait : Type 0 where
  exited : ℕ → Wait
  signaled : ℤ → Wait

unfoldable pub exit_is_error : Wait → ChildConfig → Bool
exit_is_error (exited code) cc = not (code == 0)
exit_is_error (signaled sig) cc = eq_ℤ sig cc.cc_killsig

abbrev pub error_max : ℕ
error_max = 6

abbrev pub error_period : ℕ
error_period = 10

-- `ERROR_MAX * n`
abbrev pub error_limit : ℤ → ℤ
error_limit (pos n) = pos (error_max * n)
error_limit (negsuc n) = negsuc (error_max * n + 5)

-- The count of an error at the time `t`, forgotten after ERROR_PERIOD seconds without one.
unfoldable pub count_error : ℕ → ChildConfig → ChildConfig
count_error t cc =
    let before = if ltb (cc.cc_errtime + error_period) t then pos 0 else cc.cc_error in
    record cc { cc_error = suc_ℤ before; cc_errtime = t }

unfoldable pub is_broken : ChildConfig → Bool
is_broken cc = not (lt_ℤ cc.cc_error (error_limit cc.cc_instances))

-- The child of run_fatal_cb, where the fork succeeds.
unfoldable pub fatal_child : Option Str → Option ℕ × Server → Server
fatal_child name (none, s) = s
fatal_child name (some pid, s) = emit (ran_fatal_cb name) s

unfoldable pub run_fatal_cb : ChildConfig → Server → Server
run_fatal_cb cc s = elim cc.cc_fatal_cb [ none ↦ s | some _ ↦ fatal_child cc.cc_name (fork s) ]

-- The body of `if (exit_is_error (ret, cc))`.
unfoldable pub note_error : ℕ → ChildConfig → Server → ChildConfig × Server
note_error c cc s =
    let counted = count_error s.now cc in
    if is_broken counted
    then (let broken = record counted { cc_status = status_broken } in
        (
          broken,
          run_fatal_cb broken
              (emit (status_update cc.cc_name status_broken) (put_config c broken s)),
        ))
    else (counted, put_config c counted s)

-- `if (inst < cc->cc_instances) cc->cc_childs[inst] = NULL;`
unfoldable pub clear_child : ℕ → ChildConfig → ChildConfig
clear_child inst cc =
    if lt_ℤ (pos inst) cc.cc_instances
    then record cc { cc_childs = set cc.cc_childs inst empty }
    else cc

-- `if (inst < cc->cc_instances && cc->cc_status == STATUS_RUNNING) spawn (cc, inst);`
unfoldable pub restart : ℕ → ℕ → ChildConfig × Server → Server
restart c inst (cc, s) =
    if lt_ℤ (pos inst) cc.cc_instances && eq_ℤ cc.cc_status status_running
    then (spawn c cc inst s).1
    else s

-- `if (exit_is_error (ret, cc)) { … }`
unfoldable pub note_exit : ℕ → ChildConfig → Wait → Server → ChildConfig × Server
note_exit c cc status s = if exit_is_error status cc then note_error c cc s else (cc, s)

-- The tail of the loop in sigchld_cb, for a process whose group is still there.
unfoldable pub reap_group : ℕ → ChildConfig → ℕ → Wait → Server → Server
reap_group c cc inst status s =
    let cleared = clear_child inst cc in
    restart c inst (note_exit c cleared status (put_config c cleared s))

-- One round of the loop in sigchld_cb for the process at the address `p`.
unfoldable pub reap : ℕ → Process → Wait → Server → Server
reap p pr status s =
    let removed = process_remove pr.p_pid s in
    let freed = record removed { processes = update removed.processes p none } in
    elim pr.p_child_config [
      | none ↦ freed
      | some c ↦ elim (freed.configs c) [
        | none ↦ freed
        | some cc ↦ reap_group c cc pr.p_instance status freed
      ]
    ]

-- sigchld_cb over what waitpid returns: the callback returns at a pid that it does not know.
unfoldable pub sigchld_cb : List (ℕ × Wait) → Server → Server
sigchld_cb [] s = s
sigchld_cb ((pid, status) ∷ rest) s = elim (process_find_by_pid pid s) [
  | none ↦ s
  | some p ↦ elim (s.processes p) [ none ↦ s | some pr ↦ sigchld_cb rest (reap p pr status s) ]
]
