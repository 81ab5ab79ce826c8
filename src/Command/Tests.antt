-- ===== src/Command/Tests.antt =====
-- Runs of the server and of its commands.
use ubervisor.Common.{
  ℕ, ◌≡◌, refl, ap, sym, inl, inr, ◌≢◌, ==_iff, Bool-cases, ◌∙◌, arith, true, false, List, [], ◌∷◌,
  ◌++◌, Option, none, some, codes, get_elem?, ◌&&◌, find_first, str_eq, remove_first, ◌==◌, All,
  tail, Str,
}
use ubervisor.Common.Int.{to_int, pos}
use ubervisor.Config.{
  ChildConfig, Slot, child, unwritten, child_config_new, status_running, child_config_unserialize,
  child_config_from_json, get, get_int, get_args, get_strings, get_element, need_name, add, add_int,
  add_age, add_args, add_strings, child_config_serialize, to_json,
}
use ubervisor.Json.Model.{
  Value, new_object, object_add, new_array, array_add, string, int, library, kind, same, member,
  text, number, elements, element,
}
use ubervisor.Uvhash.{
  uvhash_find, uvhash_insert, uvhash_new, hash_uint, hash_str, uvstrhash_find, uvstrhash_insert,
  uvstrhash_new, uvstrhash_remove,
}
use ubervisor.Server.{
  spawn, parent, fork, spawned, put_config, process_insert, Server, Process, Event, logged,
  kill_signal, exited, sigchld_cb, process_find_by_pid, new_process, exit_is_error, is_broken,
  count_error, emit, killed, replied,
}
use ubervisor.Server.Alive.{IsAlive}
use ubervisor.Server.Ends.{sigchld_cb-IsAlive}
use ubervisor.Server.Restart.{child_of, sigchld_cb-restart}
use ubervisor.Command.Delete.{dele_group-processes}
use ubervisor.Command.Orphans.{orphaned}
use ubervisor.Command.Signals.{IsSignal, kill_group-events}
use ubervisor.Command.Pids.{
  kill_group, kill_from, int_or, c_dele, dele_group, child_config_remove, freed_config, each_child,
  process_at, orphan, reply_pids, pids_from,
}
use ubervisor.Command.Updates.{c_updt-IsAlive}
use ubervisor.Command.Grow.Filled.{IsWritten}
use ubervisor.Command.Update.{
  log_age, log_if, log_instances, log_texts, log_text, c_updt, update_group, updated, notify_update,
  refusal, set_instances, set_status, set_age, set_texts, start_from, start_one, differs_int, pick,
  differs, changed, texts_changed, age_changes, xstrcmp, grow, grow_from, grow_one, modify, shrink,
  shrink_from, shrink_one,
}
use ubervisor.Command.{
  on_group, parse_object, parse_name, server_start, allocated, spawn_from, c_spwn, c_dump,
  check_instances, child_config_find_by_name, child_config_insert, created, dump_end, dump_lines,
  send_status_msg, succeeded,
}
use ubervisor.Command.Groups.{c_spwn-IsAlive}
use ubervisor.Command.Fixtures.{
  started, started-IsAlive, running, running-IsAlive, grown, first, disk, no_json, find_first_child,
  first_there, group_there, next_pid,
}

sigchld_cb-IsAlive_example :
    IsAlive (sigchld_cb ((100, exited 1) ∷ (101, exited 0) ∷ []) (running 0))
sigchld_cb-IsAlive_example =
    sigchld_cb-IsAlive ((100, exited 1) ∷ (101, exited 0) ∷ []) (running 0) (running-IsAlive 0)

-- the two children were given the addresses 1 and 2 and the first pids
find_running : process_find_by_pid 101 (running 0) ≡ some 2
unfolding process_find_by_pid uvhash_find uvhash_insert uvhash_new hash_uint find_first spawn_from
    allocated server_start spawn parent fork spawned put_config process_insert new_process
    child_config_new
find_running = refl

-- The fifth error in time: a new child.
spared :
    (exit_is_error (exited 1) (grown 4) && is_broken (count_error (running 4).now (grown 4)))
    ≡ false
unfolding process_find_by_pid uvhash_find uvhash_insert uvhash_new hash_uint find_first spawn_from
    allocated server_start spawn parent fork spawned put_config process_insert new_process
    child_config_new exit_is_error is_broken count_error
spared = refl

sigchld_cb-restart_example :
    (process_find_by_pid 102 (sigchld_cb ((100, exited 1) ∷ []) (running 4))
      ≡ some (running 4).next)
    × (process_find_by_pid 100 (sigchld_cb ((100, exited 1) ∷ []) (running 4)) ≡ none)
    × (child_of (sigchld_cb ((100, exited 1) ∷ []) (running 4)) 0 0 ≡ some (child (running 4).next))
    × ((q : Process) × ((sigchld_cb ((100, exited 1) ∷ []) (running 4)).processes (running 4).next
          ≡ some q)
        × (q.p_child_config ≡ some 0)
        × (q.p_instance ≡ 0)
        × (q.p_pid ≡ 102)
        × (q.p_age ≡ pos 0)
        × (q.p_start ≡ (running 4).now))
unfolding child_config_new
sigchld_cb-restart_example =
    sigchld_cb-restart (running 4) (running-IsAlive 4) 100 1 first 0 (grown 4) (exited 1)
      (find_first_child 4) (first_there 4) refl (group_there 4) refl 102 (next_pid 4) spared

-- A group that a client asks for.
abbrev asked : Value
asked =
    object_add
      (object_add
        (object_add (object_add new_object (codes "name") (string (codes "job")))
          (codes "instances") (int (pos 2)))
        (codes "status") (int status_running))
      (codes "args") (array_add new_array (string (codes "true")))

-- it is started
asked_runs :
    process_find_by_pid 101
      (c_spwn (library (codes "job") asked) true disk (codes "job") (started 2)).1
    ≡ some 2
unfolding kind same member text number elements element library child_config_unserialize
    child_config_from_json get get_int get_args get_strings get_element need_name add add_int
    add_age to_int add_args add_strings child_config_serialize to_json child_config_new c_spwn
    c_dump check_instances child_config_find_by_name child_config_insert created dump_end dump_lines
    send_status_msg succeeded allocated spawn_from server_start emit fork new_process parent
    process_insert put_config spawn spawned process_find_by_pid hash_str uvhash_find uvhash_insert
    uvhash_new hash_uint uvstrhash_find uvstrhash_insert uvstrhash_new str_eq find_first
asked_runs = refl

abbrev job : Server
job = (c_spwn (library (codes "job") asked) true disk (codes "job") (started 4)).1

-- the group is found no more
job_deleted :
    child_config_find_by_name
      (codes "job")
      (c_dele (library (codes "job") asked) true disk (codes "job") job).1
    ≡ none
unfolding kind same member text number elements element library child_config_unserialize
    child_config_from_json get get_int get_args get_strings get_element need_name add add_int
    add_age to_int add_args add_strings child_config_serialize to_json child_config_new c_spwn
    c_dump check_instances child_config_find_by_name child_config_insert created dump_end dump_lines
    send_status_msg succeeded allocated spawn_from server_start emit fork new_process parent
    process_insert put_config spawn spawned process_find_by_pid hash_str uvhash_find uvhash_insert
    uvhash_new hash_uint uvstrhash_find uvstrhash_insert uvstrhash_new str_eq find_first c_dele
    on_group dele_group parse_object parse_name child_config_remove freed_config each_child
    process_at orphan uvstrhash_remove reply_pids remove_first pids_from
job_deleted = refl

dele_group-processes_example :
    ((dele_group no_json false disk no_json.json_object_new_object 0 (grown 0) (running 0)).configs
        0
      ≡ none)
    × (first.p_child_config ≡ some 0
        → (dele_group no_json false disk no_json.json_object_new_object 0
              (grown 0)
              (running 0)).processes
            1
          ≡ some (orphaned first))
    × ((d : ℕ)
        → first.p_child_config ≡ some d
        → (0 == d) ≡ false
        → (dele_group no_json false disk no_json.json_object_new_object 0
              (grown 0)
              (running 0)).processes
            1
          ≡ some first)
    × ((dele_group no_json false disk no_json.json_object_new_object 0
          (grown 0)
          (running 0)).process_hash
        ≡ (running 0).process_hash)
dele_group-processes_example =
    dele_group-processes no_json false disk no_json.json_object_new_object 0 (grown 0) (running 0)
      (running-IsAlive 0) (group_there 0) 1 first (first_there 0)

kill_group-events_example :
    (sent : Str) × (new : List Event) × ((kill_group no_json false disk
        no_json.json_object_new_object 0
        (grown 0)
        (running 0)).events
      ≡ replied sent ∷ new
        ++ logged (kill_signal (grown 0).cc_name (grown 0).cc_killsig) ∷ (running 0).events)
    × All
        (IsSignal (running 0) 0 (
          int_or no_json false disk no_json.json_object_new_object
            (codes "sig")
            (grown 0).cc_killsig))
        new
kill_group-events_example =
    kill_group-events no_json false disk no_json.json_object_new_object 0 (grown 0) (running 0)
      (running-IsAlive 0) (group_there 0)

-- both children get the signal of the group
both_killed :
    tail
      (kill_group no_json false disk no_json.json_object_new_object 0 (grown 0) (running 0)).events
    ≡ killed 101 (pos 15)
      ∷ killed 100 (pos 15)
      ∷ logged (kill_signal (some (codes "web")) (pos 15))
      ∷ []
unfolding process_find_by_pid uvhash_find uvhash_insert uvhash_new hash_uint find_first spawn_from
    allocated server_start spawn parent fork spawned put_config process_insert new_process
    child_config_new kill_group kill_from int_or library member emit each_child process_at
both_killed = refl

-- Three more instances where fork gives two pids only: the last place is never written.
grown_unwritten : child_of (grow 0 2 5 (running 0)) 0 4 ≡ some unwritten
unfolding process_find_by_pid uvhash_find uvhash_insert uvhash_new hash_uint find_first spawn_from
    allocated server_start spawn parent fork spawned put_config process_insert new_process
    child_config_new grow grow_from grow_one modify
grown_unwritten = refl

abbrev ap_config : Option Process → Option (Option ℕ)
ap_config none = none
ap_config (some pr) = some pr.p_child_config

-- Down to one instance: the second process has no group any more.
shrunk : ap_config ((shrink 0 2 1 (running 0)).processes 2) ≡ some none
unfolding process_find_by_pid uvhash_find uvhash_insert uvhash_new hash_uint find_first spawn_from
    allocated server_start spawn parent fork spawned put_config process_insert new_process
    child_config_new shrink shrink_from shrink_one modify process_at orphan
shrunk = refl

-- A third instance for the group.
abbrev more : Value
more =
    object_add (object_add new_object (codes "name") (string (codes "job"))) (codes "instances")
      (int (pos 3))

-- The elements of the group after the update.
abbrev childs_of : Option ChildConfig → List Slot
childs_of none = []
childs_of (some group) = group.cc_childs

abbrev enlarged : Server
enlarged = (c_updt (library (codes "more") more) false disk (codes "more") job).1

third_child : childs_of (enlarged.configs 0) ≡ child 1 ∷ child 2 ∷ child 3 ∷ []
unfolding kind same member text number elements element library child_config_unserialize
    child_config_from_json get get_int get_args get_strings get_element need_name add add_int
    add_age to_int add_args add_strings child_config_serialize to_json child_config_new c_spwn
    c_dump check_instances child_config_find_by_name child_config_insert created dump_end dump_lines
    send_status_msg succeeded allocated spawn_from server_start emit fork new_process parent
    process_insert put_config spawn spawned process_find_by_pid hash_str uvhash_find uvhash_insert
    uvhash_new hash_uint uvstrhash_find uvstrhash_insert uvstrhash_new str_eq find_first c_dele
    on_group dele_group parse_object parse_name child_config_remove freed_config each_child
    process_at orphan uvstrhash_remove reply_pids remove_first pids_from c_updt log_age log_if
    log_instances log_texts log_text update_group updated notify_update refusal set_instances
    set_status set_age set_texts modify grow grow_from grow_one start_from start_one differs_int
    pick differs changed texts_changed age_changes xstrcmp
third_child = refl

no_other : (c : ℕ) → (0 == c) ≡ false → enlarged.configs c ≡ none
unfolding kind same member text number elements element library child_config_unserialize
    child_config_from_json get get_int get_args get_strings get_element need_name add add_int
    add_age to_int add_args add_strings child_config_serialize to_json child_config_new c_spwn
    c_dump check_instances child_config_find_by_name child_config_insert created dump_end dump_lines
    send_status_msg succeeded allocated spawn_from server_start emit fork new_process parent
    process_insert put_config spawn spawned process_find_by_pid hash_str uvhash_find uvhash_insert
    uvhash_new hash_uint uvstrhash_find uvstrhash_insert uvstrhash_new str_eq find_first c_dele
    on_group dele_group parse_object parse_name child_config_remove freed_config each_child
    process_at orphan uvstrhash_remove reply_pids remove_first pids_from c_updt log_age log_if
    log_instances log_texts log_text update_group updated notify_update refusal set_instances
    set_status set_age set_texts modify grow grow_from grow_one start_from start_one differs_int
    pick differs changed texts_changed age_changes xstrcmp
no_other c other = rw other refl

three_written : (i : ℕ) → get_elem? (child 1 ∷ child 2 ∷ child 3 ∷ []) i ≢ some unwritten
three_written i = ground arith

enlarged-IsWritten : (c : ℕ) → IsWritten c enlarged
enlarged-IsWritten c group e i bad = elim (Bool-cases (0 == c)) [
  | inl same ↦
      let at : enlarged.configs 0 ≡ some group = ap enlarged.configs ((==_iff 0 c).0 same) ∙ e in
      let its : child 1 ∷ child 2 ∷ child 3 ∷ [] ≡ group.cc_childs =
        sym third_child ∙ ap childs_of at in
      three_written i (ap (λ l. get_elem? l i) its ∙ bad)
  | inr other ↦ cc (no_other c other, e)
]

c_updt-IsAlive_example : IsAlive enlarged
c_updt-IsAlive_example =
    c_updt-IsAlive (library (codes "more") more) false disk (codes "more") job
      (c_spwn-IsAlive (library (codes "job") asked) true disk (started 4) (started-IsAlive 4)
        (codes "job"))
      enlarged-IsWritten
