-- ===== src/Registry/Tests.antt =====
-- A run of the server in which a client creates a group.
use ubervisor.Common.{
  ◌≡◌, refl, true, false, [], ◌∷◌, List, ℕ, Str, some, arith, codes, drop, find_first, str_eq,
}
use ubervisor.Common.Int.{pos}
use ubervisor.Config.{
  ChildConfig, child, child_config_new, status_running, child_config_unserialize,
  child_config_from_json, get, get_int, get_args, get_strings, get_element, need_name,
}
use ubervisor.Json.Model.{
  Value, new_object, library, object_add, string, int, new_array, array_add, kind, same, member,
  text, number, elements, element,
}
use ubervisor.Uvhash.{
  hash_str, uvhash_insert, uvhash_new, hash_uint, uvstrhash_find, uvstrhash_insert, uvstrhash_new,
}
use ubervisor.Server.{
  Server, spawn, parent, fork, spawned, put_config, process_insert, new_process, emit,
}
use ubervisor.Command.{
  server_start, c_spwn, check_instances, child_config_find_by_name, child_config_insert, created,
  send_status_msg, succeeded, allocated, spawn_from,
}
use ubervisor.Command.Fixtures.{pids, get_elem?-pids, started, started-IsAlive, disk}
use ubervisor.Command.LogTests.{in_memory}
use ubervisor.Command.Read.{until_nul}
use ubervisor.Command.Subs.{state_of, Ran, add_client, has_client}
use ubervisor.Dispatch.{
  Handler, Setting, strncmp, commands, command_compar, branch, bsearch, find_command, call,
  drop_failed, run_server_command,
}
use ubervisor.Dispatch.Alive.{AreWritten}
use ubervisor.Registry.{count}
use ubervisor.Registry.Names.{server_start-IsNamed}
use ubervisor.Registry.System.{
  Serves, Does, run_server_command-Step, Serves-find_by_name, Serves-there,
}

abbrev asked : Value
asked =
    object_add
      (object_add
        (object_add (object_add new_object (codes "name") (string (codes "job")))
          (codes "instances") (int (pos 2)))
        (codes "status") (int status_running))
      (codes "args") (array_add new_array (string (codes "true")))

abbrev set : Setting
set = record {
  lib = library (codes "job") asked;
  files = in_memory;
  auto_dump = false;
  allow_exit = false;
  version = codes "1.0";
}

abbrev request : List ℕ
request = codes "SPWNjob"

found_spwn : find_command request ≡ some Handler.spwn
unfolding find_command bsearch branch command_compar strncmp commands
found_spwn = refl

run_server_command-Step_example :
    Does set disk Handler.spwn
      (until_nul (drop 4 request))
      (started 4)
      (state_of (run_server_command set disk 5 7 request (started 4)))
run_server_command-Step_example =
    run_server_command-Step set disk Handler.spwn 5 7 request (started 4)
      (server_start-IsNamed (pids 100 4) 50) (started-IsAlive 4) found_spwn

abbrev connected : Server
connected = add_client 5 (started 4)

abbrev served : Server
served = state_of (run_server_command set disk 5 7 request connected)

comes_back : run_server_command set disk 5 7 request connected ≡ Ran.returned true served
unfolding run_server_command find_command bsearch branch command_compar strncmp commands call
    drop_failed until_nul kind same member text number elements element child_config_unserialize
    child_config_from_json get get_int get_args get_strings get_element need_name child_config_new
    c_spwn check_instances child_config_find_by_name child_config_insert created send_status_msg
    succeeded allocated spawn_from server_start emit fork new_process parent process_insert
    put_config spawn spawned hash_str uvhash_insert uvhash_new hash_uint uvstrhash_find
    uvstrhash_insert uvstrhash_new str_eq find_first add_client
comes_back = refl

is_connected : has_client 5 connected.clients ≡ true
unfolding add_client server_start
is_connected = refl

no_update : find_command request ≡ some Handler.updt → AreWritten served
unfolding find_command bsearch branch command_compar strncmp commands
no_update e = absurd (cc e)

serves : Serves set served
serves =
    Serves.obeys connected disk 5 7 request true served
      (Serves.accepts (started 4) 5 (
        Serves.starts (pids 100 4) 50 (λ i j pid e h.
          omega (arith, get_elem?-pids 100 4 i pid e, get_elem?-pids 100 4 j pid h))))
      is_connected comes_back no_update

abbrev group : ChildConfig
group = record child_config_new {
  cc_command = some (codes "true" ∷ []);
  cc_name = some (codes "job");
  cc_instances = pos 2;
  cc_status = status_running;
  cc_childs = child 1 ∷ child 2 ∷ [];
}

group_there : served.configs 0 ≡ some group
unfolding run_server_command find_command bsearch branch command_compar strncmp commands call
    drop_failed until_nul kind same member text number elements element child_config_unserialize
    child_config_from_json get get_int get_args get_strings get_element need_name child_config_new
    c_spwn check_instances child_config_find_by_name child_config_insert created send_status_msg
    succeeded allocated spawn_from server_start emit fork new_process parent process_insert
    put_config spawn spawned hash_str uvhash_insert uvhash_new hash_uint uvstrhash_find
    uvstrhash_insert uvstrhash_new str_eq find_first add_client
group_there = refl

group_found : child_config_find_by_name (codes "job") served ≡ some 0
unfolding run_server_command find_command bsearch branch command_compar strncmp commands call
    drop_failed until_nul kind same member text number elements element child_config_unserialize
    child_config_from_json get get_int get_args get_strings get_element need_name child_config_new
    c_spwn check_instances child_config_find_by_name child_config_insert created send_status_msg
    succeeded allocated spawn_from server_start emit fork new_process parent process_insert
    put_config spawn spawned hash_str uvhash_insert uvhash_new hash_uint uvstrhash_find
    uvstrhash_insert uvstrhash_new str_eq find_first add_client
group_found = refl

Serves-find_by_name_example :
    (n : Str) × (group.cc_name ≡ some n)
    × (child_config_find_by_name n served ≡ some 0)
    × (count 0 served.child_config_list ≡ 1)
Serves-find_by_name_example = Serves-find_by_name set served 0 group serves group_there

Serves-there_example :
    (cc : ChildConfig) × (served.configs 0 ≡ some cc) × (cc.cc_name ≡ some (codes "job"))
Serves-there_example = Serves-there set served (codes "job") 0 serves group_found
