-- ===== src/Command/RestoreTests.antt =====
-- A dump of one group that is loaded by a server as it starts.
use ubervisor.Common.{◌≡◌, refl, [], ◌∷◌, some, ◌++◌, replicate, codes, true, str_eq}
use ubervisor.Common.Int.{to_int, pos}
use ubervisor.Json.{JsonC}
use ubervisor.Json.Model.{
  Value, object_add, string, int, new_object, new_array, array_add, library, library-Documented,
  kind, same, elements, element,
}
use ubervisor.Config.{
  add, add_int, add_age, add_args, add_strings, ChildConfig, child_config_new, to_json,
  status_running, empty,
}
use mathlib.Core.List.{map}
use ubervisor.Server.{Server}
use ubervisor.Command.{server_start}
use ubervisor.Command.Started.{Started}
use ubervisor.Command.Subs.{Ran}
use ubervisor.Command.Fixtures.{started}
use ubervisor.Command.Read.{until_nul}
use ubervisor.Command.Load.{DumpFile, load_dump}
use ubervisor.Command.Restore.{load_dump-Started, Dumped, IsComplete}

abbrev job : ChildConfig
job = record child_config_new {
  cc_command = some (codes "true" ∷ []);
  cc_name = some (codes "job");
  cc_instances = pos 2;
  cc_status = status_running;
  cc_killsig = pos 15;
}

abbrev dumped : Dumped
dumped = record { conf = job; name = codes "job"; command = codes "true" ∷ []; number = 2 }

-- The object of the group, in the array of the dump.
abbrev job_object : Value
job_object =
    object_add
      (object_add
        (object_add
          (object_add
            (object_add
              (object_add (object_add (new_object) (codes "name") (string (codes "job")))
                (codes "instances") (int (pos 2)))
              (codes "status") (int (pos 1)))
            (codes "killsig") (int (pos 15)))
          (codes "error") (int (pos 0)))
        (codes "age") (int (pos 0)))
      (codes "args") (array_add new_array (string (codes "true")))

abbrev array : Value
array = array_add new_array job_object

-- json-c reads the text as that array.
abbrev reader : JsonC
reader = library (codes "dump") array

is_object_of_job : to_json reader job ≡ job_object
unfolding library to_json child_config_new add add_int add_age to_int add_args add_strings
is_object_of_job = refl

dumped-IsComplete : IsComplete dumped
unfolding child_config_new
dumped-IsComplete = record {
  named = refl;
  commanded = refl;
  counted = refl;
  aged = refl;
  errors = refl;
  signalled = refl;
  stated = refl;
}

first_there : reader.json_object_array_get_idx array 0 ≡ some (to_json reader job)
unfolding library element elements to_json child_config_new add add_int add_age to_int add_args
    add_strings
first_there = refl

abbrev forked : Server
forked = record (started 2) { forks = map some (7 ∷ 8 ∷ []) ++ [] }

load_dump-Started_example :
    (t : Server) × (load_dump reader (DumpFile.text (codes "dump")) forked ≡ Ran.returned true t)
    × Started 0 0
        (7 ∷ 8 ∷ [])
        (record job {
          cc_age = to_int job.cc_age;
          cc_errtime = 0;
          cc_instances = pos 2;
          cc_childs = replicate 2 empty;
        })
        (record forked { next = 1 })
        t
unfolding library kind same until_nul str_eq elements element to_json child_config_new add add_int
    add_age to_int add_args add_strings server_start
load_dump-Started_example =
    load_dump-Started reader (library-Documented (codes "dump") array) dumped (7 ∷ 8 ∷ []) [] 100
      (codes "ump") array forked dumped-IsComplete refl refl refl refl refl refl refl first_there
