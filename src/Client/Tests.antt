-- ===== src/Client/Tests.antt =====
-- A request for a log, and the options of a group.
use ubervisor.Common.{◌≡◌, refl, [], ◌∷◌, true, false, some, codes, find_first, str_eq}
use ubervisor.Common.Int.{pos, to_int}
use ubervisor.Config.{ChildConfig, child_config_new, status_running}
use ubervisor.Config.Status.{Strtol}
use ubervisor.Json.{JsonC}
use ubervisor.Json.Model.{new_object, printer, printer-Documented}
use ubervisor.Server.{Server}
use ubervisor.Uvhash.{hash_str, uvstrhash_find, uvstrhash_insert, uvstrhash_new}
use ubervisor.Command.{server_start, child_config_find_by_name, child_config_insert, allocated}
use ubervisor.Command.Fixtures.{started, disk}
use ubervisor.Command.LogTests.{in_memory}
use ubervisor.Command.Read.{read_group, c_read, out_of_bounds}
use ubervisor.Client.{read_object}
use ubervisor.Client.Given.{start_config-chosen}
use ubervisor.Client.Options.{Switch, start_config}
use ubervisor.Client.Requests.{request, c_read-read_object}

-- A json-c that parses every text as the request for 10 bytes of the log of `web`.
abbrev asking : JsonC
asking =
    printer (codes "{}")
      (read_object (printer [] new_object) (codes "web") (pos 1) (pos 0) (pos 10) (pos 0))

abbrev web : ChildConfig
web = record child_config_new {
  cc_name = some (codes "web");
  cc_stdout = some (codes "log");
  cc_instances = pos 1;
}

abbrev serving : Server
serving = child_config_insert 0 (codes "web") (allocated web (codes "web") (started 4))

web_found : child_config_find_by_name (codes "web") serving ≡ some 0
unfolding child_config_find_by_name server_start uvstrhash_find uvstrhash_new uvstrhash_insert
    hash_str find_first child_config_insert allocated str_eq
web_found = refl

web_there : serving.configs 0 ≡ some web
unfolding server_start child_config_insert allocated
web_there = refl

c_read-read_object_example : c_read in_memory asking false disk (codes "{}") serving ≡ (
  true,
  read_group in_memory asking false disk
      (request asking
        (printer-Documented (codes "{}") _)
        false
        disk
        in_memory
        (codes "web")
        (pos 1)
        (pos 0)
        (pos 10)
        (pos 0))
      web
      serving,
)
c_read-read_object_example =
    c_read-read_object asking (printer-Documented (codes "{}") _) false disk in_memory (codes "web")
      (pos 1) (pos 0) (pos 10) (pos 0) 0 web serving (unfold read_object str_eq in refl, refl)
      (unfold out_of_bounds in refl) web_found web_there

-- A strtol that reads 3.
abbrev reads_three : Strtol
reads_three = record { value = λ x. pos 3; is_einval = λ x. false }

-- `uber start -o a -e b -o c -i 3 web httpd`: the second -o is the one that counts.
start_config-chosen_example :
    start_config reads_three
      ((Switch.stdout, codes "a")
        ∷ (Switch.stderr, codes "b")
        ∷ (Switch.stdout, codes "c")
        ∷ (Switch.instances, codes "3")
        ∷ [])
      (codes "web" ∷ codes "httpd" ∷ [])
    ≡ some (record child_config_new {
      cc_name = some (codes "web");
      cc_command = some (codes "httpd" ∷ []);
      cc_stdout = some (codes "c");
      cc_stderr = some (codes "b");
      cc_instances = pos 3;
      cc_status = status_running;
      cc_killsig = pos 15;
    })
unfolding child_config_new to_int
start_config-chosen_example =
    start_config-chosen reads_three
      ((Switch.stdout, codes "a")
        ∷ (Switch.stderr, codes "b")
        ∷ (Switch.stdout, codes "c")
        ∷ (Switch.instances, codes "3")
        ∷ [])
      (codes "web") (codes "httpd") []
      ((refl, refl, refl), ((refl, refl, refl), ((refl, refl, refl), ((refl, refl, refl), tt))))
