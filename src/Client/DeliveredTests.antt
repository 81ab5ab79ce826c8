-- ===== src/Client/DeliveredTests.antt =====
-- A run of `uber start`, and of `update`, `get` and `subs`, against the server.
use ubervisor.Common.{
  replicate, Str, ℕ, ◌≡◌, refl, true, false, [], ◌∷◌, ◌++◌, List, some, none, arith, codes,
  find_first, str_eq,
}
use mathlib.Core.List.{map}
use ubervisor.Common.Int.{pos, to_int}
use ubervisor.Config.{
  cut_age, empty, ChildConfig, child_config_new, status_running, child_config_serialize, to_json,
  add, add_int, add_age, add_args, add_strings,
}
use ubervisor.Config.Status.{Strtol}
use ubervisor.Json.{JsonC}
use ubervisor.Json.Model.{Value, new_object, printer, printer-Documented, library}
use ubervisor.Uvhash.{hash_str, uvstrhash_find, uvstrhash_insert, uvstrhash_new}
use ubervisor.Server.{Server, emit}
use ubervisor.Command.{
  server_start, child_config_find_by_name, send_status_msg, c_list, list_names, child_config_insert,
  allocated,
}
use ubervisor.Command.Fixtures.{started, disk}
use ubervisor.Command.LogTests.{in_memory}
use ubervisor.Command.Read.{until_nul}
use ubervisor.Dispatch.{Setting}
use ubervisor.Request.{
  stop, read_cb, Sink, sock_send_command, sock_write, sock_write_len, then_write,
}
use ubervisor.Request.RoundTrip.{idle}
use ubervisor.Wire.{htons, raw16, send_message, send_loop, write_chunk, or_return, put}
use ubervisor.Wire.Tests.{memory}
use ubervisor.Client.Options.{
  Switch, start_config, start_new, options, start_option, start_arguments, update_config,
  update_option, update_arguments,
}
use ubervisor.Client.Given.{chosen, defaults, changed}
use ubervisor.Command.Fields.{fields_at, updated_fields}
use ubervisor.Command.Started.{Started}
use ubervisor.Client.Delivered.{serve, read_cb-cmd_start-Started, read_cb-cmd_update-fields}
use ubervisor.Client.Get.{Wanted, get_reply}
use ubervisor.Client.Replies.{raw, error, text, number, server_error, get_status_reply, list_reply}
use ubervisor.Client.Printed.{get_reply-serialize}
use ubervisor.Client.Lists.{list_reply-c_list}
use ubervisor.Client.Exchange.{Connection}
use ubervisor.Client.Subscribe.{notified, delivered, cmd_subscribe, cmd_subscribe-notified}
use ubervisor.Client.Status.{status_object, get_status_reply-send_status_msg}

-- A strtol that reads 3.
abbrev three : Strtol
three = record { value = λ x. pos 3; is_einval = λ x. false }

abbrev group : ChildConfig
group = record child_config_new {
  cc_command = some (codes "httpd" ∷ []);
  cc_name = some (codes "web");
  cc_stdout = some (codes "/tmp/log");
  cc_instances = pos 3;
  cc_status = status_running;
  cc_killsig = pos 15;
}

-- `uber start -o /tmp/log -i 3 web httpd`
starts :
    start_config three
      ((Switch.stdout, codes "/tmp/log") ∷ (Switch.instances, codes "3") ∷ [])
      (codes "web" ∷ codes "httpd" ∷ [])
    ≡ some group
unfolding start_config start_new options start_option start_arguments child_config_new to_int
starts = refl

abbrev value : ChildConfig → Value
value cc = to_json (library [] new_object) cc

abbrev sets : ChildConfig → Setting
sets cc = record {
  lib = printer (codes "{}") (value cc);
  files = in_memory;
  auto_dump = false;
  allow_exit = false;
  version = codes "1.0";
}

abbrev wide : Sink
wide = record { sent = []; room = 100 }

free : child_config_find_by_name (codes "web") (started 4) ≡ none
unfolding child_config_find_by_name server_start uvstrhash_find uvstrhash_new hash_str find_first
free = refl

written : (sock_send_command (codes "SPWN") (some (codes "{}")) wide).0 ≡ true
unfolding sock_send_command sock_write sock_write_len then_write htons
written = refl

abbrev forked : Server
forked = record (started 4) { forks = map some (7 ∷ 8 ∷ 9 ∷ []) ++ [] }

free_forked : child_config_find_by_name (codes "web") forked ≡ none
unfolding child_config_find_by_name server_start uvstrhash_find uvstrhash_new hash_str find_first
free_forked = refl

abbrev asked_options : List (Switch × Str)
asked_options = (Switch.stdout, codes "/tmp/log") ∷ (Switch.instances, codes "3") ∷ []

asked_group : group ≡ chosen three asked_options (defaults three (codes "web") (codes "httpd") [])
unfolding child_config_new to_int
asked_group = refl

read_cb-cmd_start-Started_example :
    (start_config three asked_options (codes "web" ∷ codes "httpd" ∷ []) ≡ some group)
    × (wire : List ℕ) × (t : Server) × ((sock_send_command
          (codes "SPWN")
          (some (codes "{}"))
          wide).1.sent
        ≡ [] ++ wire)
    × (read_cb (serve (sets group) disk 5) (idle 4 wire) forked ≡ some (stop (idle 2 []) t))
    × Started 0 0
        (7 ∷ 8 ∷ 9 ∷ [])
        (record group {
          cc_age = to_int group.cc_age;
          cc_instances = pos 3;
          cc_childs = replicate 3 empty;
        })
        (record forked { next = 1 })
        t
unfolding child_config_serialize server_start str_eq child_config_new to_json add add_args add_int
    add_age to_int add_strings
read_cb-cmd_start-Started_example =
    read_cb-cmd_start-Started (sets group) (printer-Documented (codes "{}") (value group)) disk
      three 5 asked_options (codes "web" ∷ codes "httpd" ∷ []) group (codes "web") forked wide 4
      (codes "httpd") [] (7 ∷ 8 ∷ 9 ∷ []) [] ((refl, refl, refl), ((refl, refl, refl), tt))
      asked_group refl refl refl refl refl refl free_forked (refl, refl) (unfold until_nul in refl)
      (omega arith) written

-- The server with the group.
abbrev inserted : Server
inserted =
    child_config_insert 0 (codes "web")
      (allocated (record group { cc_childs = [] }) (codes "web") (started 4))

there : child_config_find_by_name (codes "web") inserted ≡ some 0
unfolding child_config_find_by_name server_start uvstrhash_find uvstrhash_new uvstrhash_insert
    hash_str find_first child_config_insert allocated str_eq
there = refl

-- `uber update -i 3 web`
abbrev change : ChildConfig
change = record child_config_new { cc_name = some (codes "web"); cc_instances = pos 3 }

updates : update_config three ((Switch.instances, codes "3") ∷ []) (codes "web" ∷ []) ≡ some change
unfolding update_config options update_option update_arguments child_config_new to_int
updates = refl

written_update : (sock_send_command (codes "UPDT") (some (codes "{}")) wide).0 ≡ true
unfolding sock_send_command sock_write sock_write_len then_write htons
written_update = refl

-- The group as it stands in the server.
abbrev old : ChildConfig
old = record group { cc_childs = [] }

old_there : inserted.configs 0 ≡ some old
unfolding server_start child_config_insert allocated child_config_new
old_there = refl

asked_change :
    change
    ≡ changed three
        ((Switch.instances, codes "3") ∷ [])
        (record child_config_new { cc_name = some (codes "web") })
unfolding child_config_new to_int
asked_change = refl

read_cb-cmd_update-fields_example :
    (update_config three ((Switch.instances, codes "3") ∷ []) (codes "web" ∷ []) ≡ some change)
    × (wire : List ℕ) × (t : Server) × ((sock_send_command
          (codes "UPDT")
          (some (codes "{}"))
          wide).1.sent
        ≡ [] ++ wire)
    × (read_cb (serve (sets change) disk 5) (idle 4 wire) inserted ≡ some (stop (idle 2 []) t))
    × (fields_at 0 t ≡ some (updated_fields (cut_age change) old))
unfolding child_config_serialize str_eq child_config_new to_json add add_args add_int add_age to_int
    add_strings
read_cb-cmd_update-fields_example =
    read_cb-cmd_update-fields (sets change) (printer-Documented (codes "{}") (value change)) disk
      three 5 ((Switch.instances, codes "3") ∷ []) (codes "web" ∷ []) change (codes "web") inserted
      wide 4 0 old (((refl, refl, refl), refl, refl, refl, refl), tt) asked_change refl refl refl
      there old_there (refl, refl) (unfold until_nul in refl) (omega arith) written_update

abbrev wanted : Wanted
wanted = record {
  dump = false;
  get_stdout = true;
  get_stderr = false;
  get_dir = false;
  get_heartbeat = false;
  get_fatal = false;
  get_username = false;
  get_groupname = false;
  get_age = false;
  get_uid = false;
  get_gid = false;
  get_status = false;
  get_instances = true;
  get_killsig = false;
}

-- `uber get -oi web`
get_reply-serialize_example :
    get_reply (sets group).lib wanted (child_config_serialize (sets group).lib group)
    ≡ (0, text (some (codes "/tmp/log")) ∷ number (pos 3) ∷ [])
unfolding child_config_serialize str_eq child_config_new to_json add add_args add_int add_age to_int
    add_strings
get_reply-serialize_example =
    get_reply-serialize (sets group).lib (printer-Documented (codes "{}") (value group)) wanted
      group (refl, refl)

-- A status message of the server, which json-c prints as two bytes.
abbrev told : JsonC
told = printer (codes "{}") (
    status_object (printer [] new_object) (printer-Documented [] new_object) false
      (codes "name not found"))

sent_told : send_message memory [] 1 (codes "{}") ≡ some (true, 0 ∷ 2 ∷ 1 ∷ 0 ∷ 123 ∷ 125 ∷ [])
unfolding send_message send_loop write_chunk or_return htons raw16
sent_told = refl

get_status_reply-send_status_msg_example :
    (wire : List ℕ) × (0 ∷ 2 ∷ 1 ∷ 0 ∷ 123 ∷ 125 ∷ [] ≡ [] ++ wire)
    × (get_status_reply told (put (wire ++ []) [])
        ≡ some (0, server_error (some (codes "name not found")) ∷ []))
unfolding send_status_msg emit str_eq
get_status_reply-send_status_msg_example =
    get_status_reply-send_status_msg told (printer-Documented (codes "{}") _) memory []
      (0 ∷ 2 ∷ 1 ∷ 0 ∷ 123 ∷ 125 ∷ []) 1 false disk false (codes "name not found") (started 1)
      (codes "{}") [] [] refl (refl, refl) (unfold until_nul in refl) (omega arith) sent_told

-- The list of one group.
abbrev one_name : JsonC
one_name = printer (codes "[]") (Value.array_add Value.new_array (Value.string (codes "web")))

list_reply-c_list_example :
    list_reply one_name (codes "[]")
    ≡ (0, map (λ c. text (some (inserted.names c))) inserted.child_config_list)
unfolding c_list list_names emit str_eq child_config_insert allocated server_start
list_reply-c_list_example =
    list_reply-c_list one_name (printer-Documented (codes "[]") _) false disk inserted (codes "[]")
      refl refl

-- `uber subs 1` where the server answers and sends a line, and another one later.
abbrev listening : Connection
listening = record {
  out = wide;
  back =
      put (notified ((1, codes "{}") ∷ (1, codes "up") ∷ []))
        (delivered (((1, codes "down") ∷ []) ∷ []));
}

written_subs : (sock_send_command (codes "SUBS") (some (codes "{}")) wide).0 ≡ true
unfolding sock_send_command sock_write sock_write_len then_write htons
written_subs = refl

cmd_subscribe-notified_example :
    cmd_subscribe (printer (codes "{}") new_object) three 3 [] (codes "1" ∷ []) (some listening)
    ≡ some (1, raw (codes "up") ∷ raw (codes "down") ∷ error (codes "failed to read reply.") ∷ [])
cmd_subscribe-notified_example =
    cmd_subscribe-notified (printer (codes "{}") new_object) three (codes "1") listening
      (1, codes "{}") ((1, codes "up") ∷ []) (((1, codes "down") ∷ []) ∷ []) written_subs refl
      (omega arith) (omega arith)
      (
        (omega arith, omega arith, unfold until_nul in refl),
        ((omega arith, omega arith, unfold until_nul in refl), tt),
      )
