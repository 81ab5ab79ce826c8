-- ===== src/Client/Delivered.antt =====
-- cmd_start and cmd_update from their arguments to the group in the server: sock_send_command of client.c, read_cb and
-- run_server_command of cmd_server.c between them.
use ubervisor.Common.{
  ℕ, suc, ◌+◌, ◌≤◌, ◌≡◌, refl, sym, ap, ◌∙◌, arith, ◌∷◌, Option, All, replicate, Bool, true, false,
  not, ◌&&◌, List, [], ◌++◌, none, some, Str, codes, length,
}
use ubervisor.Common.Int.{pos, minus_one, eq_ℤ, lt_ℤ, to_ℕ, to_int}
use ubervisor.Json.{Documented}
use mathlib.Core.List.{map}
use ubervisor.Config.{
  ChildConfig, cut_age, child_config_new, empty, status_running, to_json, child_config_serialize,
}
use ubervisor.Config.Status.{Strtol}
use ubervisor.Wire.{chunksiz}
use ubervisor.Request.{stop, read_cb, Sink, sock_send_command}
use ubervisor.Request.RoundTrip.{idle, read_cb-sock_send_command}
use ubervisor.Server.{Server}
use ubervisor.Command.{Disk, max_instances, child_config_find_by_name, c_spwn, created}
use ubervisor.Command.Started.{Started, created-Started}
use ubervisor.Command.Fields.{fields_at, updated_fields, update_group-fields}
use ubervisor.Command.Update.{c_updt, update_group}
use ubervisor.Command.Read.{until_nul}
use ubervisor.Command.Subs.{Ran}
use ubervisor.Dispatch.{
  Setting, strncmp, commands, command_compar, branch, bsearch, find_command, call, drop_failed,
  run_server_command,
}
use ubervisor.Client.Options.{Switch, start_config, update_config}
use ubervisor.Client.Given.{
  IsGood, chosen, defaults, start_config-chosen, IsUpdate, changed, update_config-changed,
}
use ubervisor.Client.Start.{c_spwn-start_config, c_updt-update_config}
use ubervisor.Client.Printed.{Reads}

-- The run of a request in read_cb: a command that has not come back ends the callback, as one that has
-- dropped the connection does.
abbrev pub came : Ran → Bool × Server
came (Ran.returned cr s) = (cr, s)
came (Ran.exited s) = (false, s)

unfoldable pub serve : Setting → Disk → ℕ → ℕ → List ℕ → Server → Bool × Server
serve set disk con cid buf s = came (run_server_command set disk con cid buf s)

module _ (set : Setting) (disk : Disk) (con : ℕ) (p : Str) (s t : Server)
    (text : until_nul p ≡ p) where
  serve-spwn :
      c_spwn set.lib set.auto_dump disk p s ≡ (true, t)
      → serve set disk con 1 (codes "SPWN" ++ p) s ≡ (true, t)
  unfolding serve run_server_command find_command bsearch branch command_compar strncmp commands
      call drop_failed
  serve-spwn e = rw (serve, text) (rw e refl)

  serve-updt :
      c_updt set.lib set.auto_dump disk p s ≡ (true, t)
      → serve set disk con 1 (codes "UPDT" ++ p) s ≡ (true, t)
  unfolding serve run_server_command find_command bsearch branch command_compar strncmp commands
      call drop_failed
  serve-updt e = rw (serve, text) (rw e refl)

module _ (set : Setting) (doc : Documented set.lib) (disk : Disk) (c : Strtol) (con : ℕ)
    (opts : List (Switch × Str)) (args : List Str) (cc : ChildConfig) (name : Str) (s : Server)
    (k : Sink) (low : ℕ) where
  -- The text that is sent.
  abbrev payload : Str
  payload = child_config_serialize set.lib cc

  -- What start_config makes of the options and arguments of cmd_start arrives: read_cb takes exactly that request off
  -- the connection, and c_spwn runs its last part, `created`, for this group with the age cut to 32 bits. The name must be
  -- free, the number of instances lie between 1 and the limit,
  -- the age not be -1, and the text fit a request and have no NUL byte; json-c parses what it has printed for the group.
  pub read_cb-cmd_start :
      start_config c opts args ≡ some cc
      → cc.cc_name ≡ some name
      → eq_ℤ cc.cc_age minus_one ≡ false
      → lt_ℤ cc.cc_instances (pos 1) ≡ false
      → lt_ℤ (pos max_instances) cc.cc_instances ≡ false
      → child_config_find_by_name name s ≡ none
      → Reads set.lib payload (to_json set.lib cc)
      → until_nul payload ≡ payload
      → 4 + length payload ≤ chunksiz
      → (sock_send_command (codes "SPWN") (some payload) k).0 ≡ true
      → (wire : List ℕ) × ((sock_send_command (codes "SPWN") (some payload) k).1.sent
          ≡ k.sent ++ wire)
        × (read_cb (serve set disk con) (idle low wire) s
            ≡ some (
                stop (idle 2 []) (
                  created set.lib set.auto_dump disk s.next
                    (cut_age cc)
                    name
                    (to_ℕ cc.cc_instances)
                    s)))
  read_cb-cmd_start starts named aged least most free reads text fits sent =
      read_cb-sock_send_command (serve set disk con) (codes "SPWN") (some payload) k low s _
        (omega arith) (omega arith) sent
        (serve-spwn set disk con payload s _ text (
          c_spwn-start_config set.lib doc c set.auto_dump disk opts args cc s reads aged name starts
            named free least most))

  -- `uber start` from its options to the running processes. The options are none that ends cmd_start, and the group
  -- that they ask for, field by field, is to run; its name is free in the server, its instances lie between 1 and the
  -- limit and its age is not -1; its text fits a request and has no NUL byte, and json-c parses what it has printed for it. Where
  -- fork gives a pid for each instance, the bytes that the client writes leave a server
  -- with this group, its age cut to 32 bits, and each of its instances runs under the pid that fork gave for it.
  pub read_cb-cmd_start-Started :
      (command : Str) (more : List Str) (pids : List ℕ) (rest : List (Option ℕ))
      → All (IsGood c) opts
      → cc ≡ chosen c opts (defaults c name command more)
      → cc.cc_status ≡ status_running
      → cc.cc_instances ≡ pos (length pids)
      → s.forks ≡ map some pids ++ rest
      → eq_ℤ cc.cc_age minus_one ≡ false
      → lt_ℤ cc.cc_instances (pos 1) ≡ false
      → lt_ℤ (pos max_instances) cc.cc_instances ≡ false
      → child_config_find_by_name name s ≡ none
      → Reads set.lib payload (to_json set.lib cc)
      → until_nul payload ≡ payload
      → 4 + length payload ≤ chunksiz
      → (sock_send_command (codes "SPWN") (some payload) k).0 ≡ true
      → (start_config c opts (name ∷ command ∷ more) ≡ some cc)
        × (wire : List ℕ) × (t : Server) × ((sock_send_command
              (codes "SPWN")
              (some payload)
              k).1.sent
            ≡ k.sent ++ wire)
        × (read_cb (serve set disk con) (idle low wire) s ≡ some (stop (idle 2 []) t))
        × Started s.next 0 pids
            (record cc {
              cc_age = to_int cc.cc_age;
              cc_instances = pos (length pids);
              cc_childs = replicate (length pids) empty;
            })
            (record s { next = suc s.next })
            t
  read_cb-cmd_start-Started command more pids rest good asked runs count forks aged least most free
        reads text fits sent =
      let starts : start_config c opts (name ∷ command ∷ more) ≡ some cc =
        start_config-chosen c opts name command more good ∙ ap some (sym asked) in
      let named : cc.cc_name ≡ some name = ap (λ d. d.cc_name) asked in
      let (wire, written, read) =
        read_cb-sock_send_command (serve set disk con) (codes "SPWN") (some payload) k low s _
          (omega arith) (omega arith) sent
          (serve-spwn set disk con payload s _ text (
            c_spwn-start_config set.lib doc c set.auto_dump disk opts (name ∷ command ∷ more) cc s
              reads aged name starts named free least most)) in
      let made =
        created-Started set.lib set.auto_dump disk (cut_age cc) name pids rest s runs forks in
      (
        starts,
        wire,
        created set.lib set.auto_dump disk s.next (cut_age cc) name (length pids) s,
        written,
        read
            ∙ ap
                (λ n. some (
                  stop (idle 2 [])
                    (created set.lib set.auto_dump disk s.next (cut_age cc) name n s)))
                (ap to_ℕ count),
        made,
      )

  -- What update_config makes of the options and the argument of cmd_update arrives: read_cb takes exactly that request
  -- off the connection, and c_updt runs its last part, `update_group`, for the group of that name and the changes that were
  -- sent, their age cut to 32 bits. The group must be there, the number of instances be missing or lie between 1 and the
  -- limit, the age not be -1, and
  -- the text fit a request and have no NUL byte; json-c parses what it has printed.
  pub read_cb-cmd_update :
      (g : ℕ)
      → update_config c opts args ≡ some cc
      → cc.cc_name ≡ some name
      → eq_ℤ cc.cc_age minus_one ≡ false
      → (not (eq_ℤ cc.cc_instances minus_one) && lt_ℤ cc.cc_instances (pos 1)) ≡ false
      → lt_ℤ (pos max_instances) cc.cc_instances ≡ false
      → child_config_find_by_name name s ≡ some g
      → Reads set.lib payload (to_json set.lib cc)
      → until_nul payload ≡ payload
      → 4 + length payload ≤ chunksiz
      → (sock_send_command (codes "UPDT") (some payload) k).0 ≡ true
      → (wire : List ℕ) × ((sock_send_command (codes "UPDT") (some payload) k).1.sent
          ≡ k.sent ++ wire)
        × (read_cb (serve set disk con) (idle low wire) s
            ≡ some (stop (idle 2 []) (update_group set.lib set.auto_dump disk g (cut_age cc) s)))
  read_cb-cmd_update g updates named aged least most there reads text fits sent =
      read_cb-sock_send_command (serve set disk con) (codes "UPDT") (some payload) k low s _
        (omega arith) (omega arith) sent
        (serve-updt set disk con payload s _ text (
          c_updt-update_config set.lib doc c set.auto_dump disk opts args cc s reads aged name g
            updates named there least most))

  -- `uber update` from its options to the group. The options are none that ends cmd_update, the group of the name that it is
  -- called with is in the server, the number of instances that is asked for is missing or lies between 1 and the limit, the
  -- age is not -1, and the text fits a request and has no NUL byte; json-c parses what it has printed. Then the bytes that
  -- the client writes leave a server in which the strings, the signal and the age of the group are what the last options of
  -- their switches ask for, the age cut to 32 bits, and what they were where no option asks, or where the signal is -1 or the age not above 0.
  pub read_cb-cmd_update-fields :
      (g : ℕ) (up : ChildConfig)
      → All (IsUpdate c) opts
      → cc ≡ changed c opts (record child_config_new { cc_name = some name })
      → eq_ℤ cc.cc_age minus_one ≡ false
      → (not (eq_ℤ cc.cc_instances minus_one) && lt_ℤ cc.cc_instances (pos 1)) ≡ false
      → lt_ℤ (pos max_instances) cc.cc_instances ≡ false
      → child_config_find_by_name name s ≡ some g
      → s.configs g ≡ some up
      → Reads set.lib payload (to_json set.lib cc)
      → until_nul payload ≡ payload
      → 4 + length payload ≤ chunksiz
      → (sock_send_command (codes "UPDT") (some payload) k).0 ≡ true
      → (update_config c opts (name ∷ []) ≡ some cc)
        × (wire : List ℕ) × (t : Server) × ((sock_send_command
              (codes "UPDT")
              (some payload)
              k).1.sent
            ≡ k.sent ++ wire)
        × (read_cb (serve set disk con) (idle low wire) s ≡ some (stop (idle 2 []) t))
        × (fields_at g t ≡ some (updated_fields (cut_age cc) up))
  read_cb-cmd_update-fields g up good asked aged least most there group reads text fits sent =
      let updates : update_config c opts (name ∷ []) ≡ some cc =
        update_config-changed c opts name good ∙ ap some (sym asked) in
      let named : cc.cc_name ≡ some name = ap (λ d. d.cc_name) asked in
      let (wire, written, read) =
        read_cb-sock_send_command (serve set disk con) (codes "UPDT") (some payload) k low s _
          (omega arith) (omega arith) sent
          (serve-updt set disk con payload s _ text (
            c_updt-update_config set.lib doc c set.auto_dump disk opts (name ∷ []) cc s reads aged
              name g updates named there least most)) in
      (
        updates,
        wire,
        update_group set.lib set.auto_dump disk g (cut_age cc) s,
        written,
        read,
        update_group-fields set.lib set.auto_dump disk g (cut_age cc) up s group,
      )
