-- ===== src/Client/Commands.antt =====
-- The client's commands from their arguments to their exit: cmd_start.c, cmd_update.c, cmd_kill.c,
-- cmd_delete.c, cmd_pids.c, cmd_list.c, cmd_read.c, cmd_dump.c and cmd_exit.c, and sock_send_helo of client.c.
-- What getopt_long delivers is an argument, and so is the connection that sock_connect makes.
use ubervisor.Common.{
  ℕ, Bool, true, false, List, [], ◌∷◌, Option, none, some, if◌then◌else◌, Str, codes,
}
use ubervisor.Common.Int.{ℤ, pos, minus_one, to_int}
use ubervisor.Json.{JsonC}
use ubervisor.Wire.{Reply, Socket, read_reply}
use ubervisor.Request.{sock_send_command}
use ubervisor.Command.Read.{until_nul}
use ubervisor.Config.{child_config_serialize}
use ubervisor.Config.Status.{Strtol}
use ubervisor.Client.{name_object, read_object, kill_object}
use ubervisor.Client.Options.{Switch, start_config, update_config}
use ubervisor.Client.Replies.{
  raw, Ended, fail, answer_of, status_of, get_status_reply, pids_reply, list_reply, object_reply,
  read_members,
}
use ubervisor.Client.Exchange.{Connection, exchange, exchange_on, no_server, help, print}

-- The options of cmd_kill: `-i` and `-s`, and any other.
pub data KillSwitch : Type 0 where
  index signal help_or_other : KillSwitch

-- The options of cmd_read; strtod has its `double` as the number that the program makes of it.
pub data ReadSwitch : Type 0 where
  instance_switch bytes_switch stream_switch other_switch : ReadSwitch
  offset_switch : ℤ → ReadSwitch

-- The numbers of cmd_read.
pub record ReadNumbers : Type 0 where
  pub instance : ℤ
  pub stream : ℤ
  pub bytes : ℤ
  pub off : ℤ

module _ (lib : JsonC) where
  unfoldable pub cmd_start :
      Strtol → List (Switch × Str) → List Str → Option Connection → Option Ended
  cmd_start c opts args con = elim (start_config c opts args) [
    | none ↦ some help
    | some cc ↦
        exchange (codes "SPWN") (some (child_config_serialize lib cc))
          (1, raw (codes "server running?") ∷ []) (1, raw (codes "failed to send command.") ∷ [])
          (get_status_reply lib) con
  ]

  unfoldable pub cmd_update :
      Strtol → List (Switch × Str) → List Str → Option Connection → Option Ended
  cmd_update c opts args con = elim (update_config c opts args) [
    | none ↦ some help
    | some cc ↦
        exchange (codes "UPDT") (some (child_config_serialize lib cc))
          (fail (codes "server running?")) (fail (codes "failed to send command."))
          (get_status_reply lib) con
  ]

  -- The replies with pids.
  unfoldable pub pids_of_reply : Str → Socket → Option Ended
  pids_of_reply failed sock =
      answer_of (fail (codes "Failed to parse reply.")) (pids_reply lib failed) (read_reply sock)

  -- `-i` and `-s` of cmd_kill: the index, and the signal; `none` where it prints its help.
  unfoldable pub kill_options : Strtol → List (KillSwitch × Str) → ℤ × ℤ → Option (ℤ × ℤ)
  kill_options c [] numbers = some numbers
  kill_options c ((KillSwitch.index, x) ∷ later) (idx, sig) =
      kill_options c later (to_int (c.value x), sig)
  kill_options c ((KillSwitch.signal, x) ∷ later) (idx, sig) =
      kill_options c later (idx, to_int (c.value x))
  kill_options c ((KillSwitch.help_or_other, x) ∷ later) numbers = none

  unfoldable pub kill_arguments : ℤ × ℤ → List Str → Option Connection → Option Ended
  kill_arguments (idx, sig) (name ∷ []) con =
      exchange_on (codes "KILL") (print lib (kill_object lib name sig idx))
        (pids_of_reply (codes "Command failed.")) con
  kill_arguments numbers [] con = some help
  kill_arguments numbers (name ∷ x ∷ more) con = some help

  unfoldable pub cmd_kill :
      Strtol → List (KillSwitch × Str) → List Str → Option Connection → Option Ended
  cmd_kill c opts args con = elim (kill_options c opts (minus_one, minus_one)) [
    | none ↦ some help
    | some numbers ↦ kill_arguments numbers args con
  ]

  -- `argv[1]` of cmd_delete; what follows it is not looked at.
  unfoldable pub cmd_delete : List Str → Option Connection → Option Ended
  cmd_delete [] con = some help
  cmd_delete (name ∷ more) con =
      exchange (codes "DELE") (print lib (name_object lib name)) no_server (fail (codes "write"))
        (pids_of_reply (codes "failed")) con

  unfoldable pub cmd_pids : List Str → Option Connection → Option Ended
  cmd_pids (name ∷ []) con =
      exchange_on (codes "PIDS") (print lib (name_object lib name))
        (pids_of_reply (codes "Command failed.")) con
  cmd_pids [] con = some help
  cmd_pids (name ∷ x ∷ more) con = some help

  unfoldable pub cmd_list : List Str → Option Connection → Option Ended
  cmd_list [] con =
      exchange (codes "LIST") none no_server (fail (codes "failed."))
        (λ sock.
          answer_of (fail (codes "Failed to read reply.")) (list_reply lib) (read_reply sock))
        con
  cmd_list (x ∷ more) con = some (fail (codes "takes no options."))

  unfoldable pub cmd_dump : List Str → Option Connection → Option Ended
  cmd_dump [] con =
      exchange (codes "DUMP") none no_server (fail (codes "failed.")) (get_status_reply lib) con
  cmd_dump (x ∷ more) con = some (fail (codes "takes no options."))

  unfoldable pub cmd_exit : List Str → Option Connection → Option Ended
  cmd_exit [] con =
      exchange (codes "EXIT") none no_server (fail (codes "write data")) (get_status_reply lib) con
  cmd_exit (x ∷ more) con = some (fail (codes "takes no options."))

  unfoldable pub read_options : Strtol → List (ReadSwitch × Str) → ReadNumbers → Option ReadNumbers
  read_options c [] n = some n
  read_options c ((ReadSwitch.instance_switch, x) ∷ later) n =
      read_options c later (record n { instance = to_int (c.value x) })
  read_options c ((ReadSwitch.bytes_switch, x) ∷ later) n =
      read_options c later (record n { bytes = to_int (c.value x) })
  read_options c ((ReadSwitch.stream_switch, x) ∷ later) n =
      read_options c later (record n { stream = to_int (c.value x) })
  read_options c ((ReadSwitch.offset_switch d, x) ∷ later) n =
      read_options c later (record n { off = d })
  read_options c ((ReadSwitch.other_switch, x) ∷ later) n = none

  unfoldable pub read_arguments : ReadNumbers → List Str → Option Connection → Option Ended
  read_arguments n (name ∷ []) con =
      exchange (codes "READ") (print lib (read_object lib name n.stream n.off n.bytes n.instance))
        no_server (fail (codes "failed to send command."))
        (λ sock.
          answer_of (fail (codes "failed to read reply.")) (object_reply lib (read_members lib))
            (read_reply sock))
        con
  read_arguments n [] con = some help
  read_arguments n (name ∷ x ∷ more) con = some help

  unfoldable pub cmd_read :
      Strtol → List (ReadSwitch × Str) → List Str → Option Connection → Option Ended
  cmd_read c opts args con =
      let defaults : ReadNumbers = record {
        instance = pos 0;
        stream = pos 1;
        bytes = pos 1024;
        off = minus_one;
      } in
      elim (read_options c opts defaults) [ none ↦ some help | some n ↦ read_arguments n args con ]

  -- 1, `true`, where a server answers, or else -1; what is printed is left out.
  unfoldable pub helo_answer : Option (Reply (List ℕ)) → Option Bool
  helo_answer none = none
  helo_answer (some Reply.null) = some false
  helo_answer (some (Reply.reply buf sock)) = elim (status_of lib (until_nul buf)) [
    | none ↦ some false
    | some told ↦ some true
  ]

  unfoldable pub sock_send_helo : Connection → Option Bool
  sock_send_helo con =
      if (sock_send_command (codes "HELO") none con.out).0
      then helo_answer (read_reply con.back)
      else some false
