-- ===== src/Dispatch/Tests.antt =====
-- A run of the server: a client connects and asks for its version, a child ends, the client goes.
use ubervisor.Common.{◌≡◌, refl, true, false, [], ◌∷◌, some, arith, codes, take}
use ubervisor.Json.Model.{new_object, library}
use ubervisor.Server.{Server, exited, sigchld_cb}
use ubervisor.Server.Heartbeat.{heartbeat_cb}
use ubervisor.Command.{server_start}
use ubervisor.Command.Fixtures.{pids, get_elem?-pids, disk}
use ubervisor.Command.LogTests.{in_memory}
use ubervisor.Command.Subs.{state_of, Ran, add_client, drop_client_connection, has_client, c_helo}
use ubervisor.Dispatch.{
  Handler, Setting, strncmp, commands, command_compar, branch, bsearch, find_command, call,
  drop_failed, run_server_command,
}
use ubervisor.Dispatch.Lookup.{lookup, find_command-lookup}
use ubervisor.Dispatch.Alive.{IsHealthy, AreWritten}
use ubervisor.Dispatch.System.{Reaches, reaches-IsHealthy}

abbrev set : Setting
set = record {
  lib = library [] new_object;
  files = in_memory;
  auto_dump = false;
  allow_exit = false;
  version = codes "1.0";
}

abbrev connected : Server
connected = add_client 5 (server_start (pids 100 2) 50)

abbrev answered : Server
answered = state_of (run_server_command set disk 5 7 (codes "HELO") connected)

found_helo : find_command (codes "HELO") ≡ some Handler.helo
unfolding find_command bsearch branch command_compar strncmp commands
found_helo = refl

find_command-lookup_example :
    find_command (codes "HELO{}") ≡ lookup (take 4 (codes "HELO{}")) commands
find_command-lookup_example =
    find_command-lookup (codes "HELO{}")
      (omega arith, (omega arith, (omega arith, (omega arith, (omega arith, (omega arith, tt))))))
      (omega arith)

comes_back : run_server_command set disk 5 7 (codes "HELO") connected ≡ Ran.returned true answered
unfolding run_server_command find_command bsearch branch command_compar strncmp commands call
    drop_failed c_helo
comes_back = refl

is_connected : has_client 5 connected.clients ≡ true
unfolding add_client server_start
is_connected = refl

no_update : find_command (codes "HELO") ≡ some Handler.updt → AreWritten answered
unfolding find_command bsearch branch command_compar strncmp commands
no_update e = absurd (cc e)

reached :
    Reaches set
      (drop_client_connection 5 (heartbeat_cb 3 (sigchld_cb ((100, exited 1) ∷ []) answered)))
reached = Reaches.hangs_up _ 5 (
    Reaches.beats _ 3 (
      Reaches.reaps _ ((100, exited 1) ∷ []) (
        Reaches.obeys connected disk 5 7 (codes "HELO") true answered
          (Reaches.accepts _ 5 (
            Reaches.starts (pids 100 2) 50 (λ i j pid e h.
              omega (arith, get_elem?-pids 100 2 i pid e, get_elem?-pids 100 2 j pid h))))
          is_connected comes_back no_update)))

reaches-IsHealthy_example :
    IsHealthy
      (drop_client_connection 5 (heartbeat_cb 3 (sigchld_cb ((100, exited 1) ∷ []) answered)))
reaches-IsHealthy_example =
    reaches-IsHealthy set
      (drop_client_connection 5 (heartbeat_cb 3 (sigchld_cb ((100, exited 1) ∷ []) answered)))
      reached
