-- ===== src/Dispatch/System.antt =====
-- load_dump and the callbacks of cmd_server.c as the steps of the server: accept_cb, the commands that read_cb runs,
-- error_cb, sigchld_cb and heartbeat_cb, in any order. libevent runs one of them at a time.
use ubervisor.Common.{ℕ, ◌≡◌, refl, sym, ap, Bool, true, List, Option, some, get_elem?}
use mathlib.Core.Path.{subst}
use ubervisor.Server.{Server, Wait, sigchld_cb}
use ubervisor.Server.Alive.{IsAlive}
use ubervisor.Server.Ends.{sigchld_cb-IsAlive}
use ubervisor.Server.Heartbeat.{heartbeat_cb, at_time}
use ubervisor.Server.Heartbeat.Alive.{heartbeat_cb-IsAlive}
use ubervisor.Command.{Disk, server_start}
use ubervisor.Command.Load.{DumpFile, load_dump, load_dump-IsAlive}
use ubervisor.Dispatch.Loads.{links-load_dump}
use ubervisor.Command.Groups.{server_start-IsAlive, same-IsAlive}
use ubervisor.Command.Subs.{
  state_of, Ran, has_client, add_client, add_client-IsLinked, drop_client_connection,
  drop_client_connection-IsLinked,
}
use ubervisor.Dispatch.{Handler, Setting, find_command, run_server_command}
use ubervisor.Dispatch.Links.{links, links-sigchld_cb, links-heartbeat_cb}
use ubervisor.Dispatch.Alive.{IsHealthy, AreWritten, healthy, run_server_command-IsHealthy}

-- The states that the server can reach with answers of fork that name no pid twice. An UPDT is a step
-- where it leaves no place of a group unwritten; every other command is one whatever it does.
pub data Reaches (set : Setting) : Server → Type 0 where
  starts :
      (forks : List (Option ℕ)) (now : ℕ)
      → ((i j pid : ℕ)
          → get_elem? forks i ≡ some (some pid)
          → get_elem? forks j ≡ some (some pid)
          → i ≡ j)
      → Reaches set (server_start forks now)
  accepts : (s : Server) (con : ℕ) → Reaches set s → Reaches set (add_client con s)
  hangs_up : (s : Server) (con : ℕ) → Reaches set s → Reaches set (drop_client_connection con s)
  obeys :
      (s : Server) (disk : Disk) (con cid : ℕ) (buf : List ℕ) (cr : Bool) (t : Server)
      → Reaches set s
      → has_client con s.clients ≡ true
      → run_server_command set disk con cid buf s ≡ Ran.returned cr t
      → (find_command buf ≡ some Handler.updt → AreWritten t)
      → Reaches set t
  loads :
      (s : Server) (file : DumpFile) (cr : Bool) (t : Server)
      → Reaches set s
      → load_dump set.lib file s ≡ Ran.returned cr t
      → Reaches set t
  reaps : (s : Server) (ended : List (ℕ × Wait)) → Reaches set s → Reaches set (sigchld_cb ended s)
  beats : (s : Server) (p : ℕ) → Reaches set s → Reaches set (heartbeat_cb p s)
  waits : (s : Server) (now : ℕ) → Reaches set s → Reaches set (at_time now s)

added : (s : Server) (con : ℕ) → IsAlive s → IsAlive (add_client con s)
unfolding add_client
added s con alive = same-IsAlive s _ refl alive

dropped : (s : Server) (con : ℕ) → IsAlive s → IsAlive (drop_client_connection con s)
unfolding drop_client_connection
dropped s con alive = same-IsAlive s _ refl alive

delayed : (s : Server) (later : ℕ) → IsAlive s → IsAlive (at_time later s)
unfolding at_time
delayed s later alive = same-IsAlive s _ refl alive

links-at_time : (s : Server) (later : ℕ) → links (at_time later s) ≡ links s
unfolding at_time
links-at_time s later = refl

ran :
    (set : Setting) (s : Server) (disk : Disk) (con cid : ℕ) (buf : List ℕ) (cr : Bool) (t : Server)
    → IsHealthy s
    → has_client con s.clients ≡ true
    → run_server_command set disk con cid buf s ≡ Ran.returned cr t
    → (find_command buf ≡ some Handler.updt → AreWritten t)
    → IsHealthy t
ran set s disk con cid buf cr t now there run written =
    let same : state_of (run_server_command set disk con cid buf s) ≡ t = ap state_of run in
    subst IsHealthy same (
      run_server_command-IsHealthy set disk con cid buf s now there
        (λ update. subst AreWritten (sym same) (written update)))

-- In every state that the server reaches, by any order of loaded dumps, connections, commands of
-- connected clients, ends of children, heartbeats and time, no pointer dangles: neither between groups,
-- processes and the table of pids, nor from a subscription to a connection. The answers of fork and of
-- the file system are arbitrary, but that fork gives no pid twice, and an UPDT is a step only where it
-- leaves no place of a group unwritten.
pub reaches-IsHealthy : (set : Setting) (s : Server) → Reaches set s → IsHealthy s
reaches-IsHealthy set _ (Reaches.starts forks now once) = record {
  alive = server_start-IsAlive forks now once;
  linked = unfold server_start in tt;
}
reaches-IsHealthy set _ (Reaches.accepts s con before) =
    let now = reaches-IsHealthy set s before in
    record { alive = added s con now.alive; linked = add_client-IsLinked con s now.linked }
reaches-IsHealthy set _ (Reaches.hangs_up s con before) =
    let now = reaches-IsHealthy set s before in
    record {
      alive = dropped s con now.alive;
      linked = drop_client_connection-IsLinked con s now.linked;
    }
reaches-IsHealthy set _ (Reaches.obeys s disk con cid buf cr t before there run written) =
    let now = reaches-IsHealthy set s before in
    ran set s disk con cid buf cr t now there run written
reaches-IsHealthy set _ (Reaches.loads s file cr t before run) =
    let now = reaches-IsHealthy set s before in
    subst IsHealthy (ap state_of run) (
      healthy s _ (load_dump-IsAlive set.lib file s now.alive) (links-load_dump set.lib file s) now)
reaches-IsHealthy set _ (Reaches.reaps s ended before) =
    let now = reaches-IsHealthy set s before in
    healthy s _ (sigchld_cb-IsAlive ended s now.alive) (links-sigchld_cb ended s) now
reaches-IsHealthy set _ (Reaches.beats s p before) =
    let now = reaches-IsHealthy set s before in
    healthy s _ (heartbeat_cb-IsAlive p s now.alive) (links-heartbeat_cb p s) now
reaches-IsHealthy set _ (Reaches.waits s later before) =
    let now = reaches-IsHealthy set s before in
    healthy s _ (delayed s later now.alive) (links-at_time s later) now
