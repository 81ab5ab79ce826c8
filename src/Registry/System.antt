-- ===== src/Registry/System.antt =====
-- run_server_command and the callbacks of cmd_server.c against the abstract table of the names.
use ubervisor.Common.{
  ℕ, ◌≡◌, ◌∙◌, ap, refl, inl, inr, arith, Bool, true, false, List, Option, none, some, Option-cases,
  Str, drop, get_elem?,
}
use mathlib.Core.Path.{subst}
use ubervisor.Config.{ChildConfig}
use ubervisor.Server.{Server, Wait, emit, sigchld_cb}
use ubervisor.Server.Heartbeat.{heartbeat_cb, at_time}
use ubervisor.Command.{Disk, child_config_find_by_name, server_start, c_list}
use ubervisor.Command.Read.{until_nul}
use ubervisor.Command.Subs.{
  Ran, state_of, has_client, add_client, drop_client_connection, c_helo, c_exit,
}
use ubervisor.Dispatch.{Handler, Setting, call, drop_failed, find_command, run_server_command}
use ubervisor.Dispatch.Alive.{AreWritten}
use ubervisor.Dispatch.System.{Reaches, reaches-IsHealthy}
use ubervisor.Registry.{Keeps, IsNamed, count, held}
use ubervisor.Registry.Frames.{tag, sigchld_cb-Keeps, heartbeat_cb-Keeps}
use ubervisor.Registry.Commands.{
  send_status_msg-Keeps, c_dump-Keeps, c_getc-Keeps, c_kill-Keeps, c_pids-Keeps, c_read-Keeps,
  c_subs-Keeps, c_updt-Keeps,
}
use ubervisor.Registry.Names.{Keeps-IsNamed, server_start-IsNamed}
use ubervisor.Registry.Lookup.{registered-own, registered-there, titles-there}
use ubervisor.Registry.Edits.{Outcome, Keeps-Outcome, c_spwn-Outcome, c_dele-Outcome}
use ubervisor.Server.Alive.{IsAlive}

module _ (set : Setting) (disk : Disk) where
  abbrev pub Does : Handler → Str → Server → Server → Type 0
  Does = Outcome set.lib set.auto_dump disk

  c_exit-Keeps :
      (s : Server) → Keeps s (state_of (c_exit set.lib set.auto_dump disk set.allow_exit s))
  unfolding c_exit
  c_exit-Keeps s = grind (arith, send_status_msg-Keeps, c_dump-Keeps)

  call-Does :
      (f : Handler) (con cid : ℕ) (buf : Str) (s : Server)
      → IsNamed s
      → IsAlive s
      → Does f buf s (state_of (call set disk f con cid buf s))
  unfolding call
  call-Does Handler.dele con cid buf s named alive =
      c_dele-Outcome set.lib set.auto_dump disk s buf named
  call-Does Handler.dump con cid buf s named alive =
      Keeps-Outcome set.lib set.auto_dump disk Handler.dump buf s _ named
        (c_dump-Keeps set.lib set.auto_dump disk s)
  call-Does Handler.exit con cid buf s named alive =
      Keeps-Outcome set.lib set.auto_dump disk Handler.exit buf s _ named (c_exit-Keeps s)
  call-Does Handler.getc con cid buf s named alive =
      Keeps-Outcome set.lib set.auto_dump disk Handler.getc buf s _ named
        (c_getc-Keeps set.lib set.auto_dump disk buf s)
  call-Does Handler.helo con cid buf s named alive =
      Keeps-Outcome set.lib set.auto_dump disk Handler.helo buf s _ named
        (unfold c_helo emit in (refl, omega arith))
  call-Does Handler.kill con cid buf s named alive =
      Keeps-Outcome set.lib set.auto_dump disk Handler.kill buf s _ named
        (c_kill-Keeps set.lib set.auto_dump disk buf s)
  call-Does Handler.list con cid buf s named alive =
      Keeps-Outcome set.lib set.auto_dump disk Handler.list buf s _ named
        (unfold c_list emit in (refl, omega arith))
  call-Does Handler.pids con cid buf s named alive =
      Keeps-Outcome set.lib set.auto_dump disk Handler.pids buf s _ named
        (c_pids-Keeps set.lib set.auto_dump disk buf s)
  call-Does Handler.read con cid buf s named alive =
      Keeps-Outcome set.lib set.auto_dump disk Handler.read buf s _ named
        (c_read-Keeps set.lib set.auto_dump disk set.files buf s)
  call-Does Handler.spwn con cid buf s named alive =
      c_spwn-Outcome set.lib set.auto_dump disk s buf named alive
  call-Does Handler.subs con cid buf s named alive =
      Keeps-Outcome set.lib set.auto_dump disk Handler.subs buf s _ named
        (c_subs-Keeps set.lib set.auto_dump disk con cid buf s)
  call-Does Handler.updt con cid buf s named alive =
      Keeps-Outcome set.lib set.auto_dump disk Handler.updt buf s _ named
        (c_updt-Keeps set.lib set.auto_dump disk buf s)

  -- What drop_failed adds to the outcome of a command.
  drop_failed-Does :
      (f : Handler) (con : ℕ) (buf : Str) (s : Server) (r : Ran)
      → Does f buf s (state_of r)
      → Does f buf s (state_of (drop_failed con r))
  unfolding drop_failed
  drop_failed-Does f con buf s (Ran.returned true t) done = done
  drop_failed-Does f con buf s (Ran.returned false t) done =
      unfold drop_client_connection child_config_find_by_name in done
  drop_failed-Does f con buf s (Ran.exited t) done = done

  -- A request whose first four bytes name the command `f` does to the table of the names what the command may do
  -- to the abstract table: nothing, or for SPWN the addition of the one group in its payload under a name that was free, or for DELE
  -- the removal of the one name in its payload. The names agree with the groups afterwards. This holds for every payload, whatever
  -- the answers of fork and of the file system, from every live server whose names agree with its groups.
  pub run_server_command-Step :
      (f : Handler) (con cid : ℕ) (buf : Str) (s : Server)
      → IsNamed s
      → IsAlive s
      → find_command buf ≡ some f
      → Does f (until_nul (drop 4 buf)) s (state_of (run_server_command set disk con cid buf s))
  unfolding run_server_command
  run_server_command-Step f con cid buf s named alive found =
      rw (run_server_command, found)
        (drop_failed-Does f con (until_nul (drop 4 buf)) s _
          (call-Does f con cid (until_nul (drop 4 buf)) s named alive))

  unknown-IsNamed :
      (con cid : ℕ) (buf : Str) (s : Server)
      → IsNamed s
      → find_command buf ≡ none
      → IsNamed (state_of (run_server_command set disk con cid buf s))
  unfolding run_server_command
  unknown-IsNamed con cid buf s named unknown =
      rw (run_server_command, unknown) (unfold drop_failed drop_client_connection in named)

  pub run_server_command-IsNamed :
      (con cid : ℕ) (buf : Str) (s : Server)
      → IsNamed s
      → IsAlive s
      → IsNamed (state_of (run_server_command set disk con cid buf s))
  run_server_command-IsNamed con cid buf s named alive = elim (Option-cases (find_command buf)) [
    | inl unknown ↦ unknown-IsNamed con cid buf s named unknown
    | inr (f, found) ↦ (run_server_command-Step f con cid buf s named alive found).0
  ]

-- The states that a server reaches which starts without a dump.
pub data Serves (set : Setting) : Server → Type 0 where
  starts :
      (forks : List (Option ℕ)) (now : ℕ)
      → ((i j pid : ℕ)
          → get_elem? forks i ≡ some (some pid)
          → get_elem? forks j ≡ some (some pid)
          → i ≡ j)
      → Serves set (server_start forks now)
  accepts : (s : Server) (con : ℕ) → Serves set s → Serves set (add_client con s)
  hangs_up : (s : Server) (con : ℕ) → Serves set s → Serves set (drop_client_connection con s)
  obeys :
      (s : Server) (disk : Disk) (con cid : ℕ) (buf : List ℕ) (cr : Bool) (t : Server)
      → Serves set s
      → has_client con s.clients ≡ true
      → run_server_command set disk con cid buf s ≡ Ran.returned cr t
      → (find_command buf ≡ some Handler.updt → AreWritten t)
      → Serves set t
  reaps : (s : Server) (ended : List (ℕ × Wait)) → Serves set s → Serves set (sigchld_cb ended s)
  beats : (s : Server) (p : ℕ) → Serves set s → Serves set (heartbeat_cb p s)
  waits : (s : Server) (now : ℕ) → Serves set s → Serves set (at_time now s)

Serves-Reaches : (set : Setting) (s : Server) → Serves set s → Reaches set s
Serves-Reaches set _ (Serves.starts forks now once) = Reaches.starts forks now once
Serves-Reaches set _ (Serves.accepts s con before) =
    Reaches.accepts s con (Serves-Reaches set s before)
Serves-Reaches set _ (Serves.hangs_up s con before) =
    Reaches.hangs_up s con (Serves-Reaches set s before)
Serves-Reaches set _ (Serves.obeys s disk con cid buf cr t before there run written) =
    Reaches.obeys s disk con cid buf cr t (Serves-Reaches set s before) there run written
Serves-Reaches set _ (Serves.reaps s ended before) =
    Reaches.reaps s ended (Serves-Reaches set s before)
Serves-Reaches set _ (Serves.beats s p before) = Reaches.beats s p (Serves-Reaches set s before)
Serves-Reaches set _ (Serves.waits s now before) = Reaches.waits s now (Serves-Reaches set s before)

pub Serves-IsNamed : (set : Setting) (s : Server) → Serves set s → IsNamed s
Serves-IsNamed set _ (Serves.starts forks now once) = server_start-IsNamed forks now
Serves-IsNamed set _ (Serves.accepts s con before) =
    Keeps-IsNamed s (add_client con s) (unfold add_client in (refl, omega arith))
      (Serves-IsNamed set s before)
Serves-IsNamed set _ (Serves.hangs_up s con before) =
    Keeps-IsNamed s (drop_client_connection con s)
      (unfold drop_client_connection in (refl, omega arith)) (Serves-IsNamed set s before)
Serves-IsNamed set _ (Serves.obeys s disk con cid buf cr t before there run written) =
    let now = reaches-IsHealthy set s (Serves-Reaches set s before) in
    subst IsNamed (ap state_of run)
      (run_server_command-IsNamed set disk con cid buf s (Serves-IsNamed set s before) now.alive)
Serves-IsNamed set _ (Serves.reaps s ended before) =
    Keeps-IsNamed s (sigchld_cb ended s) (sigchld_cb-Keeps ended s) (Serves-IsNamed set s before)
Serves-IsNamed set _ (Serves.beats s p before) =
    Keeps-IsNamed s (heartbeat_cb p s) (heartbeat_cb-Keeps p s) (Serves-IsNamed set s before)
Serves-IsNamed set _ (Serves.waits s now before) =
    Keeps-IsNamed s (at_time now s) (unfold at_time in (refl, omega arith))
      (Serves-IsNamed set s before)

-- In every state of a server that started without a dump, where fork never gives a pid twice and no UPDT left a place of a
-- group unwritten, a group that is there has a name, a lookup of that
-- name gives this group, and the list of the groups has it exactly once. So no two groups have one name.
pub Serves-find_by_name :
    (set : Setting) (s : Server) (c : ℕ) (cc : ChildConfig)
    → Serves set s
    → s.configs c ≡ some cc
    → (n : Str) × (cc.cc_name ≡ some n)
      × (child_config_find_by_name n s ≡ some c)
      × (count c s.child_config_list ≡ 1)
Serves-find_by_name set s c cc serves there =
    let named = Serves-IsNamed set s serves in
    let mine = registered-own s c cc named there in
    (s.names c, mine.0, mine.1, named.listed c ∙ unfold held in ap held (tag c cc s there))

-- In every state of a server that started without a dump, where fork never gives a pid twice and no UPDT left a
-- place of a group unwritten, a lookup of a name gives no pointer to a group that was freed, but a group that is there and has that name.
pub Serves-there :
    (set : Setting) (s : Server) (n : Str) (c : ℕ)
    → Serves set s
    → child_config_find_by_name n s ≡ some c
    → (cc : ChildConfig) × (s.configs c ≡ some cc) × (cc.cc_name ≡ some n)
Serves-there set s n c serves leads =
    titles-there s.configs c (some n) (registered-there s n c (Serves-IsNamed set s serves) leads).1
