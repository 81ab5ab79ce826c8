-- ===== src/Dispatch/Alive.antt =====
-- run_server_command of cmd_server.c against the pointers of the server.
use ubervisor.Common.{
  ℕ, zero, suc, ◌≡◌, ◌≢◌, refl, sym, ap, ◌∙◌, inl, inr, arith, Bool, true, false, List, Option,
  some, Bool-cases, Option-cases, Str, codes, drop, get_elem?,
}
use mathlib.Core.Path.{subst}
use ubervisor.Common.Int.{ℤ}
use ubervisor.Config.{ChildConfig, Slot, unwritten}
use ubervisor.Json.{JsonC}
use ubervisor.Server.{Server, Event, emit, logged, kill_signal}
use ubervisor.Server.Alive.{IsAlive, emit-IsAlive}
use ubervisor.Command.{Disk, c_getc, c_dump, c_list, send_status_msg}
use ubervisor.Command.Pids.{each_child, c_pids, c_kill, kill_from, kill_group}
use ubervisor.Command.Groups.{on_group-IsAlive, world-c_dump, same-IsAlive, said, c_spwn-IsAlive}
use ubervisor.Command.Delete.{c_dele-IsAlive}
use ubervisor.Command.Grow.Filled.{IsWritten}
use ubervisor.Command.Updates.{c_updt-IsAlive}
use ubervisor.Command.Log.{c_read-IsAlive}
use ubervisor.Command.Read.{until_nul}
use ubervisor.Command.Subs.{
  state_of, Ran, IsLinked, AreHeld, has_client, drop_client_connection,
  drop_client_connection-IsLinked, c_subs-IsAlive, c_subs-IsLinked, c_exit, c_helo,
}
use ubervisor.Dispatch.{Handler, Setting, call, drop_failed, find_command, run_server_command}
use ubervisor.Dispatch.Links.{links}
use ubervisor.Dispatch.CommandLinks.{
  links-send_status_msg, links-c_dump, links-c_spwn, links-c_updt, links-c_getc, links-c_pids,
  links-c_kill, links-c_dele, links-c_list, links-c_helo, links-c_read,
}

module _ (lib : JsonC) (auto_dump : Bool) (disk : Disk) where
  c_dump-IsAlive : (s : Server) → IsAlive s → IsAlive (c_dump lib auto_dump disk s).1
  c_dump-IsAlive s alive = same-IsAlive s _ (world-c_dump lib auto_dump disk s) alive

  c_getc-IsAlive :
      (buf : Str) (s : Server) → IsAlive s → IsAlive (c_getc lib auto_dump disk buf s).1
  unfolding c_getc
  c_getc-IsAlive =
      on_group-IsAlive lib auto_dump disk false _
        (λ obj c conf s alive group. emit-IsAlive s _ alive)

  c_pids-IsAlive :
      (buf : Str) (s : Server) → IsAlive s → IsAlive (c_pids lib auto_dump disk buf s).1
  unfolding c_pids
  c_pids-IsAlive =
      on_group-IsAlive lib auto_dump disk false _
        (λ obj c conf s alive group. emit-IsAlive s _ alive)

  signals-IsAlive :
      (sig : ℤ) (l : List Slot) (x n : ℕ) (s : Server)
      → IsAlive s
      → IsAlive (each_child (λ p pr t. emit (Event.killed pr.p_pid sig) t) l x n s)
  unfolding each_child
  signals-IsAlive sig l x zero s alive = alive
  signals-IsAlive sig l x (suc n) s alive =
      grind (arith, emit-IsAlive, signals-IsAlive sig l (suc x) n)

  kill_from-IsAlive :
      (l : List Slot) (x n : ℕ) (sig : ℤ) (s : Server)
      → IsAlive s
      → IsAlive (kill_from lib auto_dump disk l x n sig s)
  unfolding kill_from
  kill_from-IsAlive l x n sig s alive = emit-IsAlive _ _ (signals-IsAlive sig l x n s alive)

  kill_group-IsAlive :
      (obj : lib.Json) (c : ℕ) (conf : ChildConfig) (s : Server)
      → IsAlive s
      → IsAlive (kill_group lib auto_dump disk obj c conf s)
  unfolding kill_group
  kill_group-IsAlive obj c conf s alive =
      let told = emit-IsAlive s (logged (kill_signal conf.cc_name conf.cc_killsig)) alive in
      grind (arith, kill_from-IsAlive)

  c_kill-IsAlive :
      (buf : Str) (s : Server) → IsAlive s → IsAlive (c_kill lib auto_dump disk buf s).1
  unfolding c_kill
  c_kill-IsAlive =
      on_group-IsAlive lib auto_dump disk true _
        (λ obj c conf s alive group. kill_group-IsAlive obj c conf s alive)

-- A place of a group, where it is there, was written.
abbrev AreAllWritten : Option ChildConfig → Type 0
AreAllWritten group =
    (conf : ChildConfig) → group ≡ some conf → (i : ℕ) → get_elem? conf.cc_childs i ≢ some unwritten

-- No place of a group is memory that was not written.
abbrev pub AreWritten : Server → Type 0
AreWritten s = (c : ℕ) → IsWritten c s

-- What holds of the server between two callbacks: no pointer dangles between groups, processes and the
-- table of pids, nor from a subscription to a connection.
pub record IsHealthy (s : Server) : Type 0 where
  pub alive : IsAlive s
  pub linked : IsLinked s

relinked : (s t : Server) → links t ≡ links s → IsLinked s → IsLinked t
relinked s t same linked = subst (λ l. AreHeld l.0 l.1) (sym same) linked

pub healthy : (s t : Server) → IsAlive t → links t ≡ links s → IsHealthy s → IsHealthy t
healthy s t alive same now = record { alive = alive; linked = relinked s t same now.linked }

drop_failed-IsHealthy :
    (con : ℕ) (r : Ran) → IsHealthy (state_of r) → IsHealthy (state_of (drop_failed con r))
unfolding drop_failed
drop_failed-IsHealthy con (Ran.returned true s) now = now
drop_failed-IsHealthy con (Ran.returned false s) now = record {
  alive = unfold drop_client_connection in same-IsAlive s _ refl now.alive;
  linked = drop_client_connection-IsLinked con s now.linked;
}
drop_failed-IsHealthy con (Ran.exited s) now = now

configs-drop_failed :
    (con : ℕ) (r : Ran) → (state_of (drop_failed con r)).configs ≡ (state_of r).configs
unfolding drop_failed drop_client_connection
configs-drop_failed con (Ran.returned true s) = refl
configs-drop_failed con (Ran.returned false s) = refl
configs-drop_failed con (Ran.exited s) = refl

module _ (set : Setting) (disk : Disk) (con cid : ℕ) (buf : Str) (s : Server)
    (now : IsHealthy s) where
  told :
      (b : Bool) (code : Bool) (msg : Str) → IsHealthy (send_status_msg set.lib b disk code msg s)
  told b code msg =
      healthy s _ (said set.lib b disk s now.alive code msg)
        (links-send_status_msg set.lib b disk code msg s) now

  dumped : (b : Bool) → IsHealthy (c_dump set.lib b disk s).1
  dumped b =
      healthy s _ (c_dump-IsAlive set.lib b disk s now.alive) (links-c_dump set.lib b disk s) now

  c_exit-IsHealthy : IsHealthy (state_of (c_exit set.lib set.auto_dump disk set.allow_exit s))
  unfolding c_exit
  c_exit-IsHealthy = elim (Bool-cases set.allow_exit) [
    | inr off ↦ rw off (told _ false (codes "prohibited"))
    | inl on ↦ rw on (elim (Bool-cases set.auto_dump) [
      | inr plain ↦ rw plain (told _ true (codes "exiting"))
      | inl auto ↦ rw auto (dumped _)
    ])
  ]

  call-IsHealthy :
      (f : Handler)
      → has_client con s.clients ≡ true
      → (f ≡ Handler.updt → AreWritten (state_of (call set disk f con cid buf s)))
      → IsHealthy (state_of (call set disk f con cid buf s))
  unfolding call
  call-IsHealthy Handler.dele there written =
      healthy s _ (c_dele-IsAlive set.lib set.auto_dump disk buf s now.alive)
        (links-c_dele set.lib set.auto_dump disk buf s) now
  call-IsHealthy Handler.dump there written =
      healthy s _ (c_dump-IsAlive set.lib set.auto_dump disk s now.alive)
        (links-c_dump set.lib set.auto_dump disk s) now
  call-IsHealthy Handler.exit there written = c_exit-IsHealthy
  call-IsHealthy Handler.getc there written =
      healthy s _ (c_getc-IsAlive set.lib set.auto_dump disk buf s now.alive)
        (links-c_getc set.lib set.auto_dump disk buf s) now
  call-IsHealthy Handler.helo there written =
      healthy s _ (unfold c_helo in emit-IsAlive s _ now.alive)
        (links-c_helo set.lib set.auto_dump disk set.version s) now
  call-IsHealthy Handler.kill there written =
      healthy s _ (c_kill-IsAlive set.lib set.auto_dump disk buf s now.alive)
        (links-c_kill set.lib set.auto_dump disk buf s) now
  call-IsHealthy Handler.list there written =
      healthy s _ (unfold c_list in emit-IsAlive s _ now.alive)
        (links-c_list set.lib set.auto_dump disk s) now
  call-IsHealthy Handler.pids there written =
      healthy s _ (c_pids-IsAlive set.lib set.auto_dump disk buf s now.alive)
        (links-c_pids set.lib set.auto_dump disk buf s) now
  call-IsHealthy Handler.read there written =
      healthy s _ (c_read-IsAlive set.files set.lib set.auto_dump disk buf s now.alive)
        (links-c_read set.lib set.auto_dump disk set.files buf s) now
  call-IsHealthy Handler.spwn there written =
      healthy s _ (c_spwn-IsAlive set.lib set.auto_dump disk s now.alive buf)
        (links-c_spwn set.lib set.auto_dump disk buf s) now
  call-IsHealthy Handler.subs there written = record {
    alive = c_subs-IsAlive set.lib set.auto_dump disk con cid s buf now.alive;
    linked = c_subs-IsLinked set.lib set.auto_dump disk con cid s buf there now.linked;
  }
  call-IsHealthy Handler.updt there written =
      healthy s _ (c_updt-IsAlive set.lib set.auto_dump disk buf s now.alive (written refl))
        (links-c_updt set.lib set.auto_dump disk buf s) now

-- run_server_command leads from a healthy server to a healthy one, for every request of a client that is
-- connected, every name and every payload, and whether the connection is kept, dropped for a failure
-- or the server exits. An UPDT must leave no place of a group unwritten.
pub run_server_command-IsHealthy :
    (set : Setting) (disk : Disk) (con cid : ℕ) (buf : Str) (s : Server)
    → IsHealthy s
    → has_client con s.clients ≡ true
    → (find_command buf ≡ some Handler.updt
        → AreWritten (state_of (run_server_command set disk con cid buf s)))
    → IsHealthy (state_of (run_server_command set disk con cid buf s))
unfolding run_server_command
run_server_command-IsHealthy set disk con cid buf s now there written =
    elim (Option-cases (find_command buf)) [
      | inl unknown ↦
          rw (run_server_command, unknown) (drop_failed-IsHealthy con (Ran.returned false s) now)
      | inr (f, found) ↦
          let r = call set disk f con cid (until_nul (drop 4 buf)) s in
          let run : run_server_command set disk con cid buf s ≡ drop_failed con r =
            rw (run_server_command, found) refl in
          let kept : f ≡ Handler.updt → AreWritten (state_of r) = λ update.
            subst (λ (g : ℕ → Option ChildConfig). (c : ℕ) → AreAllWritten (g c))
              (configs-drop_failed con r)
              (subst (λ x. AreWritten (state_of x)) run (written (found ∙ ap some update))) in
          subst (λ x. IsHealthy (state_of x)) (sym run)
            (drop_failed-IsHealthy con r
              (call-IsHealthy set disk con cid (until_nul (drop 4 buf)) s now f there kept))
    ]
