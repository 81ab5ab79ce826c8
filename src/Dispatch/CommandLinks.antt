-- ===== src/Dispatch/CommandLinks.antt =====
-- The commands of cmd_server.c and the connections: only c_subs, and a failure, change what is linked.
use ubervisor.Common.{ℕ, ◌≡◌, refl, arith, Bool, true, false, List, Str}
use ubervisor.Common.Int.{ℤ}
use ubervisor.Config.{ChildConfig, Slot}
use ubervisor.Json.{JsonC}
use ubervisor.Server.{Server, emit}
use ubervisor.Command.{
  Disk, allocated, child_config_insert, send_status_msg, dump_end, c_dump, succeeded, created,
  check_instances, c_spwn, c_list, on_group, c_getc,
}
use ubervisor.Command.Pids.{
  child_config_remove, freed_config, c_pids, kill_from, kill_group, c_kill, dele_group, c_dele,
}
use ubervisor.Command.Update.{update_group, c_updt}
use ubervisor.Command.Read.{Files, c_read, read_group, read_log}
use ubervisor.Command.Subs.{c_helo}
use ubervisor.Dispatch.Links.{
  links, links-spawn_from, links-updated, links-notify_update, links-each_orphan, links-each_signal,
}

module _ (lib : JsonC) (auto_dump : Bool) (disk : Disk) where
  pub links-send_status_msg :
      (code : Bool) (msg : Str) (s : Server)
      → links (send_status_msg lib auto_dump disk code msg s) ≡ links s
  unfolding send_status_msg emit
  links-send_status_msg code msg s = refl

  pub links-c_dump : (s : Server) → links (c_dump lib auto_dump disk s).1 ≡ links s
  unfolding c_dump dump_end emit
  links-c_dump s = grind (arith, links-send_status_msg)

  links-succeeded : (msg : Str) (s : Server) → links (succeeded lib auto_dump disk msg s) ≡ links s
  unfolding succeeded
  links-succeeded msg s = grind (arith, links-send_status_msg, links-c_dump)

  links-created :
      (c : ℕ) (conf : ChildConfig) (name : Str) (n : ℕ) (s : Server)
      → links (created lib auto_dump disk c conf name n s) ≡ links s
  unfolding created emit child_config_insert allocated
  links-created c conf name n s = grind (arith, links-succeeded, links-spawn_from)

  links-check_instances :
      (conf : ChildConfig) (name : Str) (s : Server)
      → links (check_instances lib auto_dump disk conf name s).1 ≡ links s
  unfolding check_instances
  links-check_instances conf name s = grind (arith, links-created, links-send_status_msg)

  pub links-c_spwn : (buf : Str) (s : Server) → links (c_spwn lib auto_dump disk buf s).1 ≡ links s
  unfolding c_spwn
  links-c_spwn buf s = grind (arith, links-check_instances, links-send_status_msg)

  links-update_group :
      (c : ℕ) (conf : ChildConfig) (s : Server)
      → links (update_group lib auto_dump disk c conf s) ≡ links s
  unfolding update_group
  links-update_group c conf s = grind (arith, links-succeeded, links-notify_update, links-updated)

  pub links-c_updt : (buf : Str) (s : Server) → links (c_updt lib auto_dump disk buf s).1 ≡ links s
  unfolding c_updt emit
  links-c_updt buf s = grind (arith, links-update_group, links-send_status_msg)

  links-on_group :
      (keep : Bool) (act : lib.Json → ℕ → ChildConfig → Server → Server)
      → ((obj : lib.Json) (c : ℕ) (conf : ChildConfig) (s : Server)
          → links (act obj c conf s) ≡ links s)
      → (buf : Str) (s : Server) → links (on_group lib auto_dump disk keep act buf s).1 ≡ links s
  unfolding on_group
  links-on_group keep act acts buf s = grind (arith, acts, links-send_status_msg)

  pub links-c_getc : (buf : Str) (s : Server) → links (c_getc lib auto_dump disk buf s).1 ≡ links s
  unfolding c_getc emit
  links-c_getc = links-on_group false _ (λ obj c conf s. refl)

  pub links-c_pids : (buf : Str) (s : Server) → links (c_pids lib auto_dump disk buf s).1 ≡ links s
  unfolding c_pids emit
  links-c_pids = links-on_group false _ (λ obj c conf s. refl)

  links-kill_from :
      (l : List Slot) (x n : ℕ) (sig : ℤ) (s : Server)
      → links (kill_from lib auto_dump disk l x n sig s) ≡ links s
  unfolding kill_from emit
  links-kill_from l x n sig s = links-each_signal sig l x n s

  links-kill_group :
      (obj : lib.Json) (c : ℕ) (conf : ChildConfig) (s : Server)
      → links (kill_group lib auto_dump disk obj c conf s) ≡ links s
  unfolding kill_group emit
  links-kill_group obj c conf s = grind (arith, links-kill_from)

  pub links-c_kill : (buf : Str) (s : Server) → links (c_kill lib auto_dump disk buf s).1 ≡ links s
  unfolding c_kill
  links-c_kill = links-on_group true _ links-kill_group

  links-dele_group :
      (obj : lib.Json) (c : ℕ) (conf : ChildConfig) (s : Server)
      → links (dele_group lib auto_dump disk obj c conf s) ≡ links s
  unfolding dele_group emit freed_config child_config_remove
  links-dele_group obj c conf s = grind (arith, links-each_orphan)

  pub links-c_dele : (buf : Str) (s : Server) → links (c_dele lib auto_dump disk buf s).1 ≡ links s
  unfolding c_dele
  links-c_dele = links-on_group true _ links-dele_group

  pub links-c_list : (s : Server) → links (c_list lib auto_dump disk s).1 ≡ links s
  unfolding c_list emit
  links-c_list s = refl

  pub links-c_helo :
      (version : Str) (s : Server) → links (c_helo lib auto_dump disk version s).1 ≡ links s
  unfolding c_helo emit
  links-c_helo version s = refl

  pub links-c_read :
      (files : Files) (buf : Str) (s : Server)
      → links (c_read files lib auto_dump disk buf s).1 ≡ links s
  unfolding c_read read_group read_log emit
  links-c_read files buf s = grind (arith, links-send_status_msg)
