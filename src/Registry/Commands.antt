-- ===== src/Registry/Commands.antt =====
-- The commands of cmd_server.c but c_spwn and c_dele leave the names of the groups alone.
use ubervisor.Common.{
  ℕ, zero, suc, ◌≡◌, ◌∙◌, ap, sym, refl, inl, inr, arith, Bool, true, false, List, some,
  Option-cases, Str,
}
use ubervisor.Common.Int.{ℤ}
use ubervisor.Json.{JsonC}
use ubervisor.Config.{ChildConfig, Slot}
use ubervisor.Server.{Server, Message, Event, emit}
use ubervisor.Command.{Disk, send_status_msg, dump_end, c_dump, succeeded, on_group, c_getc}
use ubervisor.Command.Pids.{each_child, orphan, c_pids, kill_from, kill_group, c_kill}
use ubervisor.Command.Update.{
  log_if, log_text, log_texts, log_instances, log_status, log_age, modify, grow_one, grow_from,
  grow, shrink_one, shrink_from, shrink, set_instances, start_one, start_from, set_status, updated,
  notify_update, set_texts, set_age, update_group, c_updt,
}
use ubervisor.Command.Read.{Files, c_read, read_group, read_log}
use ubervisor.Command.Subs.{c_subs, subscribe}
use ubervisor.Registry.{Keeps, Tagged}
use ubervisor.Registry.Frames.{tag, put_config-Keeps, spawn-Keeps}

-- A change that is none of the name.
abbrev Renames : (ChildConfig → ChildConfig) → Type 0
Renames f = (cc : ChildConfig) → (f cc).cc_name ≡ cc.cc_name

modify-Keeps :
    (c : ℕ) (f : ChildConfig → ChildConfig) (s : Server) → Renames f → Keeps s (modify c f s)
unfolding modify
modify-Keeps c f s same = elim (Option-cases (s.configs c)) [
  | inl gone ↦ ground arith
  | inr (cc, there) ↦
      rw (modify, there) (put_config-Keeps c (f cc) s (tag c cc s there ∙ ap some (sym (same cc))))
]

grow_one-Keeps :
    (c i : ℕ) (up : ChildConfig) (s : Server) → Tagged c up s → Keeps s (grow_one c i up s)
unfolding grow_one
grow_one-Keeps c i up s tagged = grind (arith, spawn-Keeps, put_config-Keeps)

grow_from-Keeps : (c i n : ℕ) (s : Server) → Keeps s (grow_from c i n s)
unfolding grow_from
grow_from-Keeps c i zero s = (refl, omega arith)
grow_from-Keeps c i (suc n) s = grind (arith, tag, grow_one-Keeps, grow_from-Keeps c (suc i) n)

shrink_one-Keeps :
    (c i : ℕ) (up : ChildConfig) (s : Server) → Tagged c up s → Keeps s (shrink_one c i up s)
unfolding shrink_one orphan
shrink_one-Keeps c i up s tagged = grind (arith, put_config-Keeps)

shrink_from-Keeps : (c i n : ℕ) (s : Server) → Keeps s (shrink_from c i n s)
unfolding shrink_from
shrink_from-Keeps c i zero s = (refl, omega arith)
shrink_from-Keeps c i (suc n) s =
    grind (arith, tag, shrink_one-Keeps, shrink_from-Keeps c (suc i) n)

set_instances-Keeps : (c : ℕ) (cc up : ChildConfig) (s : Server) → Keeps s (set_instances c cc up s)
unfolding set_instances grow shrink
set_instances-Keeps c cc up s = grind (arith, modify-Keeps, grow_from-Keeps, shrink_from-Keeps)

start_one-Keeps :
    (c i : ℕ) (up : ChildConfig) (s : Server) → Tagged c up s → Keeps s (start_one c i up s)
unfolding start_one
start_one-Keeps c i up s tagged = grind (arith, spawn-Keeps)

start_from-Keeps : (c i n : ℕ) (s : Server) → Keeps s (start_from c i n s)
unfolding start_from
start_from-Keeps c i zero s = (refl, omega arith)
start_from-Keeps c i (suc n) s = grind (arith, tag, start_one-Keeps, start_from-Keeps c (suc i) n)

set_status-Keeps : (c : ℕ) (cc : ChildConfig) (s : Server) → Keeps s (set_status c cc s)
unfolding set_status log_status emit
set_status-Keeps c cc s = grind (arith, modify-Keeps, start_from-Keeps)

log_if-Keeps : (b : Bool) (m : Message) (s : Server) → Keeps s (log_if b m s)
unfolding log_if emit
log_if-Keeps true m s = (refl, omega arith)
log_if-Keeps false m s = (refl, omega arith)

log_texts-Keeps : (cc up : ChildConfig) (s : Server) → Keeps s (log_texts cc up s)
unfolding log_texts log_text
log_texts-Keeps cc up s = grind (arith, log_if-Keeps)

log_instances-Keeps : (cc up : ChildConfig) (s : Server) → Keeps s (log_instances cc up s)
unfolding log_instances
log_instances-Keeps cc up s = log_if-Keeps _ _ s

log_age-Keeps : (cc up : ChildConfig) (s : Server) → Keeps s (log_age cc up s)
unfolding log_age
log_age-Keeps cc up s = log_if-Keeps _ _ s

set_texts-Renames : (cc : ChildConfig) → Renames (set_texts cc)
unfolding set_texts
set_texts-Renames cc up = refl

set_age-Renames : (cc : ChildConfig) → Renames (set_age cc)
unfolding set_age
set_age-Renames cc up = ground arith

updated-Keeps : (c : ℕ) (cc up : ChildConfig) (s : Server) → Keeps s (updated c cc up s)
unfolding updated
updated-Keeps c cc up s = grind (
  arith, set_texts-Renames, set_age-Renames, modify-Keeps, set_status-Keeps, set_instances-Keeps,
  log_texts-Keeps, log_instances-Keeps, log_age-Keeps,
)

notify_update-Keeps : (b : Bool) (c : ℕ) (s : Server) → Keeps s (notify_update b c s)
unfolding notify_update emit
notify_update-Keeps true c s = ground arith
notify_update-Keeps false c s = (refl, omega arith)

pub each_orphan-Keeps : (l : List Slot) (x n : ℕ) (s : Server) → Keeps s (each_child orphan l x n s)
unfolding each_child orphan
each_orphan-Keeps l x zero s = (refl, omega arith)
each_orphan-Keeps l x (suc n) s = grind (arith, each_orphan-Keeps l (suc x) n)

each_signal-Keeps :
    (sig : ℤ) (l : List Slot) (x n : ℕ) (s : Server)
    → Keeps s (each_child (λ p pr t. emit (Event.killed pr.p_pid sig) t) l x n s)
unfolding each_child emit
each_signal-Keeps sig l x zero s = (refl, omega arith)
each_signal-Keeps sig l x (suc n) s = grind (arith, each_signal-Keeps sig l (suc x) n)

module _ (lib : JsonC) (auto_dump : Bool) (disk : Disk) where
  pub send_status_msg-Keeps :
      (code : Bool) (msg : Str) (s : Server)
      → Keeps s (send_status_msg lib auto_dump disk code msg s)
  unfolding send_status_msg emit
  send_status_msg-Keeps code msg s = (refl, omega arith)

  pub c_dump-Keeps : (s : Server) → Keeps s (c_dump lib auto_dump disk s).1
  unfolding c_dump dump_end emit
  c_dump-Keeps s = grind (arith, send_status_msg-Keeps)

  pub succeeded-Keeps : (msg : Str) (s : Server) → Keeps s (succeeded lib auto_dump disk msg s)
  unfolding succeeded
  succeeded-Keeps msg s = grind (arith, send_status_msg-Keeps, c_dump-Keeps)

  update_group-Keeps :
      (c : ℕ) (cc : ChildConfig) (s : Server) → Keeps s (update_group lib auto_dump disk c cc s)
  unfolding update_group
  update_group-Keeps c cc s = grind (arith, succeeded-Keeps, notify_update-Keeps, updated-Keeps)

  pub c_updt-Keeps : (buf : Str) (s : Server) → Keeps s (c_updt lib auto_dump disk buf s).1
  unfolding c_updt emit
  c_updt-Keeps buf s = grind (arith, update_group-Keeps, send_status_msg-Keeps)

  on_group-Keeps :
      (keep : Bool) (act : lib.Json → ℕ → ChildConfig → Server → Server)
      → ((obj : lib.Json) (c : ℕ) (cc : ChildConfig) (s : Server) → Keeps s (act obj c cc s))
      → (buf : Str) (s : Server) → Keeps s (on_group lib auto_dump disk keep act buf s).1
  unfolding on_group
  on_group-Keeps keep act acts buf s = grind (arith, acts, send_status_msg-Keeps)

  pub c_getc-Keeps : (buf : Str) (s : Server) → Keeps s (c_getc lib auto_dump disk buf s).1
  unfolding c_getc emit
  c_getc-Keeps = on_group-Keeps false _ (λ obj c cc s. (refl, omega arith))

  pub c_pids-Keeps : (buf : Str) (s : Server) → Keeps s (c_pids lib auto_dump disk buf s).1
  unfolding c_pids emit
  c_pids-Keeps = on_group-Keeps false _ (λ obj c cc s. (refl, omega arith))

  kill_from-Keeps :
      (l : List Slot) (x n : ℕ) (sig : ℤ) (s : Server)
      → Keeps s (kill_from lib auto_dump disk l x n sig s)
  unfolding kill_from emit
  kill_from-Keeps l x n sig s = each_signal-Keeps sig l x n s

  kill_group-Keeps :
      (obj : lib.Json) (c : ℕ) (cc : ChildConfig) (s : Server)
      → Keeps s (kill_group lib auto_dump disk obj c cc s)
  unfolding kill_group emit
  kill_group-Keeps obj c cc s = grind (arith, kill_from-Keeps)

  pub c_kill-Keeps : (buf : Str) (s : Server) → Keeps s (c_kill lib auto_dump disk buf s).1
  unfolding c_kill
  c_kill-Keeps = on_group-Keeps true _ kill_group-Keeps

  pub c_read-Keeps :
      (files : Files) (buf : Str) (s : Server) → Keeps s (c_read files lib auto_dump disk buf s).1
  unfolding c_read read_group read_log emit
  c_read-Keeps files buf s = grind (arith, send_status_msg-Keeps)

  pub c_subs-Keeps :
      (con cid : ℕ) (buf : Str) (s : Server) → Keeps s (c_subs lib auto_dump disk con cid buf s).1
  unfolding c_subs subscribe
  c_subs-Keeps con cid buf s = grind (arith, send_status_msg-Keeps)
