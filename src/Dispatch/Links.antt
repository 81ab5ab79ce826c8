-- ===== src/Dispatch/Links.antt =====
-- Nothing but the commands on connections changes the connections and the subscriptions of the server.
use ubervisor.Common.{
  ℕ, zero, suc, ◌≡◌, refl, inl, inr, arith, Bool, true, false, List, [], ◌∷◌, Option-cases,
}
use ubervisor.Common.Int.{ℤ}
use ubervisor.Config.{ChildConfig, Slot}
use ubervisor.Subscription.{Subscription}
use ubervisor.Server.{
  Process, Server, Message, Event, Wait, emit, put_config, spawn, parent, spawned, fork,
  first_answer, fatal_child, run_fatal_cb, note_error, note_exit, restart, reap_group, reap,
  sigchld_cb, process_insert, process_remove,
}
use ubervisor.Server.Heartbeat.{heartbeat_cb, heartbeat_child, run_heartbeat, overdue, terminate}
use ubervisor.Command.{spawn_from}
use ubervisor.Command.Pids.{each_child, orphan}
use ubervisor.Command.Update.{
  log_if, log_text, log_texts, log_instances, log_status, log_age, modify, grow_one, grow_from,
  grow, shrink_one, shrink_from, shrink, set_instances, start_one, start_from, set_status, updated,
  notify_update,
}

abbrev pub links : Server → List ℕ × List Subscription
links s = (s.clients, s.subscriptions)

links-spawn :
    (c : ℕ) (conf : ChildConfig) (i : ℕ) (s : Server) → links (spawn c conf i s).1 ≡ links s
unfolding spawn parent spawned put_config process_insert fork
links-spawn c conf i s = elim (Option-cases (first_answer s.forks)) [
  | inl failed ↦ rw failed refl
  | inr (pid, got) ↦ rw got refl
]

links-run_fatal_cb : (conf : ChildConfig) (s : Server) → links (run_fatal_cb conf s) ≡ links s
unfolding run_fatal_cb fatal_child emit fork
links-run_fatal_cb conf s = ground arith

links-note_exit :
    (c : ℕ) (conf : ChildConfig) (w : Wait) (s : Server) → links (note_exit c conf w s).1 ≡ links s
unfolding note_exit note_error put_config emit
links-note_exit c conf w s = grind (arith, links-run_fatal_cb)

links-reap_group :
    (c : ℕ) (conf : ChildConfig) (i : ℕ) (w : Wait) (s : Server)
    → links (reap_group c conf i w s) ≡ links s
unfolding reap_group restart put_config
links-reap_group c conf i w s = grind (arith, links-note_exit, links-spawn)

links-reap : (p : ℕ) (pr : Process) (w : Wait) (s : Server) → links (reap p pr w s) ≡ links s
unfolding reap process_remove
links-reap p pr w s = grind (arith, links-reap_group)

pub links-sigchld_cb : (ended : List (ℕ × Wait)) (s : Server) → links (sigchld_cb ended s) ≡ links s
unfolding sigchld_cb
links-sigchld_cb [] s = refl
links-sigchld_cb ((pid, w) ∷ rest) s = grind (arith, links-reap, links-sigchld_cb rest)

pub links-heartbeat_cb : (p : ℕ) (s : Server) → links (heartbeat_cb p s) ≡ links s
unfolding heartbeat_cb run_heartbeat heartbeat_child overdue terminate emit fork
links-heartbeat_cb p s = ground arith

pub links-spawn_from : (c i n : ℕ) (s : Server) → links (spawn_from c i n s) ≡ links s
unfolding spawn_from
links-spawn_from c i zero s = refl
links-spawn_from c i (suc n) s = grind (arith, links-spawn, links-spawn_from c (suc i) n)

links-modify : (c : ℕ) (f : ChildConfig → ChildConfig) (s : Server) → links (modify c f s) ≡ links s
unfolding modify put_config
links-modify c f s = ground arith

links-grow_from : (c i n : ℕ) (s : Server) → links (grow_from c i n s) ≡ links s
unfolding grow_from grow_one put_config
links-grow_from c i zero s = refl
links-grow_from c i (suc n) s = grind (arith, links-spawn, links-grow_from c (suc i) n)

links-shrink_from : (c i n : ℕ) (s : Server) → links (shrink_from c i n s) ≡ links s
unfolding shrink_from shrink_one put_config orphan
links-shrink_from c i zero s = refl
links-shrink_from c i (suc n) s = grind (arith, links-shrink_from c (suc i) n)

links-set_instances :
    (c : ℕ) (conf up : ChildConfig) (s : Server) → links (set_instances c conf up s) ≡ links s
unfolding set_instances grow shrink
links-set_instances c conf up s = grind (arith, links-modify, links-grow_from, links-shrink_from)

links-start_from : (c i n : ℕ) (s : Server) → links (start_from c i n s) ≡ links s
unfolding start_from start_one
links-start_from c i zero s = refl
links-start_from c i (suc n) s = grind (arith, links-spawn, links-start_from c (suc i) n)

links-set_status : (c : ℕ) (conf : ChildConfig) (s : Server) → links (set_status c conf s) ≡ links s
unfolding set_status log_status emit
links-set_status c conf s = grind (arith, links-modify, links-start_from)

links-log_if : (b : Bool) (m : Message) (s : Server) → links (log_if b m s) ≡ links s
unfolding log_if emit
links-log_if true m s = refl
links-log_if false m s = refl

pub links-updated :
    (c : ℕ) (conf up : ChildConfig) (s : Server) → links (updated c conf up s) ≡ links s
unfolding updated log_texts log_text log_instances log_age
links-updated c conf up s =
    grind (arith, links-modify, links-set_status, links-set_instances, links-log_if)

pub links-notify_update : (b : Bool) (c : ℕ) (s : Server) → links (notify_update b c s) ≡ links s
unfolding notify_update emit
links-notify_update true c s = ground arith
links-notify_update false c s = refl

pub links-each_orphan :
    (l : List Slot) (x n : ℕ) (s : Server) → links (each_child orphan l x n s) ≡ links s
unfolding each_child orphan
links-each_orphan l x zero s = refl
links-each_orphan l x (suc n) s = grind (arith, links-each_orphan l (suc x) n)

pub links-each_signal :
    (sig : ℤ) (l : List Slot) (x n : ℕ) (s : Server)
    → links (each_child (λ p pr t. emit (Event.killed pr.p_pid sig) t) l x n s) ≡ links s
unfolding each_child emit
links-each_signal sig l x zero s = refl
links-each_signal sig l x (suc n) s = grind (arith, links-each_signal sig l (suc x) n)
