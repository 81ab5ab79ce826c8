-- ===== src/Command/Fixtures.antt =====
-- A server with a running group, for runs of the server and of its commands.
use ubervisor.Common.{
  ℕ, zero, suc, ◌+◌, ◌≡◌, refl, ◌∙◌, arith, true, false, List, [], ◌∷◌, Option, some, codes,
  replicate, get_elem?, get_elem?-replicate, find_first,
}
use ubervisor.Common.Int.{pos}
use ubervisor.Config.{ChildConfig, empty, child, child_config_new, status_running}
use ubervisor.Json.{JsonC}
use ubervisor.Json.Model.{new_object, library}
use ubervisor.Uvhash.{uvhash_find, uvhash_insert, uvhash_new, hash_uint}
use ubervisor.Server.{
  spawn, parent, fork, spawned, put_config, process_insert, Server, Process, process_find_by_pid,
  new_process, first_answer,
}
use ubervisor.Server.Alive.{IsAlive}
use ubervisor.Command.{Disk, server_start, allocated, spawn_from}
use ubervisor.Command.Groups.{server_start-IsAlive, allocated-IsAlive, spawn_from-IsAlive}

-- `n` pids from `a` on.
abbrev pub pids : ℕ → ℕ → List (Option ℕ)
pids a zero = []
pids a (suc n) = some a ∷ pids (suc a) n

pub get_elem?-pids : (a n i pid : ℕ) → get_elem? (pids a n) i ≡ some (some pid) → pid ≡ a + i
get_elem?-pids a zero i pid e = ground arith
get_elem?-pids a (suc n) zero pid e = ground arith
get_elem?-pids a (suc n) (suc i) pid e = omega (arith, get_elem?-pids (suc a) n i pid e)

abbrev pub started : ℕ → Server
started n = server_start (pids 100 n) 50

pub started-IsAlive : (n : ℕ) → IsAlive (started n)
started-IsAlive n =
    server_start-IsAlive (pids 100 n) 50
      (λ i j pid e h. omega (arith, get_elem?-pids 100 n i pid e, get_elem?-pids 100 n j pid h))

-- A running group of two with `errors` errors at the second 49.
abbrev pub web : ℕ → ChildConfig
web errors = record child_config_new {
  cc_command = some (codes "httpd" ∷ []);
  cc_name = some (codes "web");
  cc_instances = pos 2;
  cc_status = status_running;
  cc_killsig = pos 15;
  cc_error = pos errors;
  cc_errtime = 49;
  cc_childs = replicate 2 empty;
}

abbrev pub running : ℕ → Server
running errors = spawn_from 0 0 2 (allocated (web errors) (codes "web") (started 4))

pub running-IsAlive : (errors : ℕ) → IsAlive (running errors)
unfolding server_start allocated child_config_new
running-IsAlive errors =
    spawn_from-IsAlive 0 0 2 (web errors) (allocated (web errors) (codes "web") (started 4))
      (allocated-IsAlive (web errors) (codes "web") (started 4) (started-IsAlive 4) 2 refl refl)
      refl (λ j lo hi. get_elem?-replicate 2 j empty ∙ ground arith)

abbrev pub grown : ℕ → ChildConfig
grown errors = record (web errors) { cc_childs = child 1 ∷ child 2 ∷ [] }

abbrev pub first : Process
first = record {
  p_pid = 100;
  p_start = 50;
  p_age = pos 0;
  p_terminated = false;
  p_child_config = some 0;
  p_instance = 0;
}

module _ (errors : ℕ) where
  pub find_first_child : process_find_by_pid 100 (running errors) ≡ some 1
  unfolding process_find_by_pid uvhash_find uvhash_insert uvhash_new hash_uint find_first spawn_from
      allocated server_start spawn parent fork spawned put_config process_insert new_process
      child_config_new
  find_first_child = refl

  pub first_there : (running errors).processes 1 ≡ some first
  unfolding process_find_by_pid uvhash_find uvhash_insert uvhash_new hash_uint find_first spawn_from
      allocated server_start spawn parent fork spawned put_config process_insert new_process
      child_config_new
  first_there = refl

  pub group_there : (running errors).configs 0 ≡ some (grown errors)
  unfolding process_find_by_pid uvhash_find uvhash_insert uvhash_new hash_uint find_first spawn_from
      allocated server_start spawn parent fork spawned put_config process_insert new_process
      child_config_new
  group_there = refl

  pub next_pid : first_answer (running errors).forks ≡ some 102
  unfolding process_find_by_pid uvhash_find uvhash_insert uvhash_new hash_uint find_first spawn_from
      allocated server_start spawn parent fork spawned put_config process_insert new_process
      child_config_new
  next_pid = refl

abbrev pub disk : Disk
disk = record { fits = true; opens = true; writes = true ∷ []; ends = true; links = true }

abbrev pub no_json : JsonC
no_json = library [] new_object
