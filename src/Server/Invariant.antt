-- ===== src/Server/Invariant.antt =====
-- The pointers between groups and processes.
use ubervisor.Common.{ℕ, ◌≤◌, ◌≡◌, ◌≢◌, [], ◌∷◌, Option, none, some, length, get_elem?, head?}
use ubervisor.Common.Int.{pos}
use ubervisor.Config.{ChildConfig, child, unwritten}
use ubervisor.Uvhash.{Uvhash}
use ubervisor.Uvhash.Laws.{IsValid, stack}
use ubervisor.Server.{Process, Server}

-- The child array of the group at an address, against the processes.
pub record Owns (processes : ℕ → Option Process) (c : ℕ) (cc : ChildConfig) : Type 0 where
  -- it has as many elements as the group has instances
  pub sized : pos (length cc.cc_childs) ≡ cc.cc_instances
  -- each element has been written
  pub written : (i : ℕ) → get_elem? cc.cc_childs i ≢ some unwritten
  -- a pointer in it leads to a process of this group and instance
  pub owned :
      (i p : ℕ)
      → get_elem? cc.cc_childs i ≡ some (child p)
      → (pr : Process) × (processes p ≡ some pr)
        × (pr.p_child_config ≡ some c)
        × (pr.p_instance ≡ i)

-- The process at an address, against the groups and the table of pids.
pub record IsRunning (configs : ℕ → Option ChildConfig) (table : Uvhash ℕ) (p : ℕ) (pr : Process)
    : Type 0 where
  -- its group is there and has it as the child of its instance
  pub has_group :
      (c : ℕ)
      → pr.p_child_config ≡ some c
      → (cc : ChildConfig) × (configs c ≡ some cc)
        × (get_elem? cc.cc_childs pr.p_instance ≡ some (child p))
  -- the table holds it under its pid, and nothing else there
  pub listed : stack table pr.p_pid ≡ p ∷ []

pub record Sound (configs : ℕ → Option ChildConfig) (processes : ℕ → Option Process) (next : ℕ)
    (table : Uvhash ℕ) : Type 0 where
  pub valid : IsValid table
  pub unused_config : (c : ℕ) → next ≤ c → configs c ≡ none
  pub unused_process : (p : ℕ) → next ≤ p → processes p ≡ none
  pub groups : (c : ℕ) (cc : ChildConfig) → configs c ≡ some cc → Owns processes c cc
  pub running : (p : ℕ) (pr : Process) → processes p ≡ some pr → IsRunning configs table p pr
  -- a pid in the table leads to a process with that pid
  pub known :
      (pid p : ℕ)
      → head? (stack table pid) ≡ some p
      → (pr : Process) × (processes p ≡ some pr) × (pr.p_pid ≡ pid)

-- No pointer between groups, processes and the table of pids dangles.
abbrev pub IsSound : Server → Type 0
IsSound s = Sound s.configs s.processes s.next s.process_hash
