-- ===== src/Registry.antt =====
-- The names of the groups in cmd_server.c: child_config_hash, child_config_list and what the code
-- keeps of them, against the groups that are there.
pub mod Commands
pub mod Frames
pub mod Edits
pub mod Lookup
pub mod Names
pub mod Removal
pub mod System
mod Tests
use ubervisor.Common.{
  ℕ, ◌≤◌, ◌≡◌, ◌⊎◌, List, [], ◌∷◌, Option, none, some, ◌==◌, Str, length, select,
}
use ubervisor.Config.{ChildConfig}
use ubervisor.Uvhash.{Uvstrhash, UvstrhashEnt}
use ubervisor.Uvhash.Text.{IsValid, entries}
use ubervisor.Uvhash.Keys.{AreBelow}
use ubervisor.Server.{Server}

-- The name of the group at each address, where a group is there.
unfoldable pub titles : (ℕ → Option ChildConfig) → ℕ → Option (Option Str)
titles configs c = elim (configs c) [ none ↦ none | some cc ↦ some cc.cc_name ]

abbrev pub Book : Type 0
Book = (ℕ → Str) × Uvstrhash ℕ × List ℕ × (ℕ → Option (Option Str))

-- The part of the server that the names of the groups are in.
abbrev pub book : Server → Book
book s = (s.names, s.child_config_hash, s.child_config_list, titles s.configs)

-- The names stay, and no address is given twice.
abbrev pub Keeps : Server → Server → Type 0
Keeps s t = (book t ≡ book s) × (s.next ≤ t.next)

-- `cc` is the group at `c`, as far as its name goes.
abbrev pub Tagged : ℕ → ChildConfig → Server → Type 0
Tagged c cc s = titles s.configs c ≡ some cc.cc_name

-- The entry of the group at an address.
abbrev pub ent : ℕ → UvstrhashEnt ℕ
ent c = record { she_key = c; she_value = c }

-- How often an address stands in a list.
unfoldable pub count : ℕ → List ℕ → ℕ
count c l = length (select (λ d. d == c) l)

-- 1 where a group is there.
unfoldable pub held : Option (Option Str) → ℕ
held none = 0
held (some t) = 1

-- The names in memory, the table, the list and the groups against each other.
pub record Named (b : Book) (next : ℕ) : Type 0 where
  pub valid : IsValid b.1
  -- what the table holds has been allocated
  pub below : AreBelow next b.1
  -- a group has the name that stands in memory, and the table has it there, and nothing else
  pub filed :
      (c : ℕ) (t : Option Str)
      → b.3 c ≡ some t
      → (t ≡ some (b.0 c)) × (entries b.0 b.1 (b.0 c) ≡ ent c ∷ [])
  -- the table leads from a name to the group of that name
  pub found :
      (n : Str)
      → (entries b.0 b.1 n ≡ [])
        ⊎ ((c : ℕ) × (entries b.0 b.1 n ≡ ent c ∷ []) × (b.0 c ≡ n) × (b.3 c ≡ some (some n)))
  -- the list has each group once, and nothing else
  pub listed : (c : ℕ) → count c b.2 ≡ held (b.3 c)

abbrev pub IsNamed : Server → Type 0
IsNamed s = Named (book s) s.next
