-- ===== src/Dispatch.antt =====
-- The commands of cmd_server.c by their names: the table `commands`, command_compar and
-- run_server_command. bsearch of the C library is binary search.
pub mod Alive
pub mod CommandLinks
pub mod Links
pub mod Loads
pub mod Lookup
pub mod System
mod Tests
use Prim.Native.Nat.{compare, Ordering}
use ubervisor.Common.{
  ℕ, zero, suc, ◌+◌, ◌/◌, Bool, true, false, not, List, [], ◌∷◌, Option, none, some, ltb, ◌==◌,
  if◌then◌else◌, Str, codes, length, drop, get_elem?,
}
use ubervisor.Json.{JsonC}
use ubervisor.Server.{Server}
use ubervisor.Command.{Disk, c_spwn, c_list, c_dump, c_getc}
use ubervisor.Command.Pids.{c_pids, c_kill, c_dele}
use ubervisor.Command.Update.{c_updt}
use ubervisor.Command.Subs.{Ran, c_subs, c_helo, c_exit, drop_client_connection}
use ubervisor.Command.Read.{Files, c_read, until_nul}

-- `strncmp (a, b, n)`; a list ends with a NUL.
unfoldable pub strncmp : ℕ → Str → Str → Ordering
strncmp zero a b = Ordering.eq
strncmp (suc n) [] [] = Ordering.eq
strncmp (suc n) [] (d ∷ b) = compare 0 d
strncmp (suc n) (c ∷ a) [] = compare c 0
strncmp (suc n) (c ∷ a) (d ∷ b) = elim (compare c d) [
  | Ordering.lt ↦ Ordering.lt
  | Ordering.gt ↦ Ordering.gt
  | Ordering.eq ↦ if c == 0 then Ordering.eq else strncmp n a b
]

-- The handlers.
pub data Handler : Type 0 where
  dele dump exit getc helo kill list pids read spwn subs updt : Handler

-- `struct commands_s`
pub record Command : Type 0 where
  pub c_name : Str
  pub c_func : Handler

abbrev entry : Str → Handler → Command
entry name func = record { c_name = name; c_func = func }

unfoldable pub commands : List Command
commands =
    entry (codes "DELE") dele
    ∷ entry (codes "DUMP") dump
    ∷ entry (codes "EXIT") exit
    ∷ entry (codes "GETC") getc
    ∷ entry (codes "HELO") helo
    ∷ entry (codes "KILL") kill
    ∷ entry (codes "LIST") list
    ∷ entry (codes "PIDS") pids
    ∷ entry (codes "READ") read
    ∷ entry (codes "SPWN") spwn
    ∷ entry (codes "SUBS") subs
    ∷ entry (codes "UPDT") updt
    ∷ []

unfoldable pub command_compar : Str → Command → Ordering
command_compar cmd s = strncmp 4 cmd s.c_name

-- What bsearch goes on with, by how the key compares.
unfoldable pub branch : Ordering → Option Handler → Option Handler → Option Handler → Option Handler
branch Ordering.lt below here above = below
branch Ordering.eq below here above = here
branch Ordering.gt below here above = above

-- `bsearch` between the indices `lo` and `hi`; a round halves what is left.
unfoldable pub bsearch : ℕ → Str → List Command → ℕ → ℕ → Option Handler
bsearch zero key table lo hi = none
bsearch (suc rounds) key table lo hi =
    let mid = (lo + hi) / 2 in
    let below = bsearch rounds key table lo mid in
    let above = bsearch rounds key table (suc mid) hi in
    if ltb lo hi
    then elim (get_elem? table mid) [
      | none ↦ none
      | some s ↦ branch (command_compar key s) below (some s.c_func) above
    ]
    else none

-- Four rounds are enough for the twelve commands.
unfoldable pub find_command : Str → Option Handler
find_command buf = bsearch 4 buf commands 0 (length commands)

-- What the commands take from the server's options, its libraries and its surroundings.
pub record Setting : Type 1 where
  pub lib : JsonC
  pub files : Files
  pub auto_dump : Bool
  pub allow_exit : Bool
  pub version : Str

-- A command that comes back.
abbrev pub came_back : Bool × Server → Ran
came_back (cr, s) = Ran.returned cr s

-- `s->c_func (c, cmd_buf)`
unfoldable pub call : Setting → Disk → Handler → ℕ → ℕ → Str → Server → Ran
call set disk dele con cid buf s = came_back (c_dele set.lib set.auto_dump disk buf s)
call set disk dump con cid buf s = came_back (c_dump set.lib set.auto_dump disk s)
call set disk exit con cid buf s = c_exit set.lib set.auto_dump disk set.allow_exit s
call set disk getc con cid buf s = came_back (c_getc set.lib set.auto_dump disk buf s)
call set disk helo con cid buf s = came_back (c_helo set.lib set.auto_dump disk set.version s)
call set disk kill con cid buf s = came_back (c_kill set.lib set.auto_dump disk buf s)
call set disk list con cid buf s = came_back (c_list set.lib set.auto_dump disk s)
call set disk pids con cid buf s = came_back (c_pids set.lib set.auto_dump disk buf s)
call set disk read con cid buf s = came_back (c_read set.files set.lib set.auto_dump disk buf s)
call set disk spwn con cid buf s = came_back (c_spwn set.lib set.auto_dump disk buf s)
call set disk subs con cid buf s = came_back (c_subs set.lib set.auto_dump disk con cid buf s)
call set disk updt con cid buf s = came_back (c_updt set.lib set.auto_dump disk buf s)

-- `if (!cr) drop_client_connection (c);`
unfoldable pub drop_failed : ℕ → Ran → Ran
drop_failed con (Ran.returned true s) = Ran.returned true s
drop_failed con (Ran.returned false s) = Ran.returned false (drop_client_connection con s)
drop_failed con (Ran.exited s) = Ran.exited s

unfoldable pub run_server_command : Setting → Disk → ℕ → ℕ → List ℕ → Server → Ran
run_server_command set disk con cid buf s = elim (find_command buf) [
  | none ↦ drop_failed con (Ran.returned false s)
  | some f ↦ drop_failed con (call set disk f con cid (until_nul (drop 4 buf)) s)
]
