-- ===== src/Daemon.antt =====
-- The start of the server in cmd_server.c: its options, and load_newest_dump. getopt_long, getenv, strtol, stat and
-- readdir belong to the C library: what they give is an argument.
pub mod Newest
mod Tests
use Prim.Native.Nat.{Ordering}
use ubervisor.Common.{
  ℕ, Bool, true, false, not, ◌&&◌, List, [], ◌∷◌, Option, none, some, ltb, if◌then◌else◌, Str,
  codes, length,
}
use ubervisor.Common.Int.{ℤ, pos, eq_ℤ}
use ubervisor.Json.{JsonC}
use ubervisor.Server.{Server}
use ubervisor.Command.Load.{DumpFile, load_dump}
use ubervisor.Command.Subs.{Ran}
use ubervisor.Dispatch.{strncmp}

abbrev pub path_max : ℕ
path_max = 4096

-- A file with its time of change, where stat gives one. Times before 1970 do not arise.
pub record Found : Type 0 where
  pub d_name : Str
  pub st_mtime : Option ℕ

-- `t` and `name` of load_newest_dump.
pub record Choice : Type 0 where
  pub t : ℕ
  pub name : Str

abbrev is_eq : Ordering → Bool
is_eq Ordering.eq = true
is_eq Ordering.lt = false
is_eq Ordering.gt = false

-- `!strncmp ("uberdump", d->d_name, 8)`
unfoldable pub is_dump : Str → Bool
is_dump name = is_eq (strncmp 8 (codes "uberdump") name)

-- The file that is named, with its time: it is preferred unless a dump is younger.
unfoldable pub first_choice : Option Found → Choice
first_choice none = record { t = 0; name = [] }
first_choice (some f) = elim f.st_mtime [
  | none ↦ record { t = 0; name = [] }
  | some m ↦
      if ltb (length f.d_name) path_max
      then record { t = m; name = f.d_name }
      else record { t = 0; name = [] }
]

-- A round of the loop over the directory.
unfoldable pub consider : Found → Choice → Choice
consider f c = if not (is_dump f.d_name) then c else elim f.st_mtime [
  | none ↦ c
  | some m ↦
      if ltb c.t m && ltb (length f.d_name) path_max then record { t = m; name = f.d_name } else c
]

unfoldable pub newest : List Found → Choice → Choice
newest [] c = c
newest (f ∷ l) c = newest l (consider f c)

-- load_newest_dump on what the names hold.
unfoldable pub load_newest_dump :
    JsonC → (Str → DumpFile) → Option Found → List Found → Server → Ran
load_newest_dump lib file dump_file dir s = elim (newest dir (first_choice dump_file)).name [
  | [] ↦ Ran.returned true s
  | c ∷ name ↦ load_dump lib (file (c ∷ name)) s
]

-- The options of the server.
pub record ServerOptions : Type 0 where
  pub auto_dump : Bool
  pub allow_exit : Bool
  pub do_fork : Bool
  pub silent : Bool
  pub load_latest : Bool
  pub dump_file : Option Str
  pub server_logfile : Option Str
  pub dir : Option Str
  pub perm : ℤ

-- getenv, and strtol with the bases 10 and 8. `perm` is what is taken off 0777 for the mask.
pub record Surroundings : Type 0 where
  pub getenv : Str → Option Str
  pub decimal : Str → ℤ
  pub octal : Str → ℤ

-- The options of server_longopts, and any other.
pub data ServerSwitch : Type 0 where
  autodump config dir foreground help loadlatest noexit logfile perm silent other : ServerSwitch

module _ (env : Surroundings) where
  -- `strtol (getenv (name), NULL, 10) == 1`, where the variable is set.
  unfoldable pub is_one : Str → Bool → Bool
  is_one name unset = elim (env.getenv name) [
    | none ↦ unset
    | some x ↦ eq_ℤ (env.decimal x) (pos 1)
  ]

  unfoldable pub not_one : Str → Bool → Bool
  not_one name unset = elim (env.getenv name) [
    | none ↦ unset
    | some x ↦ not (eq_ℤ (env.decimal x) (pos 1))
  ]

  unfoldable pub from_environment : ServerOptions
  from_environment = record {
    auto_dump = is_one (codes "UBERVISOR_AUTODUMP") false;
    allow_exit = not_one (codes "UBERVISOR_NOEXIT") true;
    do_fork = not_one (codes "UBERVISOR_FOREGROUND") true;
    silent = is_one (codes "UBERVISOR_SILENT") false;
    load_latest = is_one (codes "UBERVISOR_LOADLATEST") false;
    dump_file = env.getenv (codes "UBERVISOR_CONFIG");
    server_logfile = env.getenv (codes "UBERVISOR_LOGFILE");
    dir = env.getenv (codes "UBERVISOR_DIR");
    perm = elim (env.getenv (codes "UBERVISOR_PERM")) [ none ↦ pos 384 | some x ↦ env.octal x ];
  }

  -- A round of the loop over the options: `none` where the server prints its help. There is no case for 'n',
  -- so --noexit is one of these.
  unfoldable pub server_option : ServerSwitch → Str → ServerOptions → Option ServerOptions
  server_option autodump x o = some (record o { auto_dump = true })
  server_option config x o = some (record o { dump_file = some x })
  server_option dir x o = some (record o { dir = some x })
  server_option foreground x o = some (record o { do_fork = false })
  server_option loadlatest x o = some (record o { load_latest = true })
  server_option logfile x o = some (record o { server_logfile = some x })
  server_option perm x o = some (record o { perm = env.octal x })
  server_option silent x o = some (record o { silent = not o.silent })
  server_option _ x o = none

  unfoldable pub server_options : List (ServerSwitch × Str) → ServerOptions → Option ServerOptions
  server_options [] o = some o
  server_options ((ch, x) ∷ later) o = elim (server_option ch x o) [
    | none ↦ none
    | some p ↦ server_options later p
  ]

  -- What the server goes on with, where it has no arguments.
  unfoldable pub cmd_server_options : List (ServerSwitch × Str) → List Str → Option ServerOptions
  cmd_server_options opts [] = server_options opts from_environment
  cmd_server_options opts (x ∷ args) = none
