-- ===== src/Command.antt =====
-- Commands of cmd_server.c that create, list, show and dump groups.
pub mod Delete
pub mod Fields
pub mod Fixtures
pub mod Grow
pub mod Groups
mod Orphans
pub mod Load
pub mod Log
pub mod LogTests
pub mod Pids
pub mod Read
pub mod Refusals
pub mod Restore
mod RestoreTests
pub mod Shrink
pub mod Signals
pub mod Started
pub mod Subs
mod Tests
pub mod Update
pub mod Updates
use ubervisor.Common.{
  ℕ, zero, suc, ◌+◌, Bool, true, false, not, List, [], ◌∷◌, ◌++◌, Option, none, some, ltb, ◌==◌,
  if◌then◌else◌, Str, codes, replicate,
}
use ubervisor.Common.Int.{ℤ, pos, minus_one, eq_ℤ, lt_ℤ, to_ℕ}
use ubervisor.Json.{JsonType, JsonC}
use ubervisor.Config.{
  ChildConfig, Slot, empty, status_running, status_create, child_config_serialize,
  child_config_unserialize,
}
use ubervisor.Uvhash.{uvhash_new, uvstrhash_new, uvstrhash_insert, uvstrhash_find}
use ubervisor.Server.{Server, Event, emit, status_update, replied, linked, spawn}
use ubervisor.Server.Heap.{update}

abbrev pub max_instances : ℕ
max_instances = 1024

-- The server before the first command, with the answers that fork will give and the time.
unfoldable pub server_start : List (Option ℕ) → ℕ → Server
server_start forks now = record {
  configs = λ c. none;
  processes = λ p. none;
  next = 0;
  names = λ a. [];
  child_config_list = [];
  child_config_hash = uvstrhash_new 16;
  process_hash = uvhash_new 16;
  forks = forks;
  now = now;
  clients = [];
  subscriptions = [];
  events = [];
}

-- The names of the groups stand under the addresses of the groups.
unfoldable pub child_config_insert : ℕ → Str → Server → Server
child_config_insert c name s = record s {
  child_config_list = c ∷ s.child_config_list;
  child_config_hash = uvstrhash_insert s.names s.child_config_hash c c;
}

unfoldable pub child_config_find_by_name : Str → Server → Option ℕ
child_config_find_by_name n s = uvstrhash_find s.names s.child_config_hash n

-- A group that child_config_unserialize has allocated, with its name.
unfoldable pub allocated : ChildConfig → Str → Server → Server
allocated cc name s = record s {
  configs = update s.configs s.next (some cc);
  names = update s.names s.next name;
  next = suc s.next;
}

-- `for (; i < cc->cc_instances; i++) spawn (cc, i);` with `n` rounds left.
unfoldable pub spawn_from : ℕ → ℕ → ℕ → Server → Server
spawn_from c i zero s = s
spawn_from c i (suc n) s = elim (s.configs c) [
  | none ↦ s
  | some cc ↦ spawn_from c (suc i) n (spawn c cc i s).1
]

-- What the file system answers to c_dump: whether the names fit into PATH_MAX, fopen, the fprintf of
-- each group, that of the last line, link.
pub record Disk : Type 0 where
  pub fits : Bool
  pub opens : Bool
  pub writes : List Bool
  pub ends : Bool
  pub links : Bool

module _ (lib : JsonC) (auto_dump : Bool) (disk : Disk) where
  unfoldable pub send_status_msg : Bool → Str → Server → Server
  send_status_msg code msg s =
      let obj =
        lib.json_object_object_add lib.json_object_new_object (codes "code")
          (lib.json_object_new_boolean code) in
      let obj₂ = lib.json_object_object_add obj (codes "msg") (lib.json_object_new_string msg) in
      emit (replied (lib.json_object_to_json_string obj₂)) s

  -- The lines of the groups, `none` where a write fails.
  unfoldable pub dump_lines : List Bool → List ℕ → Server → Option Str
  dump_lines ok [] s = some []
  dump_lines [] (c ∷ cs) s = none
  dump_lines (false ∷ ok) (c ∷ cs) s = none
  dump_lines (true ∷ ok) (c ∷ cs) s = elim (s.configs c) [
    | none ↦ none
    | some cc ↦ elim (dump_lines ok cs s) [
      | none ↦ none
      | some rest ↦ some (child_config_serialize lib cc ++ codes ",\n" ++ rest)
    ]
  ]

  -- The end of c_dump, behind the lines of the groups: a failure to write the last line is reported,
  -- and the file linked all the same.
  unfoldable pub dump_end : Str → Server → Server
  dump_end lines s =
      let s₁ = if disk.ends then s else send_status_msg false (codes "failure") s in
      let text = codes "[\n" ++ lines ++ (if disk.ends then codes "]\n" else []) in
      if disk.links
      then send_status_msg true (codes "dump successful.") (emit (linked text) s₁)
      else send_status_msg false (codes "failure.") s₁

  unfoldable pub c_dump : Server → Bool × Server
  c_dump s =
      if not disk.fits
      then (true, send_status_msg false (codes "failure") s)
      else if not disk.opens
      then (true, send_status_msg false (codes "failure") s)
      else elim (dump_lines disk.writes s.child_config_list s) [
        | none ↦ (true, send_status_msg false (codes "failure") s)
        | some lines ↦ (true, dump_end lines s)
      ]

  -- `if (!auto_dump) send_status_msg (con, 1, msg); else c_dump (con, NULL);`
  unfoldable pub succeeded : Str → Server → Server
  succeeded msg s = if not auto_dump then send_status_msg true msg s else (c_dump s).1

  -- c_spwn behind its checks: `n` instances of a group that stands at the address `c`.
  unfoldable pub created : ℕ → ChildConfig → Str → ℕ → Server → Server
  created c cc name n s =
      let with_childs = record cc { cc_instances = pos n; cc_childs = replicate n empty } in
      let s₁ =
        succeeded (codes "success") (child_config_insert c name (allocated with_childs name s)) in
      let s₂ =
        emit (status_update (some name) cc.cc_status)
          (emit (status_update (some name) status_create) s₁) in
      if eq_ℤ cc.cc_status status_running then spawn_from c 0 n s₂ else s₂

  -- The checks of the number of instances.
  unfoldable pub check_instances : ChildConfig → Str → Server → Bool × Server
  check_instances cc name s =
      let n = if eq_ℤ cc.cc_instances minus_one then pos 1 else cc.cc_instances in
      if lt_ℤ n (pos 1)
      then (true, send_status_msg false (codes "instances > 0 required.") s)
      else if lt_ℤ (pos max_instances) n
      then (true, send_status_msg false (codes "too many instances.") s)
      else (true, created s.next cc name (to_ℕ n) s)

  unfoldable pub c_spwn : Str → Server → Bool × Server
  c_spwn buf s = elim (child_config_unserialize lib buf) [
    | none ↦ (false, send_status_msg false (codes "failure") s)
    | some cc ↦ elim cc.cc_name [
      | none ↦ (true, send_status_msg false (codes "need name") s)
      | some name ↦ elim cc.cc_command [
        | none ↦ (true, send_status_msg false (codes "need command") s)
        | some command ↦ elim (child_config_find_by_name name s) [
          | some other ↦ (true, send_status_msg false (codes "name exists") s)
          | none ↦ check_instances cc name s
        ]
      ]
    ]
  ]

  -- The array of the names.
  unfoldable pub list_names : List ℕ → lib.Json → Server → lib.Json
  list_names [] a s = a
  list_names (c ∷ cs) a s =
      list_names cs (lib.json_object_array_add a (lib.json_object_new_string (s.names c))) s

  unfoldable pub c_list : Server → Bool × Server
  c_list s =
      let names = list_names s.child_config_list lib.json_object_new_array s in
      (true, emit (replied (lib.json_object_to_json_string names)) s)

  -- The object of a request: `none` where the text is none.
  unfoldable pub parse_object : Str → Option lib.Json
  parse_object buf = elim (lib.json_tokener_parse buf) [
    | none ↦ none
    | some obj ↦
        if lib.is_error obj
        then none
        else if not (lib.json_object_is_type obj JsonType.object)
        then none
        else some obj
  ]

  -- Its member "name", where it is a string.
  unfoldable pub parse_name : lib.Json → Option Str
  parse_name obj = elim (lib.json_object_object_get obj (codes "name")) [
    | none ↦ none
    | some m ↦
        if not (lib.json_object_is_type m JsonType.string)
        then none
        else lib.json_object_get_string m
  ]

  -- Three commands begin alike: `keep` is what they return where the name is missing, `act` what they
  -- do to the group.
  unfoldable pub on_group :
      Bool → (lib.Json → ℕ → ChildConfig → Server → Server) → Str → Server → Bool × Server
  on_group keep act buf s = elim (parse_object buf) [
    | none ↦ (false, send_status_msg false (codes "failure") s)
    | some obj ↦ elim (parse_name obj) [
      | none ↦ (keep, send_status_msg false (codes "failure") s)
      | some n ↦ elim (child_config_find_by_name n s) [
        | none ↦ (true, send_status_msg false (codes "name not found") s)
        | some c ↦ elim (s.configs c) [ none ↦ (true, s) | some cc ↦ (true, act obj c cc s) ]
      ]
    ]
  ]

  unfoldable pub c_getc : Str → Server → Bool × Server
  c_getc = on_group false (λ obj c cc s. emit (replied (child_config_serialize lib cc)) s)
