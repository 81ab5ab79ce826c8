-- ===== src/Config.antt =====
-- Process groups: `struct child_config` of child_config.h, and its JSON form in child_config.c.
-- A NULL string is `none`; -1 marks a number as unset.
pub mod RoundTrip
pub mod Status
mod Tests
use ubervisor.Common.{
  ℕ, zero, suc, not, List, [], ◌∷◌, Option, none, some, if◌then◌else◌, Str, codes,
}
use ubervisor.Common.Int.{ℤ, pos, minus_one, eq_ℤ, to_int}
use ubervisor.Json.{JsonType, JsonC}

-- An element of `cc_childs`: NULL, a process at an address, or memory that was never written.
pub data Slot : Type 0 where
  empty : Slot
  child : ℕ → Slot
  unwritten : Slot

pub record ChildConfig : Type 0 where
  pub cc_command : Option (List Str)
  pub cc_name : Option Str
  pub cc_stdout : Option Str
  pub cc_stderr : Option Str
  pub cc_dir : Option Str
  pub cc_heartbeat : Option Str
  pub cc_fatal_cb : Option Str
  pub cc_username : Option Str
  pub cc_groupname : Option Str
  pub cc_instances : ℤ
  pub cc_status : ℤ
  pub cc_killsig : ℤ
  pub cc_age : ℤ
  pub cc_uid : ℤ
  pub cc_gid : ℤ
  pub cc_error : ℤ
  pub cc_errtime : ℕ
  pub cc_childs : List Slot

abbrev pub status_running : ℤ
status_running = pos 1

abbrev pub status_stopped : ℤ
status_stopped = pos 2

abbrev pub status_broken : ℤ
status_broken = pos 3

abbrev pub status_create : ℤ
status_create = pos 4

abbrev pub status_delete : ℤ
status_delete = pos 5

unfoldable pub child_config_new : ChildConfig
child_config_new = record {
  cc_command = none;
  cc_name = none;
  cc_stdout = none;
  cc_stderr = none;
  cc_dir = none;
  cc_heartbeat = none;
  cc_fatal_cb = none;
  cc_username = none;
  cc_groupname = none;
  cc_instances = minus_one;
  cc_status = minus_one;
  cc_killsig = minus_one;
  cc_age = pos 0;
  cc_uid = minus_one;
  cc_gid = minus_one;
  cc_error = pos 0;
  cc_errtime = 0;
  cc_childs = [];
}

-- A group with its age cut to 32 bits.
abbrev pub cut_age : ChildConfig → ChildConfig
cut_age cc = record cc { cc_age = to_int cc.cc_age }

infixl 5 ◌>>=◌
abbrev pub ◌>>=◌ {ℓ κ} : {A : Type ℓ} {B : Type κ} → Option A → (A → Option B) → Option B
none >>= f = none
some a >>= f = f a

module _ (lib : JsonC) where
  -- `ADD (X, Y)` and `ADDINT (X, Y)`
  unfoldable pub add : Str → Option Str → lib.Json → lib.Json
  add k none o = o
  add k (some x) o = lib.json_object_object_add o k (lib.json_object_new_string x)

  unfoldable pub add_int : Str → ℤ → lib.Json → lib.Json
  add_int k n o =
      if not (eq_ℤ n minus_one)
      then lib.json_object_object_add o k (lib.json_object_new_int n)
      else o

  -- `ADDINT ("age", cc->cc_age)`: a time_t, which is tested whole and cut to the `int` that json-c takes.
  unfoldable pub add_age : ℤ → lib.Json → lib.Json
  add_age n o =
      if not (eq_ℤ n minus_one)
      then lib.json_object_object_add o (codes "age") (lib.json_object_new_int (to_int n))
      else o

  -- The array behind "args", from the strings of `cc_command`.
  unfoldable pub add_strings : List Str → lib.Json → lib.Json
  add_strings [] a = a
  add_strings (x ∷ xs) a =
      add_strings xs (lib.json_object_array_add a (lib.json_object_new_string x))

  unfoldable pub add_args : Option (List Str) → lib.Json → lib.Json
  add_args none o = o
  add_args (some xs) o =
      lib.json_object_object_add o (codes "args") (add_strings xs lib.json_object_new_array)

  -- The object that child_config_serialize builds.
  unfoldable pub to_json : ChildConfig → lib.Json
  to_json cc = add_args cc.cc_command (
      add_age cc.cc_age (
        add_int (codes "error") cc.cc_error (
          add_int (codes "gid") cc.cc_gid (
            add_int (codes "uid") cc.cc_uid (
              add_int (codes "killsig") cc.cc_killsig (
                add_int (codes "status") cc.cc_status (
                  add_int (codes "instances") cc.cc_instances (
                    add (codes "groupname") cc.cc_groupname (
                      add (codes "username") cc.cc_username (
                        add (codes "fatal_cb") cc.cc_fatal_cb (
                          add (codes "heartbeat") cc.cc_heartbeat (
                            add (codes "dir") cc.cc_dir (
                              add (codes "stderr") cc.cc_stderr (
                                add (codes "stdout") cc.cc_stdout (
                                  add (codes "name") cc.cc_name
                                    lib.json_object_new_object)))))))))))))))

  unfoldable pub child_config_serialize : ChildConfig → Str
  child_config_serialize cc = lib.json_object_to_json_string (to_json cc)

  -- `GET (X, Y)`: the field as it was where the key is missing, NULL for a value of another type.
  unfoldable pub get : lib.Json → Str → Option Str → Option (Option Str)
  get o k old = elim (lib.json_object_object_get o k) [
    | none ↦ some old
    | some t ↦
        if lib.json_object_is_type t JsonType.string
        then some (lib.json_object_get_string t)
        else none
  ]

  -- `GETINT (X, Y)`
  unfoldable pub get_int : lib.Json → Str → ℤ → Option ℤ
  get_int o k old = elim (lib.json_object_object_get o k) [
    | none ↦ some old
    | some t ↦
        if lib.json_object_is_type t JsonType.int then some (lib.json_object_get_int t) else none
  ]

  -- `xstrdup (json_object_get_string (s))` of an element that is a string
  unfoldable pub get_element : lib.Json → Option Str
  get_element s =
      if lib.json_object_is_type s JsonType.string then lib.json_object_get_string s else none

  -- The loop over the elements of "args", `n` of which are left from the index `i` on.
  unfoldable pub get_strings : lib.Json → ℕ → ℕ → Option (List Str)
  get_strings t zero i = some []
  get_strings t (suc n) i =
      let rest = get_strings t n (suc i) in
      lib.json_object_array_get_idx t i >>= get_element >>= λ x. rest >>= λ xs. some (x ∷ xs)

  unfoldable pub get_args : lib.Json → Option (List Str) → Option (Option (List Str))
  get_args o old = elim (lib.json_object_object_get o (codes "args")) [
    | none ↦ some old
    | some t ↦
        if lib.json_object_is_type t JsonType.array
        then (get_strings t (lib.json_object_array_length t) 0 >>= λ xs. some (some xs))
        else none
  ]

  -- `if (ret->cc_name == NULL)`
  unfoldable pub need_name : Option Str → Option (Option Str)
  need_name none = none
  need_name (some x) = some (some x)

  -- The NULL of a failure is `none`.
  unfoldable pub child_config_from_json : lib.Json → Option ChildConfig
  child_config_from_json o =
      let new = child_config_new in
      do
        name ← get o (codes "name") new.cc_name
        cc_name ← need_name name
        cc_stdout ← get o (codes "stdout") new.cc_stdout
        cc_stderr ← get o (codes "stderr") new.cc_stderr
        cc_dir ← get o (codes "dir") new.cc_dir
        cc_heartbeat ← get o (codes "heartbeat") new.cc_heartbeat
        cc_fatal_cb ← get o (codes "fatal_cb") new.cc_fatal_cb
        cc_username ← get o (codes "username") new.cc_username
        cc_groupname ← get o (codes "groupname") new.cc_groupname
        cc_instances ← get_int o (codes "instances") new.cc_instances
        cc_status ← get_int o (codes "status") new.cc_status
        cc_killsig ← get_int o (codes "killsig") new.cc_killsig
        cc_uid ← get_int o (codes "uid") new.cc_uid
        cc_gid ← get_int o (codes "gid") new.cc_gid
        cc_error ← get_int o (codes "error") new.cc_error
        cc_age ← get_int o (codes "age") new.cc_age
        cc_command ← get_args o new.cc_command
        some (record child_config_new {
          cc_command = cc_command;
          cc_name = cc_name;
          cc_stdout = cc_stdout;
          cc_stderr = cc_stderr;
          cc_dir = cc_dir;
          cc_heartbeat = cc_heartbeat;
          cc_fatal_cb = cc_fatal_cb;
          cc_username = cc_username;
          cc_groupname = cc_groupname;
          cc_instances = cc_instances;
          cc_status = cc_status;
          cc_killsig = cc_killsig;
          cc_age = cc_age;
          cc_uid = cc_uid;
          cc_gid = cc_gid;
          cc_error = cc_error;
        })

  unfoldable pub child_config_unserialize : Str → Option ChildConfig
  child_config_unserialize buf = elim (lib.json_tokener_parse buf) [
    | none ↦ none
    | some o ↦
        if lib.is_error o
        then none
        else if not (lib.json_object_is_type o JsonType.object)
        then none
        else child_config_from_json o
  ]
