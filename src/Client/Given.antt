-- ===== src/Client/Given.antt =====
-- What the options of cmd_start.c ask for, field by field.
use ubervisor.Common.{
  ℕ, ◌≡◌, refl, arith, Bool, false, List, [], ◌∷◌, some, ◌==◌, ◌&&◌, if◌then◌else◌, Str, All,
}
use ubervisor.Common.Int.{pos, minus_one, eq_ℤ, to_int}
use ubervisor.Config.{ChildConfig, child_config_new, status_running}
use ubervisor.Config.Status.{Strtol, child_config_status_from_string}
use ubervisor.Client.Options.{
  Switch, start_new, status_option, start_option, options, start_arguments, start_config,
  update_option, update_arguments, update_config,
}

-- The number of a switch, to tell two apart.
abbrev rank : Switch → ℕ
rank Switch.age = 0
rank Switch.dir = 1
rank Switch.stderr = 2
rank Switch.fatal = 3
rank Switch.gid = 4
rank Switch.groupname = 5
rank Switch.help = 6
rank Switch.heartbeat = 7
rank Switch.instances = 8
rank Switch.killsig = 9
rank Switch.stdout = 10
rank Switch.status = 11
rank Switch.uid = 12
rank Switch.username = 13
rank Switch.other = 14

abbrev pub same_switch : Switch → Switch → Bool
same_switch a b = rank a == rank b

-- The value of the last option with this switch, or else the old one.
abbrev pub given : {A : Type 0} → (Str → A) → Switch → List (Switch × Str) → A → A
given v sw [] old = old
given v sw ((ch, x) ∷ later) old = given v sw later (if same_switch ch sw then v x else old)

module _ (c : Strtol) where
  -- An option that does not end cmd_start: it is known, is not -h, and a status is none that
  -- child_config_status_from_string refuses.
  abbrev pub IsGood : Switch × Str → Type 0
  IsGood (ch, x) =
      (same_switch ch Switch.help ≡ false)
      × (same_switch ch Switch.other ≡ false)
      × ((same_switch ch Switch.status && eq_ℤ (child_config_status_from_string c x) minus_one)
          ≡ false)

  -- A group with the values of some options, each in the field of its switch.
  abbrev pub chosen : List (Switch × Str) → ChildConfig → ChildConfig
  chosen opts cc = record cc {
    cc_stdout = given some Switch.stdout opts cc.cc_stdout;
    cc_stderr = given some Switch.stderr opts cc.cc_stderr;
    cc_dir = given some Switch.dir opts cc.cc_dir;
    cc_heartbeat = given some Switch.heartbeat opts cc.cc_heartbeat;
    cc_fatal_cb = given some Switch.fatal opts cc.cc_fatal_cb;
    cc_username = given some Switch.username opts cc.cc_username;
    cc_groupname = given some Switch.groupname opts cc.cc_groupname;
    cc_instances = given (λ x. to_int (c.value x)) Switch.instances opts cc.cc_instances;
    cc_status = given (child_config_status_from_string c) Switch.status opts cc.cc_status;
    cc_killsig = given (λ x. to_int (c.value x)) Switch.killsig opts cc.cc_killsig;
    cc_age = given c.value Switch.age opts cc.cc_age;
    cc_uid = given (λ x. to_int (c.value x)) Switch.uid opts cc.cc_uid;
    cc_gid = given (λ x. to_int (c.value x)) Switch.gid opts cc.cc_gid;
  }

  start_option-chosen :
      (ch : Switch) (x : Str) (cc : ChildConfig)
      → IsGood (ch, x)
      → start_option c ch x cc ≡ some (chosen ((ch, x) ∷ []) cc)
  unfolding start_option status_option
  start_option-chosen Switch.age x cc good = refl
  start_option-chosen Switch.dir x cc good = refl
  start_option-chosen Switch.stderr x cc good = refl
  start_option-chosen Switch.fatal x cc good = refl
  start_option-chosen Switch.gid x cc good = refl
  start_option-chosen Switch.groupname x cc good = refl
  start_option-chosen Switch.help x cc good = absurd (ground arith)
  start_option-chosen Switch.heartbeat x cc good = refl
  start_option-chosen Switch.instances x cc good = refl
  start_option-chosen Switch.killsig x cc good = refl
  start_option-chosen Switch.stdout x cc good = refl
  start_option-chosen Switch.status x cc good = rw (good.2) refl
  start_option-chosen Switch.uid x cc good = refl
  start_option-chosen Switch.username x cc good = refl
  start_option-chosen Switch.other x cc good = absurd (ground arith)

  options-chosen :
      (opts : List (Switch × Str)) (cc : ChildConfig)
      → All IsGood opts
      → options c (start_option c) opts cc ≡ some (chosen opts cc)
  unfolding options
  options-chosen [] cc good = refl
  options-chosen ((ch, x) ∷ later) cc good =
      rw (options, start_option-chosen ch x cc good.0)
        (options-chosen later (chosen ((ch, x) ∷ []) cc) good.1)

  -- The defaults of cmd_start, with the arguments.
  abbrev pub defaults : Str → Str → List Str → ChildConfig
  defaults name command args = record child_config_new {
    cc_name = some name;
    cc_command = some (command ∷ args);
    cc_instances = pos 1;
    cc_status = status_running;
    cc_killsig = pos 15;
  }

  -- The group that cmd_start sends has its name and its command from the arguments and each other field from the
  -- last option with the switch of that field, or else the default: one instance, running, with the killsig 15, and
  -- what child_config_new sets. The options are none that ends cmd_start.
  pub start_config-chosen :
      (opts : List (Switch × Str)) (name command : Str) (args : List Str)
      → All IsGood opts
      → start_config c opts (name ∷ command ∷ args)
        ≡ some (chosen opts (defaults name command args))
  unfolding start_config start_arguments start_new child_config_new
  start_config-chosen opts name command args good =
      rw (start_config, options-chosen opts start_new good) refl

  -- An option that does not end cmd_update, which has none for the ids.
  abbrev pub IsUpdate : Switch × Str → Type 0
  IsUpdate (ch, x) =
      IsGood (ch, x)
      × (same_switch ch Switch.uid ≡ false)
      × (same_switch ch Switch.gid ≡ false)
      × (same_switch ch Switch.username ≡ false)
      × (same_switch ch Switch.groupname ≡ false)

  -- The same without the four fields that cmd_update leaves alone.
  abbrev pub changed : List (Switch × Str) → ChildConfig → ChildConfig
  changed opts cc = record cc {
    cc_stdout = given some Switch.stdout opts cc.cc_stdout;
    cc_stderr = given some Switch.stderr opts cc.cc_stderr;
    cc_dir = given some Switch.dir opts cc.cc_dir;
    cc_heartbeat = given some Switch.heartbeat opts cc.cc_heartbeat;
    cc_fatal_cb = given some Switch.fatal opts cc.cc_fatal_cb;
    cc_instances = given (λ x. to_int (c.value x)) Switch.instances opts cc.cc_instances;
    cc_status = given (child_config_status_from_string c) Switch.status opts cc.cc_status;
    cc_killsig = given (λ x. to_int (c.value x)) Switch.killsig opts cc.cc_killsig;
    cc_age = given c.value Switch.age opts cc.cc_age;
  }

  update_option-changed :
      (ch : Switch) (x : Str) (cc : ChildConfig)
      → IsUpdate (ch, x)
      → update_option c ch x cc ≡ some (changed ((ch, x) ∷ []) cc)
  unfolding update_option status_option
  update_option-changed Switch.age x cc good = refl
  update_option-changed Switch.dir x cc good = refl
  update_option-changed Switch.stderr x cc good = refl
  update_option-changed Switch.fatal x cc good = refl
  update_option-changed Switch.gid x cc good = absurd (ground arith)
  update_option-changed Switch.groupname x cc good = absurd (ground arith)
  update_option-changed Switch.help x cc good = absurd (ground arith)
  update_option-changed Switch.heartbeat x cc good = refl
  update_option-changed Switch.instances x cc good = refl
  update_option-changed Switch.killsig x cc good = refl
  update_option-changed Switch.stdout x cc good = refl
  update_option-changed Switch.status x cc good = rw (good.0.2) refl
  update_option-changed Switch.uid x cc good = absurd (ground arith)
  update_option-changed Switch.username x cc good = absurd (ground arith)
  update_option-changed Switch.other x cc good = absurd (ground arith)

  options-changed :
      (opts : List (Switch × Str)) (cc : ChildConfig)
      → All IsUpdate opts
      → options c (update_option c) opts cc ≡ some (changed opts cc)
  unfolding options
  options-changed [] cc good = refl
  options-changed ((ch, x) ∷ later) cc good =
      rw (options, update_option-changed ch x cc good.0)
        (options-changed later (changed ((ch, x) ∷ []) cc) good.1)

  -- What cmd_update sends names the group and has in each other field what the last option with its switch asks for, or
  -- else what child_config_new sets.
  pub update_config-changed :
      (opts : List (Switch × Str)) (name : Str)
      → All IsUpdate opts
      → update_config c opts (name ∷ [])
        ≡ some (changed opts (record child_config_new { cc_name = some name }))
  unfolding update_config update_arguments child_config_new
  update_config-changed opts name good =
      rw (update_config, options-changed opts child_config_new good) refl
