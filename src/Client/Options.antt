-- ===== src/Client/Options.antt =====
-- The groups that cmd_start.c and cmd_update.c make of their options and arguments. getopt_long belongs to the
-- C library: what it delivers, the options in their order and the arguments behind them, is an argument.
use ubervisor.Common.{List, [], ◌∷◌, Option, none, some, if◌then◌else◌, Str}
use ubervisor.Common.Int.{pos, minus_one, eq_ℤ, to_int}
use ubervisor.Config.{ChildConfig, child_config_new, status_running, ◌>>=◌}
use ubervisor.Config.Status.{Strtol, child_config_status_from_string}

-- The characters of the two tables, by their long names; `other` is what getopt_long gives for an option
-- that the table does not have, or that lacks its argument.
pub data Switch : Type 0 where
  age dir stderr fatal gid groupname help heartbeat instances killsig stdout status uid username
        other :
      Switch

-- The group as cmd_start begins it.
unfoldable pub start_new : ChildConfig
start_new = record child_config_new {
  cc_stdout = none;
  cc_stderr = none;
  cc_instances = pos 1;
  cc_status = status_running;
  cc_killsig = pos 15;
}

module _ (c : Strtol) where
  -- `case 's'`, where -1 is illegal.
  unfoldable pub status_option : Str → ChildConfig → Option ChildConfig
  status_option x cc =
      let code = child_config_status_from_string c x in
      if eq_ℤ code minus_one then none else some (record cc { cc_status = code })

  -- A round of the loop of cmd_update: `none` where the client prints its help or a message, and exits.
  unfoldable pub update_option : Switch → Str → ChildConfig → Option ChildConfig
  update_option age x cc = some (record cc { cc_age = c.value x })
  update_option dir x cc = some (record cc { cc_dir = some x })
  update_option stderr x cc = some (record cc { cc_stderr = some x })
  update_option fatal x cc = some (record cc { cc_fatal_cb = some x })
  update_option help x cc = none
  update_option heartbeat x cc = some (record cc { cc_heartbeat = some x })
  update_option instances x cc = some (record cc { cc_instances = to_int (c.value x) })
  update_option killsig x cc = some (record cc { cc_killsig = to_int (c.value x) })
  update_option stdout x cc = some (record cc { cc_stdout = some x })
  update_option status x cc = status_option x cc
  update_option _ x cc = none

  -- A round of the loop of cmd_start, which has four options more.
  unfoldable pub start_option : Switch → Str → ChildConfig → Option ChildConfig
  start_option age x cc = some (record cc { cc_age = c.value x })
  start_option dir x cc = some (record cc { cc_dir = some x })
  start_option stderr x cc = some (record cc { cc_stderr = some x })
  start_option fatal x cc = some (record cc { cc_fatal_cb = some x })
  start_option gid x cc = some (record cc { cc_gid = to_int (c.value x) })
  start_option groupname x cc = some (record cc { cc_groupname = some x })
  start_option help x cc = none
  start_option heartbeat x cc = some (record cc { cc_heartbeat = some x })
  start_option instances x cc = some (record cc { cc_instances = to_int (c.value x) })
  start_option killsig x cc = some (record cc { cc_killsig = to_int (c.value x) })
  start_option stdout x cc = some (record cc { cc_stdout = some x })
  start_option status x cc = status_option x cc
  start_option uid x cc = some (record cc { cc_uid = to_int (c.value x) })
  start_option username x cc = some (record cc { cc_username = some x })
  start_option other x cc = none

  -- `while ((ch = getopt_long (…)) != -1)`
  unfoldable pub options :
      (Switch → Str → ChildConfig → Option ChildConfig)
      → List (Switch × Str)
      → ChildConfig
      → Option ChildConfig
  options round [] cc = some cc
  options round ((ch, x) ∷ later) cc = round ch x cc >>= options round later

  -- `if (argc < 2) help_start ();` and the arguments.
  unfoldable pub start_arguments : List Str → ChildConfig → Option ChildConfig
  start_arguments [] cc = none
  start_arguments (name ∷ []) cc = none
  start_arguments (name ∷ command ∷ args) cc =
      some (record cc { cc_name = some name; cc_command = some (command ∷ args) })

  -- `if (argc != 1) help_update ();` and the argument.
  unfoldable pub update_arguments : List Str → ChildConfig → Option ChildConfig
  update_arguments [] cc = none
  update_arguments (name ∷ []) cc = some (record cc { cc_name = some name })
  update_arguments (name ∷ x ∷ more) cc = none

  -- The group that cmd_start sends, where it comes to that. Without any argument at all, where the code tests
  -- `argc < 2` first, there are no arguments behind the options either.
  unfoldable pub start_config : List (Switch × Str) → List Str → Option ChildConfig
  start_config opts args = options start_option opts start_new >>= start_arguments args

  -- The group that cmd_update sends.
  unfoldable pub update_config : List (Switch × Str) → List Str → Option ChildConfig
  update_config opts args = options update_option opts child_config_new >>= update_arguments args
