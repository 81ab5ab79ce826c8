-- ===== src/Main.antt =====
-- main of main.c: the command that the first argument names. stat, execv and the size of the buffer belong to the C library, the
-- directory of the scripts to the build.
use ubervisor.Common.{ℕ, Bool, List, [], ◌∷◌, ◌++◌, if◌then◌else◌, Str, str_eq, codes, take}

-- What main does: a command of the program, the version, a script at a path, or the help.
pub data Chosen : Type 0 where
  cmd_server cmd_start cmd_exit cmd_delete cmd_kill cmd_update cmd_dump cmd_get cmd_list cmd_proxy :
      Chosen
  cmd_subscribe cmd_pids cmd_read print_version help : Chosen
  execv : Str → Chosen

-- The commands by their names; `script` is what is done for any other.
unfoldable pub by_name : Str → Chosen → Chosen
by_name cmd script =
    if str_eq cmd (codes "server")
    then Chosen.cmd_server
    else if str_eq cmd (codes "start")
    then Chosen.cmd_start
    else if str_eq cmd (codes "exit")
    then Chosen.cmd_exit
    else if str_eq cmd (codes "delete")
    then Chosen.cmd_delete
    else if str_eq cmd (codes "kill")
    then Chosen.cmd_kill
    else if str_eq cmd (codes "update")
    then Chosen.cmd_update
    else if str_eq cmd (codes "dump")
    then Chosen.cmd_dump
    else if str_eq cmd (codes "get")
    then Chosen.cmd_get
    else if str_eq cmd (codes "list")
    then Chosen.cmd_list
    else if str_eq cmd (codes "proxy")
    then Chosen.cmd_proxy
    else if str_eq cmd (codes "subs")
    then Chosen.cmd_subscribe
    else if str_eq cmd (codes "pids")
    then Chosen.cmd_pids
    else if str_eq cmd (codes "read")
    then Chosen.cmd_read
    else if str_eq cmd (codes "-v")
    then Chosen.print_version
    else if str_eq cmd (codes "-V")
    then Chosen.print_version
    else script

-- A script in the directory `commands`, or else in the one of the build. `room` is BUFSIZ less the NUL.
unfoldable pub script : ℕ → Str → (Str → Bool) → Str → Chosen
script room command_prefix is_there cmd =
    let near = take room (codes "./commands/ubervisor-" ++ cmd) in
    let far = take room (command_prefix ++ codes "/ubervisor-" ++ cmd) in
    let cdir = if is_there near then near else far in
    if is_there cdir then Chosen.execv cdir else Chosen.help

-- The arguments behind the name of the program.
unfoldable pub main : ℕ → Str → (Str → Bool) → List Str → Chosen
main room command_prefix is_there [] = Chosen.help
main room command_prefix is_there (cmd ∷ args) =
    by_name cmd (script room command_prefix is_there cmd)
