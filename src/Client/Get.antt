-- ===== src/Client/Get.antt =====
-- cmd_get of the client's cmd_get.c, from its options to its exit.
use ubervisor.Common.{
  Bool, true, false, List, [], ◌∷◌, Option, none, some, if◌then◌else◌, Str, codes,
}
use ubervisor.Json.{JsonC}
use ubervisor.Wire.{read_reply}
use ubervisor.Client.{name_object}
use ubervisor.Client.Replies.{raw, Ended, fail, answer_of, Member, object_reply, getstr, getint}
use ubervisor.Client.Exchange.{Connection, exchange, no_server, help, print}

-- The flags that cmd_get takes from its options.
pub record Wanted : Type 0 where
  pub dump : Bool
  pub get_stdout : Bool
  pub get_stderr : Bool
  pub get_dir : Bool
  pub get_heartbeat : Bool
  pub get_fatal : Bool
  pub get_username : Bool
  pub get_groupname : Bool
  pub get_age : Bool
  pub get_uid : Bool
  pub get_gid : Bool
  pub get_status : Bool
  pub get_instances : Bool
  pub get_killsig : Bool

-- The options of cmd_get, by their long names; `raw_reply` is `--dump`.
pub data GetSwitch : Type 0 where
  age dir raw_reply stderr fatal gid groupname help_or_other heartbeat instances killsig stdout
        status uid username :
      GetSwitch

-- The flags before the options.
unfoldable pub nothing_wanted : Wanted
nothing_wanted = record {
  dump = false;
  get_stdout = false;
  get_stderr = false;
  get_dir = false;
  get_heartbeat = false;
  get_fatal = false;
  get_username = false;
  get_groupname = false;
  get_age = false;
  get_uid = false;
  get_gid = false;
  get_status = false;
  get_instances = false;
  get_killsig = false;
}

module _ (lib : JsonC) where
  -- The members that cmd_get prints.
  unfoldable pub get_members : Wanted → List (Member lib)
  get_members w = getstr lib (codes "stdout") w.get_stdout (
      getstr lib (codes "stderr") w.get_stderr (
        getstr lib (codes "dir") w.get_dir (
          getstr lib (codes "heartbeat") w.get_heartbeat (
            getstr lib (codes "fatal_cb") w.get_fatal (
              getstr lib (codes "username") w.get_username (
                getstr lib (codes "groupname") w.get_groupname (
                  getint lib (codes "age") w.get_age (
                    getint lib (codes "uid") w.get_uid (
                      getint lib (codes "gid") w.get_gid (
                        getint lib (codes "status") w.get_status (
                          getint lib (codes "instances") w.get_instances
                            (getint lib (codes "killsig") w.get_killsig []))))))))))))

  unfoldable pub get_reply : Wanted → Str → Ended
  get_reply w buf = if w.dump then (0, raw buf ∷ []) else object_reply lib (get_members w) buf

  -- A round of the loop over the options of cmd_get: `none` where it prints its help.
  unfoldable pub get_option : GetSwitch → Wanted → Option Wanted
  get_option age w = some (record w { get_age = true })
  get_option dir w = some (record w { get_dir = true })
  get_option raw_reply w = some (record w { dump = true })
  get_option stderr w = some (record w { get_stderr = true })
  get_option fatal w = some (record w { get_fatal = true })
  get_option gid w = some (record w { get_gid = true })
  get_option groupname w = some (record w { get_groupname = true })
  get_option help_or_other w = none
  get_option heartbeat w = some (record w { get_heartbeat = true })
  get_option instances w = some (record w { get_instances = true })
  get_option killsig w = some (record w { get_killsig = true })
  get_option stdout w = some (record w { get_stdout = true })
  get_option status w = some (record w { get_status = true })
  get_option uid w = some (record w { get_uid = true })
  get_option username w = some (record w { get_username = true })

  unfoldable pub get_options : List GetSwitch → Wanted → Option Wanted
  get_options [] w = some w
  get_options (ch ∷ later) w = elim (get_option ch w) [ none ↦ none | some v ↦ get_options later v ]

  unfoldable pub get_arguments : Wanted → List Str → Option Connection → Option Ended
  get_arguments w (name ∷ []) con =
      exchange (codes "GETC") (print lib (name_object lib name)) no_server
        (fail (codes "failed to send command."))
        (λ sock. answer_of (fail (codes "failed to read reply.")) (get_reply w) (read_reply sock))
        con
  get_arguments w [] con = some help
  get_arguments w (name ∷ x ∷ more) con = some help

  unfoldable pub cmd_get : List GetSwitch → List Str → Option Connection → Option Ended
  cmd_get opts args con = elim (get_options opts nothing_wanted) [
    | none ↦ some help
    | some w ↦ get_arguments w args con
  ]
