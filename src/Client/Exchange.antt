-- ===== src/Client/Exchange.antt =====
-- A request of the client and its reply. The connection that sock_connect makes is an argument.
use ubervisor.Common.{[], ◌∷◌, Option, none, some, if◌then◌else◌, Str, codes}
use ubervisor.Json.{JsonC}
use ubervisor.Wire.{Socket}
use ubervisor.Request.{Sink, sock_send_command}
use ubervisor.Client.Replies.{usage, error, Ended, fail}

-- A connection to the server: what takes the writes, and what the reads give.
pub record Connection : Type 0 where
  pub out : Sink
  pub back : Socket

-- die ("Failed to connect server")
abbrev pub no_server : Ended
no_server = fail (codes "Failed to connect server")

-- A request, and what follows the reply; `lost` is the end where sock_connect fails, `unsent` that where the
-- request cannot be written.
unfoldable pub exchange :
    Str → Option Str → Ended → Ended → (Socket → Option Ended) → Option Connection → Option Ended
exchange cmd pl lost unsent f none = some lost
exchange cmd pl lost unsent f (some con) =
    if (sock_send_command cmd pl con.out).0 then f con.back else some unsent

-- cmd_kill and cmd_pids go on where the request cannot be written, behind a message.
unfoldable pub exchange_on :
    Str → Option Str → (Socket → Option Ended) → Option Connection → Option Ended
exchange_on cmd pl f none = some no_server
exchange_on cmd pl f (some con) =
    if (sock_send_command cmd pl con.out).0 then f con.back else elim (f con.back) [
      | none ↦ none
      | some end ↦ some (end.0, error (codes "command failed") ∷ end.1)
    ]

-- The help of a command, and its exit.
abbrev pub help : Ended
help = (1, usage ∷ [])

module _ (lib : JsonC) where
  -- `json_object_to_json_string (obj)`
  abbrev pub print : lib.Json → Option Str
  print o = some (lib.json_object_to_json_string o)
