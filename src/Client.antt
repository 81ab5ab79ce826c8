-- ===== src/Client.antt =====
-- The objects that the client's commands send: cmd_read.c, cmd_kill.c, cmd_subscribe.c, and cmd_delete.c,
-- cmd_get.c and cmd_pids.c, which send a name.
pub mod Options
pub mod Commands
pub mod Delivered
pub mod Exchange
pub mod Get
pub mod Given
pub mod Lists
pub mod Printed
pub mod Status
pub mod Subscribe
pub mod Replies
pub mod Requests
pub mod Start
mod DeliveredTests
mod Tests
use ubervisor.Common.{ℕ, Str, codes}
use ubervisor.Common.Int.{ℤ}
use ubervisor.Json.{JsonC}
use ubervisor.Config.{add_int}

module _ (lib : JsonC) where
  -- `json_object_object_add (obj, "name", json_object_new_string (argv[0]))`
  unfoldable pub name_object : Str → lib.Json
  name_object name =
      lib.json_object_object_add lib.json_object_new_object (codes "name")
        (lib.json_object_new_string name)

  unfoldable pub read_object : Str → ℤ → ℤ → ℤ → ℤ → lib.Json
  read_object name stream off bytes inst =
      let o₁ =
        lib.json_object_object_add lib.json_object_new_object (codes "bytes")
          (lib.json_object_new_int bytes) in
      let o₂ = lib.json_object_object_add o₁ (codes "stream") (lib.json_object_new_int stream) in
      let o₃ = lib.json_object_object_add o₂ (codes "name") (lib.json_object_new_string name) in
      let o₄ = lib.json_object_object_add o₃ (codes "instance") (lib.json_object_new_int inst) in
      lib.json_object_object_add o₄ (codes "offset") (lib.json_object_new_double off)

  -- A signal and an index of -1 are not sent.
  unfoldable pub kill_object : Str → ℤ → ℤ → lib.Json
  kill_object name sig idx =
      add_int lib (codes "index") idx (add_int lib (codes "sig") sig (name_object name))

  unfoldable pub subscribe_object : ℤ → lib.Json
  subscribe_object ident =
      lib.json_object_object_add lib.json_object_new_object (codes "ident")
        (lib.json_object_new_int ident)
