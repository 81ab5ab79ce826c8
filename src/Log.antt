-- ===== src/Log.antt =====
-- slog, child_read_cb and the notifications of cmd_server.c. The time stamp is an argument, json-c a parameter.
pub mod Bounds
mod Tests
use ubervisor.Common.{
  ℕ, zero, suc, ◌-◌, Bool, true, false, not, List, [], ◌∷◌, ◌++◌, Option, none, some, ltb,
  if◌then◌else◌, Str, codes, length, take, set,
}
use ubervisor.Common.Int.{ℤ}
use ubervisor.Json.{JsonC}
use ubervisor.Config.{ChildConfig, child_config_serialize}
use ubervisor.Subscription.{subs_server, subs_status, subs_group_cfg}
use ubervisor.Command.Read.{until_nul}

abbrev pub buffer_siz : ℕ
buffer_siz = 2048

-- A line of slog: the bytes that fwrite puts into the log, and the text that the clients are sent.
pub record Entry : Type 0 where
  pub bytes : List ℕ
  pub told : Str

-- What snprintf leaves in a buffer of `n` bytes, before its NUL.
abbrev pub buffered : ℕ → Str → Str
buffered zero x = []
buffered (suc n) x = take n x

-- `"%s -- %s"`
abbrev pub stamped : Str → Str → Str
stamped ts msg = ts ++ codes " -- " ++ buffered buffer_siz msg

-- `out` where the line is too long: a newline in front of its NUL.
unfoldable pub cut : Str → Str
cut x = set (buffered buffer_siz x) (buffer_siz - 2) 10

-- slog with the text that its format gives, the entries in their order. A line that is too long is
-- announced by a slog of its own, so it is on fuel; fwrite then writes BUFFER_SIZ bytes, the NUL among them.
unfoldable pub slog : ℕ → Str → Str → Option (List Entry)
slog zero ts msg = none
slog (suc fuel) ts msg =
    let x = stamped ts msg in
    let announced = slog fuel ts (codes "too big log message is being truncated.\n") in
    if ltb (length x) buffer_siz
    then some (record { bytes = x; told = x } ∷ [])
    else elim announced [
      | none ↦ none
      | some l ↦ some (l ++ record { bytes = cut x ++ 0 ∷ []; told = cut x } ∷ [])
    ]

-- `bufferevent_read (b, buf, sizeof (buf) - 1)` and slog, on what the pipe of a child holds.
unfoldable pub child_read_cb : ℕ → Str → List ℕ → Option (List Entry)
child_read_cb fuel ts [] = some []
child_read_cb fuel ts (c ∷ held) = slog fuel ts (until_nul (take 1023 (c ∷ held)))

module _ (lib : JsonC) where
  -- The subscribers that are told, and the text.
  unfoldable pub send_log_notification : Str → ℕ × Str
  send_log_notification msg = (
    subs_server,
    lib.json_object_to_json_string (
        lib.json_object_object_add lib.json_object_new_object (codes "msg")
          (lib.json_object_new_string msg)),
  )

  unfoldable pub status_object : Str → ℤ → lib.Json
  status_object name status =
      lib.json_object_object_add
        (lib.json_object_object_add lib.json_object_new_object (codes "name")
          (lib.json_object_new_string name))
        (codes "status") (lib.json_object_new_int status)

  unfoldable pub send_status_update_notification : Str → ℤ → ℕ × Str
  send_status_update_notification name status =
      (subs_status, lib.json_object_to_json_string (status_object name status))

  unfoldable pub send_group_cfg_update_notification : ChildConfig → ℕ × Str
  send_group_cfg_update_notification cc = (subs_group_cfg, child_config_serialize lib cc)
