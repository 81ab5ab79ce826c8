-- ===== src/Client/Replies.antt =====
-- What the client's commands make of a reply: get_status_reply and sock_send_helo of client.c, the printing of
-- cmd_delete.c, cmd_kill.c, cmd_pids.c, cmd_list.c, cmd_get.c and cmd_read.c.
use ubervisor.Common.{
  ℕ, zero, suc, Bool, true, false, not, List, [], ◌∷◌, Option, none, some, if◌then◌else◌, Str,
  codes,
}
use ubervisor.Common.Int.{ℤ, pos}
use ubervisor.Json.{JsonType, JsonC}
use ubervisor.Wire.{Reply, Socket, read_reply}
use ubervisor.Command.Read.{until_nul}

-- A line that the client prints: a string or a number of a reply, what cmd_read prints, the reply itself, the usage (or that
-- a status is illegal), or a message on stderr.
pub data Line : Type 0 where
  text : Option Str → Line
  number : ℤ → Line
  off : ℤ → Line
  fsize : ℤ → Line
  log : Option Str → Line
  raw : Str → Line
  usage : Line
  error : Str → Line
  server_error : Option Str → Line

-- The exit status and the lines that have been printed.
abbrev pub Ended : Type 0
Ended = ℕ × List Line

-- A failure with one message.
abbrev pub fail : Str → Ended
fail msg = (1, error msg ∷ [])

-- A line, and then the rest.
abbrev pub line_and : Line → Ended → Ended
line_and l (code, lines) = (code, l ∷ lines)

-- What follows read_reply, where NULL is `failed`.
unfoldable pub answer_of : Ended → (Str → Ended) → Option (Reply (List ℕ)) → Option Ended
answer_of failed f none = none
answer_of failed f (some Reply.null) = some failed
answer_of failed f (some (Reply.reply buf sock)) = some (f (until_nul buf))

module _ (lib : JsonC) where
  -- The members "code" and "msg" of a reply, where all of it is there.
  unfoldable pub status_of : Str → Option (Bool × Option Str)
  status_of buf = elim (lib.json_tokener_parse buf) [
    | none ↦ none
    | some obj ↦
        if lib.is_error obj then none else elim (lib.json_object_object_get obj (codes "code")) [
          | none ↦ none
          | some m ↦ elim (lib.json_object_object_get obj (codes "msg")) [
            | none ↦ none
            | some msg ↦ some (lib.json_object_get_boolean m, lib.json_object_get_string msg)
          ]
        ]
  ]

  -- get_status_reply behind read_reply.
  unfoldable pub status_reply : Str → Ended
  status_reply buf = elim (status_of buf) [
    | none ↦ fail (codes "Failed to parse reply.")
    | some (code, msg) ↦ if code then (0, []) else (0, server_error msg ∷ [])
  ]

  unfoldable pub get_status_reply : Socket → Option Ended
  get_status_reply sock =
      answer_of (fail (codes "Failed to parse reply.")) status_reply (read_reply sock)

  -- `n` elements of the array of the pids from the index `i` on. json_object_get_int gives 0 for NULL.
  unfoldable pub print_pids : lib.Json → ℕ → ℕ → List Line
  print_pids a i zero = []
  print_pids a i (suc n) =
      let rest = print_pids a (suc i) n in
      elim (lib.json_object_array_get_idx a i) [
        | none ↦ number (pos 0) ∷ rest
        | some e ↦ number (lib.json_object_get_int e) ∷ rest
      ]

  -- The end of cmd_delete, cmd_kill and cmd_pids, which differ in the message `failed`.
  unfoldable pub pids_reply : Str → Str → Ended
  pids_reply failed buf = elim (lib.json_tokener_parse buf) [
    | none ↦ fail (codes "Failed to parse reply.")
    | some obj ↦ elim (lib.json_object_object_get obj (codes "code")) [
      | none ↦ fail (codes "Failed to parse reply.")
      | some m ↦
          if not (lib.json_object_get_boolean m)
          then fail failed
          else elim (lib.json_object_object_get obj (codes "pids")) [
            | none ↦ fail (codes "Failed to parse reply.")
            | some a ↦ (0, print_pids a 0 (lib.json_object_array_length a))
          ]
    ]
  ]

  -- The loop of cmd_list, with `n` elements left from the index `i` on.
  unfoldable pub print_names : lib.Json → ℕ → ℕ → Ended
  print_names a i zero = (0, [])
  print_names a i (suc n) =
      let rest = print_names a (suc i) n in
      elim (lib.json_object_array_get_idx a i) [
        | none ↦ fail (codes "Failed to parse reply.")
        | some x ↦ line_and (text (lib.json_object_get_string x)) rest
      ]

  unfoldable pub list_reply : Str → Ended
  list_reply buf = elim (lib.json_tokener_parse buf) [
    | none ↦ fail (codes "Failed to parse reply.")
    | some a ↦
        if not (lib.json_object_is_type a JsonType.array)
        then fail (codes "Failed to parse reply.")
        else print_names a 0 (lib.json_object_array_length a)
  ]

  -- A member that is to be printed: its key, its type, and how it is printed.
  abbrev pub Member : Type 0
  Member = Str × JsonType × (lib.Json → Line)

  -- The members in their order, until one is missing or of another type.
  unfoldable pub print_members : List Member → lib.Json → Ended
  print_members [] obj = (0, [])
  print_members ((k, t, f) ∷ later) obj =
      let rest = print_members later obj in
      elim (lib.json_object_object_get obj k) [
        | none ↦ fail (codes "failed.")
        | some n ↦
            if not (lib.json_object_is_type n t)
            then fail (codes "failed.")
            else line_and (f n) rest
      ]

  -- The object in a reply that cmd_get and cmd_read print the members of.
  unfoldable pub object_reply : List Member → Str → Ended
  object_reply l buf = elim (lib.json_tokener_parse buf) [
    | none ↦ fail (codes "failed.")
    | some obj ↦
        if lib.is_error obj
        then fail (codes "failed.")
        else if not (lib.json_object_is_type obj JsonType.object)
        then fail (codes "failed.")
        else print_members l obj
  ]

  unfoldable pub read_members : List Member
  read_members =
      (codes "offset", JsonType.double, λ n. off (lib.json_object_get_double n))
      ∷ (codes "fsize", JsonType.double, λ n. fsize (lib.json_object_get_double n))
      ∷ (codes "log", JsonType.string, λ n. log (lib.json_object_get_string n))
      ∷ []

  -- `GETSTR (X, Y)` and `GETINT (X, Y)`
  unfoldable pub getstr : Str → Bool → List Member → List Member
  getstr k true l = (k, JsonType.string, λ n. text (lib.json_object_get_string n)) ∷ l
  getstr k false l = l

  unfoldable pub getint : Str → Bool → List Member → List Member
  getint k true l = (k, JsonType.int, λ n. number (lib.json_object_get_int n)) ∷ l
  getint k false l = l
