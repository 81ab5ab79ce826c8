-- ===== src/Command/Read.antt =====
-- c_read of cmd_server.c, which reads from the log of a child.
use ubervisor.Common.{
  ℕ, ◌-◌, ◌≤◌, ◌<◌, ◌≡◌, Bool, true, false, not, ◌||◌, List, [], ◌∷◌, Option, none, some, ◌==◌,
  if◌then◌else◌, Str, codes, length, take, drop,
}
use ubervisor.Common.Int.{ℤ, pos, eq_ℤ, lt_ℤ, to_ℕ, minus_one, neg}
use ubervisor.Json.{JsonType, JsonC}
use ubervisor.Config.{ChildConfig, ◌>>=◌}
use ubervisor.Child.{replace_str, instance_str}
use ubervisor.Server.{Server, emit, replied}
use ubervisor.Command.{Disk, parse_object, parse_name, send_status_msg, child_config_find_by_name}
use ubervisor.Command.Subs.{parse_int}

pub data Whence : Type 0 where
  seek_set seek_end : Whence

-- The calls on files. `none` is the -1 of open and of read.
pub record Files : Type 1 where
  pub Fd : Type 0
  pub open_file : Str → Option Fd
  pub lseek : Fd → ℤ → Whence → ℤ × Fd
  pub read_file : Fd → ℕ → Option (List ℕ) × Fd

-- What lseek(2) and read(2) say of a regular file that is `contents`, at a position in it. A seek to
-- before the start fails and changes nothing.
pub record Posix (files : Files) : Type 0 where
  pub contents : files.Fd → List ℕ
  pub position : files.Fd → ℕ
  pub lseek-set :
      (fd : files.Fd) (n : ℕ)
      → ((files.lseek fd (pos n) Whence.seek_set).0 ≡ pos n)
        × (position (files.lseek fd (pos n) Whence.seek_set).1 ≡ n)
  pub lseek-end :
      (fd : files.Fd) (n : ℕ)
      → n ≤ length (contents fd)
      → ((files.lseek fd (neg n) Whence.seek_end).0 ≡ pos (length (contents fd) - n))
        × (position (files.lseek fd (neg n) Whence.seek_end).1 ≡ length (contents fd) - n)
  pub lseek-before :
      (fd : files.Fd) (n : ℕ)
      → length (contents fd) < n
      → files.lseek fd (neg n) Whence.seek_end ≡ (minus_one, fd)
  pub lseek-contents :
      (fd : files.Fd) (off : ℤ) (whence : Whence)
      → contents (files.lseek fd off whence).1 ≡ contents fd
  pub read-contents :
      (fd : files.Fd) (n : ℕ) (x : List ℕ)
      → (files.read_file fd n).0 ≡ some x
      → x ≡ take n (drop (position fd) (contents fd))

-- The members of a request.
pub record ReadRequest : Type 0 where
  pub name : Str
  pub stream : ℤ
  pub offset : ℤ
  pub bytes : ℤ
  pub inst : ℤ

-- The string in a buffer that a NUL was written behind.
unfoldable pub until_nul : List ℕ → Str
until_nul [] = []
until_nul (c ∷ x) = let rest = until_nul x in if c == 0 then [] else c ∷ rest

-- `sizeof (readbuf) - 1`
abbrev pub read_max : ℕ
read_max = 16383

-- `(stream < 1 || stream > 2) || (bytes < 0 || bytes > (int) (sizeof (readbuf) - 1))`
unfoldable pub out_of_bounds : ReadRequest → Bool
out_of_bounds q =
    (lt_ℤ q.stream (pos 1) || lt_ℤ (pos 2) q.stream)
    || (lt_ℤ q.bytes (pos 0) || lt_ℤ (pos read_max) q.bytes)

-- The name of the log, NULL where the stream is not logged.
unfoldable pub log_file : ℤ → ChildConfig → Option Str
log_file stream cc =
    if eq_ℤ stream (pos 1) then cc.cc_stdout else if eq_ℤ stream (pos 2) then cc.cc_stderr else none

module _ (files : Files) where
  open files use {Fd, open_file, lseek, read_file}

  -- The second lseek.
  unfoldable pub seek : Fd → ℤ → ℕ → ℤ × Fd
  seek fd off bytes =
      if lt_ℤ off (pos 0)
      then lseek fd (neg bytes) Whence.seek_end
      else lseek fd off Whence.seek_set

  -- What is read, the offset and the size of the file: `none` where read fails.
  unfoldable pub read_from : Fd → ℤ → ℕ → Option (List ℕ × ℤ × ℤ)
  read_from fd off bytes =
      let size = lseek fd (pos 0) Whence.seek_end in
      let sought = seek size.1 off bytes in
      elim (read_file sought.1 bytes).0 [ none ↦ none | some x ↦ some (x, sought.0, size.0) ]

  module _ (lib : JsonC) (auto_dump : Bool) (disk : Disk) where
    unfoldable pub parse_offset : lib.Json → Option ℤ
    parse_offset obj = elim (lib.json_object_object_get obj (codes "offset")) [
      | none ↦ none
      | some m ↦
          if not (lib.json_object_is_type m JsonType.double)
          then none
          else some (lib.json_object_get_double m)
    ]

    unfoldable pub parse_read : lib.Json → Option ReadRequest
    parse_read obj = do
      name ← parse_name lib auto_dump disk obj
      stream ← parse_int lib auto_dump disk obj (codes "stream")
      offset ← parse_offset obj
      bytes ← parse_int lib auto_dump disk obj (codes "bytes")
      inst ← parse_int lib auto_dump disk obj (codes "instance")
      some (record { name = name; stream = stream; offset = offset; bytes = bytes; inst = inst })

    unfoldable pub log_reply : List ℕ → ℤ → ℤ → Str
    log_reply x off fsize =
        let obj =
          lib.json_object_object_add lib.json_object_new_object (codes "code")
            (lib.json_object_new_boolean true) in
        let obj₂ =
          lib.json_object_object_add obj (codes "log") (lib.json_object_new_string (until_nul x)) in
        let obj₃ =
          lib.json_object_object_add obj₂ (codes "offset") (lib.json_object_new_double off) in
        let obj₄ =
          lib.json_object_object_add obj₃ (codes "fsize") (lib.json_object_new_double fsize) in
        lib.json_object_to_json_string obj₄

    unfoldable pub read_log : ReadRequest → Fd → Server → Server
    read_log q fd s = elim (read_from fd q.offset (to_ℕ q.bytes)) [
      | none ↦ send_status_msg lib auto_dump disk false (codes "read failed.") s
      | some got ↦ emit (replied (log_reply got.0 got.1 got.2)) s
    ]

    -- c_read behind the lookup of the group.
    unfoldable pub read_group : ReadRequest → ChildConfig → Server → Server
    read_group q cc s =
        if lt_ℤ q.inst (pos 0) || not (lt_ℤ q.inst cc.cc_instances)
        then send_status_msg lib auto_dump disk false (codes "instance out of bounds.") s
        else elim (log_file q.stream cc) [
          | none ↦ send_status_msg lib auto_dump disk false (codes "stream is not logged.") s
          | some fn ↦
              elim (open_file (replace_str fn (codes "%(NUM)") (instance_str (to_ℕ q.inst)))) [
                | none ↦ send_status_msg lib auto_dump disk false (codes "can't open logfile.") s
                | some fd ↦ read_log q fd s
              ]
        ]

    unfoldable pub c_read : Str → Server → Bool × Server
    c_read buf s = elim (parse_object lib auto_dump disk buf) [
      | none ↦ (false, send_status_msg lib auto_dump disk false (codes "failure") s)
      | some obj ↦ elim (parse_read obj) [
        | none ↦ (false, send_status_msg lib auto_dump disk false (codes "failure") s)
        | some q ↦
            if out_of_bounds q
            then (
              false,
              send_status_msg lib auto_dump disk false (codes "parameters out of bounds.") s,
            )
            else elim (child_config_find_by_name q.name s) [
              | none ↦ (true, send_status_msg lib auto_dump disk false (codes "no such group.") s)
              | some c ↦ elim (s.configs c) [
                | none ↦ (true, s)
                | some cc ↦ (true, read_group q cc s)
              ]
            ]
      ]
    ]
