-- ===== src/Client/Requests.antt =====
-- What the server's commands read in the objects that the client sends.
use ubervisor.Common.{
  ℕ, ◌≡◌, refl, sym, ap, ◌∙◌, inl, inr, Bool, true, false, [], ◌∷◌, Option, none, some,
  if◌then◌else◌, Bool-cases, Str, str_eq, codes,
}
use ubervisor.Common.Int.{ℤ, minus_one, eq_ℤ, eq_ℤ→eq}
use ubervisor.Json.{JsonType, JsonC, Documented}
use ubervisor.Config.RoundTrip.{
  Members, build, or_else, lookup, int_value, text_value, get-build, add_int-put, or_none,
  is_object-build,
}
use ubervisor.Config.{ChildConfig}
use ubervisor.Server.{Server}
use ubervisor.Command.{Disk, parse_name, parse_object, child_config_find_by_name}
use ubervisor.Command.Pids.{int_or}
use ubervisor.Command.Subs.{parse_int}
use ubervisor.Command.Read.{
  Files, ReadRequest, parse_offset, parse_read, out_of_bounds, read_group, c_read,
}
use ubervisor.Client.Printed.{Reads}
use ubervisor.Client.{name_object, read_object, kill_object}

module _ (lib : JsonC) (doc : Documented lib) (auto_dump : Bool) (disk : Disk) where
  parse_int-int :
      (o : lib.Json) (k : Str) (n : ℤ)
      → lib.json_object_object_get o k ≡ some (lib.json_object_new_int n)
      → parse_int lib auto_dump disk o k ≡ some n
  unfolding parse_int
  parse_int-int o k n e = rw (parse_int, e) (rw (doc.is-int n, doc.get-int n) refl)

  parse_name-string :
      (o : lib.Json) (name : Str)
      → lib.json_object_object_get o (codes "name") ≡ some (lib.json_object_new_string name)
      → parse_name lib auto_dump disk o ≡ some name
  unfolding parse_name
  parse_name-string o name e =
      rw (parse_name, e) (rw (doc.is-string name, doc.get-string name) refl)

  -- A number that is sent unless it is -1 is read, or else the default.
  int_or-value :
      (o : lib.Json) (k : Str) (n old : ℤ)
      → lib.json_object_object_get o k ≡ int_value lib doc n
      → int_or lib auto_dump disk o k old ≡ (if eq_ℤ n minus_one then old else n)
  unfolding int_or
  int_or-value o k n old e = elim (Bool-cases (eq_ℤ n minus_one)) [
    | inl unset ↦ rw (int_or, e) (rw unset refl)
    | inr set_to ↦ rw (int_or, e) (rw set_to (rw (doc.is-int n, doc.get-int n) refl))
  ]

  module _ (name : Str) (sig idx : ℤ) where
    abbrev kill_members : Members lib doc
    kill_members =
        (codes "index", int_value lib doc idx)
        ∷ (codes "sig", int_value lib doc sig)
        ∷ (codes "name", text_value lib doc (some name))
        ∷ []

    cmd_kill-build : kill_object lib name sig idx ≡ build lib doc kill_members
    unfolding kill_object name_object
    cmd_kill-build = simp (add_int-put lib doc)

    kill_member :
        (k : Str) (v : Option lib.Json)
        → lookup lib doc k kill_members ≡ or_else lib doc v none
        → lib.json_object_object_get (kill_object lib name sig idx) k ≡ v
    kill_member k v e =
        ap (λ o. lib.json_object_object_get o k) cmd_kill-build
        ∙ get-build lib doc k kill_members
        ∙ e
        ∙ or_none lib doc v

    unset_index : (if eq_ℤ idx minus_one then minus_one else idx) ≡ idx
    unset_index = elim (Bool-cases (eq_ℤ idx minus_one)) [
      | inl unset ↦ rw unset (sym (eq_ℤ→eq idx minus_one unset))
      | inr set_to ↦ rw set_to refl
    ]

    -- c_kill reads of what cmd_kill sends the same name, the signal and the index, or where they are -1 its
    -- own defaults.
    pub parse_name-cmd_kill :
        (old : ℤ)
        → (parse_name lib auto_dump disk (kill_object lib name sig idx) ≡ some name)
          × (int_or lib auto_dump disk (kill_object lib name sig idx) (codes "sig") old
              ≡ (if eq_ℤ sig minus_one then old else sig))
          × (int_or lib auto_dump disk (kill_object lib name sig idx) (codes "index") minus_one
              ≡ idx)
    unfolding str_eq
    parse_name-cmd_kill old = (
      parse_name-string _ name (kill_member (codes "name") (text_value lib doc (some name)) refl),
      int_or-value _ (codes "sig") sig old (kill_member (codes "sig") (int_value lib doc sig) refl),
      int_or-value _ (codes "index") idx minus_one
            (kill_member (codes "index") (int_value lib doc idx) refl)
          ∙ unset_index,
    )

  module _ (files : Files) (name : Str) (stream off bytes inst : ℤ) where
    abbrev sent : lib.Json
    sent = read_object lib name stream off bytes inst

    abbrev read_members : Members lib doc
    read_members =
        (codes "offset", some (lib.json_object_new_double off))
        ∷ (codes "instance", some (lib.json_object_new_int inst))
        ∷ (codes "name", some (lib.json_object_new_string name))
        ∷ (codes "stream", some (lib.json_object_new_int stream))
        ∷ (codes "bytes", some (lib.json_object_new_int bytes))
        ∷ []

    read_member :
        (k : Str) (v : lib.Json)
        → lookup lib doc k read_members ≡ some v
        → lib.json_object_object_get sent k ≡ some v
    unfolding read_object
    read_member k v e = get-build lib doc k read_members ∙ e

    parse_offset-double : parse_offset files lib auto_dump disk sent ≡ some off
    unfolding parse_offset str_eq
    parse_offset-double =
        rw (parse_offset, read_member (codes "offset") _ refl)
          (rw (doc.is-double off, doc.get-double off) refl)

    -- c_read reads of what cmd_read sends the same name, stream, offset, number of bytes and instance.
    pub parse_read-cmd_read :
        parse_read files lib auto_dump disk sent
        ≡ some (record { name = name; stream = stream; offset = off; bytes = bytes; inst = inst })
    unfolding parse_read str_eq
    parse_read-cmd_read =
        rw
          (
            parse_read,
            parse_name-string sent name (read_member (codes "name") _ refl),
            parse_int-int sent (codes "stream") stream (read_member (codes "stream") _ refl),
            parse_offset-double,
            parse_int-int sent (codes "bytes") bytes (read_member (codes "bytes") _ refl),
            parse_int-int sent (codes "instance") inst (read_member (codes "instance") _ refl),
          )
          refl

    abbrev pub request : ReadRequest
    request = record { name = name; stream = stream; offset = off; bytes = bytes; inst = inst }

    object : lib.json_object_is_type sent JsonType.object ≡ true
    unfolding read_object
    object = is_object-build lib doc read_members

    -- The text of the object that cmd_read sends reaches c_read as the same name, stream, offset, number of bytes
    -- and instance, where json-c parses what it has printed for that object: where they are within the bounds and the
    -- group is there, c_read answers for just these, and the connection is kept.
    pub c_read-read_object :
        (c : ℕ) (cc : ChildConfig) (s : Server)
        → Reads lib (lib.json_object_to_json_string sent) sent
        → out_of_bounds request ≡ false
        → child_config_find_by_name name s ≡ some c
        → s.configs c ≡ some cc
        → c_read files lib auto_dump disk (lib.json_object_to_json_string sent) s
          ≡ (true, read_group files lib auto_dump disk request cc s)
    unfolding c_read parse_object
    c_read-read_object c cc s (parses, sound) inside there group =
        rw (c_read, parse_object, parses)
          (rw (sound, object) (rw (parse_read-cmd_read, inside, there, group) refl))
