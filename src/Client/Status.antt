-- ===== src/Client/Status.antt =====
-- What the client prints of the log that c_read sends, and of a status message of cmd_server.c.
use ubervisor.Common.{
  ℕ, ◌<◌, ◌≡◌, refl, sym, ap, ◌∙◌, inl, inr, arith, Bool, true, List, [], ◌∷◌, ◌++◌, some,
  if◌then◌else◌, Bool-cases, Str, str_eq, codes, length,
}
use ubervisor.Common.Int.{ℤ}
use ubervisor.Json.{JsonC, Documented}
use ubervisor.Config.RoundTrip.{Members, build, get-build, lookup, is_object-build}
use ubervisor.Server.{Server, replied, emit}
use ubervisor.Command.{Disk, send_status_msg}
use ubervisor.Command.Read.{until_nul, Files, log_reply}
use ubervisor.Wire.{Bufferevent, Socket, put, send_message}
use ubervisor.Wire.Client.{read_reply-send_message}
use ubervisor.Client.Replies.{
  off, fsize, log, server_error, answer_of, status_of, status_reply, get_status_reply,
  print_members, object_reply, read_members,
}
use ubervisor.Client.Printed.{Reads}

module _ (lib : JsonC) (doc : Documented lib) where
  abbrev log_parts : List ℕ → ℤ → ℤ → Members lib doc
  log_parts x at total =
      (codes "fsize", some (lib.json_object_new_double total))
      ∷ (codes "offset", some (lib.json_object_new_double at))
      ∷ (codes "log", some (lib.json_object_new_string (until_nul x)))
      ∷ (codes "code", some (lib.json_object_new_boolean true))
      ∷ []

  -- The object that c_read prints.
  abbrev log_object : List ℕ → ℤ → ℤ → lib.Json
  log_object x at total = build lib doc (log_parts x at total)

  -- cmd_read prints of the server's reply to READ the offset, the size of the file and the text up to a first
  -- NUL byte, in this order, with exit status 0.
  pub object_reply-log_reply :
      (files : Files) (auto_dump : Bool) (disk : Disk) (x : List ℕ) (at total : ℤ)
      → Reads lib (log_reply files lib auto_dump disk x at total) (log_object x at total)
      → object_reply lib (read_members lib) (log_reply files lib auto_dump disk x at total)
        ≡ (0, off at ∷ fsize total ∷ log (some (until_nul x)) ∷ [])
  unfolding object_reply print_members read_members str_eq
  object_reply-log_reply files auto_dump disk x at total (parses, sound) =
      let parts = log_parts x at total in
      let got = λ (k : Str) (v : lib.Json) (e : lookup lib doc k parts ≡ some v).
        get-build lib doc k parts ∙ e in
      rw (object_reply, parses)
        (rw (sound, is_object-build lib doc parts)
          (rw
            (
              print_members,
              got (codes "offset") _ refl,
              got (codes "fsize") _ refl,
              got (codes "log") _ refl,
            )
            (rw (doc.is-double at, doc.is-double total, doc.is-string (until_nul x))
              (rw (doc.get-double at, doc.get-double total, doc.get-string (until_nul x)) refl))))

  -- The object of a status message.
  abbrev pub status_object : Bool → Str → lib.Json
  status_object code msg =
      lib.json_object_object_add
        (lib.json_object_object_add lib.json_object_new_object (codes "code")
          (lib.json_object_new_boolean code))
        (codes "msg") (lib.json_object_new_string msg)

  status_reply-object :
      (code : Bool) (msg printed : Str)
      → Reads lib printed (status_object code msg)
      → status_reply lib printed ≡ (0, (if code then [] else server_error (some msg) ∷ []))
  unfolding status_reply status_of str_eq
  status_reply-object code msg printed (parses, sound) =
      let inner =
        lib.json_object_object_add lib.json_object_new_object (codes "code")
          (lib.json_object_new_boolean code) in
      let says : lib.json_object_object_get (status_object code msg) (codes "msg")
          ≡ some (lib.json_object_new_string msg) =
        doc.get-add inner (lib.json_object_new_string msg) (codes "msg") (codes "msg") in
      let coded : lib.json_object_object_get (status_object code msg) (codes "code")
          ≡ some (lib.json_object_new_boolean code) =
        doc.get-add inner (lib.json_object_new_string msg) (codes "msg") (codes "code")
        ∙ doc.get-add lib.json_object_new_object (lib.json_object_new_boolean code) (codes "code")
            (codes "code") in
      let read : status_of lib printed ≡ some (code, some msg) =
        rw (status_of, parses)
          (rw (sound, coded) (rw (says, doc.get-boolean code, doc.get-string msg) refl)) in
      rw (status_reply, read)
        (elim (Bool-cases code) [ inl good ↦ rw good refl | inr bad ↦ rw bad refl ])

  -- A status message that the server sends in full reaches a client to which it comes in one piece: get_status_reply reads it off the
  -- connection, gives the exit status 0 whether the message is one of success or of failure, and prints the
  -- message where it is one of failure. The text has no NUL byte, and json-c parses what it has printed.
  pub get_status_reply-send_status_msg :
      (mem : Bufferevent) (b b' : mem.Handle) (cid : ℕ) (auto_dump : Bool) (disk : Disk)
      (code : Bool) (msg : Str) (s : Server) (printed : Str) (later : List ℕ) (sock : Socket)
      → (send_status_msg lib auto_dump disk code msg s).events ≡ replied printed ∷ s.events
      → Reads lib (lib.json_object_to_json_string (status_object code msg)) (status_object code msg)
      → until_nul printed ≡ printed
      → 0 < length printed
      → send_message mem b cid printed ≡ some (true, b')
      → (wire : List ℕ) × (mem.output b' ≡ mem.output b ++ wire)
        × (get_status_reply lib (put (wire ++ later) sock)
            ≡ some (0, (if code then [] else server_error (some msg) ∷ [])))
  unfolding get_status_reply answer_of send_status_msg emit
  get_status_reply-send_status_msg mem b b' cid auto_dump disk code msg s printed later sock events
        reads whole some_text sent =
      let this : lib.json_object_to_json_string (status_object code msg) ≡ printed = ground arith in
      let (wire, written, read) =
        read_reply-send_message mem b b' cid printed later sock some_text sent in
      let told =
        status_reply-object code msg printed
          (ap lib.json_tokener_parse (sym this) ∙ reads.0, reads.1) in
      (wire, written, rw read (ap some (ap (status_reply lib) whole ∙ told)))
