-- ===== src/Client/Printed.antt =====
-- What cmd_get prints of the group that c_getc of cmd_server.c sends.
use ubervisor.Common.{
  ◌≡◌, refl, inl, inr, arith, Bool, true, false, not, List, [], ◌∷◌, Option, none, some,
  if◌then◌else◌, Bool-cases, Str, str_eq, codes,
}
use ubervisor.Common.Int.{ℤ, minus_one, eq_ℤ, to_int}
use ubervisor.Json.{JsonC, Documented}
use ubervisor.Config.{ChildConfig, to_json, child_config_serialize}
use ubervisor.Config.RoundTrip.{member_at, text_value, int_value, age_value, is_object-to_json}
use ubervisor.Client.Replies.{
  Line, text, number, raw, Ended, fail, line_and, Member, print_members, object_reply, getstr,
  getint,
}
use ubervisor.Client.Get.{Wanted, get_members, get_reply}

-- json-c parses the text of an object or an array that it has printed.
abbrev pub Reads : (lib : JsonC) → Str → lib.Json → Type 0
Reads lib printed o = (lib.json_tokener_parse printed ≡ some o) × (lib.is_error o ≡ false)

module _ (lib : JsonC) (doc : Documented lib) where
  -- The lines that are asked for of a group, in their order, until one is not there.
  abbrev shown : List (Bool × Option Line) → Ended
  shown [] = (0, [])
  shown ((false, l) ∷ later) = shown later
  shown ((true, none) ∷ later) = fail (codes "failed.")
  shown ((true, some l) ∷ later) = line_and l (shown later)

  -- A string of a group, and a number that is not -1, as a line.
  abbrev text_line : Option Str → Option Line
  text_line none = none
  text_line (some x) = some (text (some x))

  abbrev number_line : ℤ → Option Line
  number_line n = if not (eq_ℤ n minus_one) then some (number n) else none

  -- An age, which is cut to 32 bits on its way.
  abbrev age_line : ℤ → Option Line
  age_line n = if not (eq_ℤ n minus_one) then some (number (to_int n)) else none

  abbrev lines_of : Wanted → ChildConfig → List (Bool × Option Line)
  lines_of w cc =
      (w.get_stdout, text_line cc.cc_stdout)
      ∷ (w.get_stderr, text_line cc.cc_stderr)
      ∷ (w.get_dir, text_line cc.cc_dir)
      ∷ (w.get_heartbeat, text_line cc.cc_heartbeat)
      ∷ (w.get_fatal, text_line cc.cc_fatal_cb)
      ∷ (w.get_username, text_line cc.cc_username)
      ∷ (w.get_groupname, text_line cc.cc_groupname)
      ∷ (w.get_age, age_line cc.cc_age)
      ∷ (w.get_uid, number_line cc.cc_uid)
      ∷ (w.get_gid, number_line cc.cc_gid)
      ∷ (w.get_status, number_line cc.cc_status)
      ∷ (w.get_instances, number_line cc.cc_instances)
      ∷ (w.get_killsig, number_line cc.cc_killsig)
      ∷ []

  getstr-shown :
      (o : lib.Json) (k : Str) (w : Bool) (x : Option Str) (l : List (Member lib))
      (later : List (Bool × Option Line))
      → lib.json_object_object_get o k ≡ text_value lib doc x
      → print_members lib l o ≡ shown later
      → print_members lib (getstr lib k w l) o ≡ shown ((w, text_line x) ∷ later)
  unfolding print_members getstr
  getstr-shown o k false x l later there rest = rest
  getstr-shown o k true none l later there rest = rw (print_members, there) refl
  getstr-shown o k true (some x) l later there rest =
      rw (print_members, there) (rw (doc.is-string x, doc.get-string x, rest) refl)

  getint-shown :
      (o : lib.Json) (k : Str) (w : Bool) (n : ℤ) (l : List (Member lib))
      (later : List (Bool × Option Line))
      → lib.json_object_object_get o k ≡ int_value lib doc n
      → print_members lib l o ≡ shown later
      → print_members lib (getint lib k w l) o ≡ shown ((w, number_line n) ∷ later)
  unfolding print_members getint
  getint-shown o k false n l later there rest = rest
  getint-shown o k true n l later there rest = elim (Bool-cases (eq_ℤ n minus_one)) [
    | inl unset ↦ rw (print_members, there) (rw unset refl)
    | inr set_to ↦
        rw (print_members, there) (rw set_to (rw (doc.is-int n, doc.get-int n, rest) refl))
  ]

  getint_age-shown :
      (o : lib.Json) (w : Bool) (n : ℤ) (l : List (Member lib)) (later : List (Bool × Option Line))
      → lib.json_object_object_get o (codes "age") ≡ age_value lib doc n
      → print_members lib l o ≡ shown later
      → print_members lib (getint lib (codes "age") w l) o ≡ shown ((w, age_line n) ∷ later)
  unfolding print_members getint
  getint_age-shown o false n l later there rest = rest
  getint_age-shown o true n l later there rest = elim (Bool-cases (eq_ℤ n minus_one)) [
    | inl unset ↦ rw (print_members, there) (rw unset refl)
    | inr set_to ↦
        rw (print_members, there)
          (rw set_to (rw (doc.is-int (to_int n), doc.get-int (to_int n), rest) refl))
  ]

  get_members-shown :
      (w : Wanted) (cc : ChildConfig)
      → print_members lib (get_members lib w) (to_json lib cc) ≡ shown (lines_of w cc)
  unfolding get_members print_members str_eq
  get_members-shown w cc =
      let o = to_json lib cc in
      let there = member_at lib doc cc in
      getstr-shown o (codes "stdout") w.get_stdout cc.cc_stdout _ _ (there (codes "stdout") _ refl)
        (getstr-shown o (codes "stderr") w.get_stderr cc.cc_stderr _ _
          (there (codes "stderr") _ refl)
          (getstr-shown o (codes "dir") w.get_dir cc.cc_dir _ _ (there (codes "dir") _ refl) (
            getstr-shown o (codes "heartbeat") w.get_heartbeat cc.cc_heartbeat _ _
              (there (codes "heartbeat") _ refl)
              (getstr-shown o (codes "fatal_cb") w.get_fatal cc.cc_fatal_cb _ _
                (there (codes "fatal_cb") _ refl)
                (getstr-shown o (codes "username") w.get_username cc.cc_username _ _
                  (there (codes "username") _ refl)
                  (getstr-shown o (codes "groupname") w.get_groupname cc.cc_groupname _ _
                    (there (codes "groupname") _ refl)
                    (getint_age-shown o w.get_age cc.cc_age _ _ (there (codes "age") _ refl) (
                      getint-shown o (codes "uid") w.get_uid cc.cc_uid _ _
                        (there (codes "uid") _ refl)
                        (getint-shown o (codes "gid") w.get_gid cc.cc_gid _ _
                          (there (codes "gid") _ refl)
                          (getint-shown o (codes "status") w.get_status cc.cc_status _ _
                            (there (codes "status") _ refl)
                            (getint-shown o (codes "instances") w.get_instances cc.cc_instances _ _
                              (there (codes "instances") _ refl)
                              (getint-shown o (codes "killsig") w.get_killsig cc.cc_killsig _ _
                                (there (codes "killsig") _ refl) refl))))))))))))

  -- cmd_get prints of the group that GETC answers with what its options ask for, each string and each number
  -- on a line of its own in the order of the fields, with exit status 0, an age as its lower 32 bits; at the first that the group does not have it stops with a
  -- message and exit status 1. With -D it prints the reply itself.
  pub get_reply-serialize :
      (w : Wanted) (cc : ChildConfig)
      → Reads lib (child_config_serialize lib cc) (to_json lib cc)
      → get_reply lib w (child_config_serialize lib cc)
        ≡ (if w.dump then (0, raw (child_config_serialize lib cc) ∷ []) else shown (lines_of w cc))
  unfolding get_reply object_reply
  get_reply-serialize w cc (parses, sound) = elim (Bool-cases w.dump) [
    | inl dumps ↦ ground arith
    | inr prints ↦
        let printed = get_members-shown w cc in
        let object = is_object-to_json lib doc cc in ground arith
  ]
