-- ===== src/Config/RoundTrip.antt =====
-- child_config_from_json of child_config.c on what child_config_serialize builds.
use ubervisor.Common.{
  ℕ, zero, suc, ◌+◌, ◌<◌, ◌≡◌, refl, sym, ap, ◌∙◌, inl, inr, arith, true, false, not, List, [], ◌∷◌,
  Option, none, some, if◌then◌else◌, Bool-cases, Str, str_eq, codes, length,
}
use ubervisor.Common.Int.{ℤ, pos, minus_one, eq_ℤ, eq_ℤ→eq, to_int}
use ubervisor.Json.{JsonType, JsonC, Documented}
use ubervisor.Config.{
  ChildConfig, child_config_new, add, add_int, add_age, add_strings, add_args, to_json, get,
  get_int, get_element, get_strings, get_args, need_name, child_config_from_json,
}

module _ (lib : JsonC) (doc : Documented lib) where
  -- The members of an object: a key and the value, where it is put in.
  abbrev pub Members : Type 0
  Members = List (Str × Option lib.Json)

  abbrev pub put : Str → Option lib.Json → lib.Json → lib.Json
  put k none o = o
  put k (some v) o = lib.json_object_object_add o k v

  abbrev pub build : Members → lib.Json
  build [] = lib.json_object_new_object
  build ((k, v) ∷ l) = put k v (build l)

  abbrev pub or_else : Option lib.Json → Option lib.Json → Option lib.Json
  or_else none b = b
  or_else (some a) b = some a

  abbrev pub lookup : Str → Members → Option lib.Json
  lookup k [] = none
  lookup k ((j, v) ∷ l) = if str_eq j k then or_else v (lookup k l) else lookup k l

  pub get-build : (k : Str) (l : Members) → lib.json_object_object_get (build l) k ≡ lookup k l
  get-build k [] = doc.get-new k
  get-build k ((j, none) ∷ l) = ground (arith, get-build k l)
  get-build k ((j, some v) ∷ l) = rw (doc.get-add (build l) v j k, get-build k l) (ground arith)

  abbrev pub text_value : Option Str → Option lib.Json
  text_value none = none
  text_value (some x) = some (lib.json_object_new_string x)

  abbrev pub int_value : ℤ → Option lib.Json
  int_value n = if not (eq_ℤ n minus_one) then some (lib.json_object_new_int n) else none

  abbrev pub age_value : ℤ → Option lib.Json
  age_value n = if not (eq_ℤ n minus_one) then some (lib.json_object_new_int (to_int n)) else none

  abbrev pub args_value : Option (List Str) → Option lib.Json
  args_value none = none
  args_value (some xs) = some (add_strings lib xs lib.json_object_new_array)

  add-put : (k : Str) (x : Option Str) (o : lib.Json) → add lib k x o ≡ put k (text_value x) o
  unfolding add
  add-put k none o = refl
  add-put k (some x) o = refl

  pub add_int-put : (k : Str) (n : ℤ) (o : lib.Json) → add_int lib k n o ≡ put k (int_value n) o
  unfolding add_int
  add_int-put k n o = elim (Bool-cases (eq_ℤ n minus_one)) [
    | inl unset ↦ rw unset refl
    | inr set_to ↦ rw set_to refl
  ]

  add_age-put : (n : ℤ) (o : lib.Json) → add_age lib n o ≡ put (codes "age") (age_value n) o
  unfolding add_age
  add_age-put n o = elim (Bool-cases (eq_ℤ n minus_one)) [
    | inl unset ↦ rw unset refl
    | inr set_to ↦ rw set_to refl
  ]

  add_args-put :
      (xs : Option (List Str)) (o : lib.Json)
      → add_args lib xs o ≡ put (codes "args") (args_value xs) o
  unfolding add_args
  add_args-put none o = refl
  add_args-put (some xs) o = refl

  abbrev pub members : ChildConfig → Members
  members c =
      (codes "args", args_value c.cc_command)
      ∷ (codes "age", age_value c.cc_age)
      ∷ (codes "error", int_value c.cc_error)
      ∷ (codes "gid", int_value c.cc_gid)
      ∷ (codes "uid", int_value c.cc_uid)
      ∷ (codes "killsig", int_value c.cc_killsig)
      ∷ (codes "status", int_value c.cc_status)
      ∷ (codes "instances", int_value c.cc_instances)
      ∷ (codes "groupname", text_value c.cc_groupname)
      ∷ (codes "username", text_value c.cc_username)
      ∷ (codes "fatal_cb", text_value c.cc_fatal_cb)
      ∷ (codes "heartbeat", text_value c.cc_heartbeat)
      ∷ (codes "dir", text_value c.cc_dir)
      ∷ (codes "stderr", text_value c.cc_stderr)
      ∷ (codes "stdout", text_value c.cc_stdout)
      ∷ (codes "name", text_value c.cc_name)
      ∷ []

  to_json-build : (c : ChildConfig) → to_json lib c ≡ build (members c)
  unfolding to_json
  to_json-build c = simp (add-put, add_int-put, add_age-put, add_args-put)

  pub is_object-build : (l : Members) → lib.json_object_is_type (build l) JsonType.object ≡ true
  is_object-build [] = doc.object-new
  is_object-build ((k, none) ∷ l) = is_object-build l
  is_object-build ((k, some v) ∷ l) = doc.object-add (build l) v k ∙ is_object-build l

  pub is_object-to_json :
      (c : ChildConfig) → lib.json_object_is_type (to_json lib c) JsonType.object ≡ true
  is_object-to_json c = rw (to_json-build c) (is_object-build (members c))

  -- What a member that was put in is read as.
  get-text :
      (o : lib.Json) (k : Str) (x : Option Str)
      → lib.json_object_object_get o k ≡ text_value x
      → get lib o k none ≡ some x
  unfolding get
  get-text o k none e = rw (get, e) refl
  get-text o k (some x) e = rw (get, e) (rw (doc.is-string x, doc.get-string x) refl)

  get_int-value :
      (o : lib.Json) (k : Str) (n old : ℤ)
      → lib.json_object_object_get o k ≡ int_value n
      → (eq_ℤ n minus_one ≡ true → n ≡ old)
      → get_int lib o k old ≡ some n
  unfolding get_int
  get_int-value o k n old e unset = elim (Bool-cases (eq_ℤ n minus_one)) [
    | inl none_put ↦ rw (get_int, e) (rw none_put (ap some (sym (unset none_put))))
    | inr set_to ↦ rw (get_int, e) (rw set_to (rw (doc.is-int n, doc.get-int n) refl))
  ]

  -- The array of the arguments, which add_strings builds onto another.
  abbrev length_of : lib.Json → ℕ
  length_of a = lib.json_object_array_length a

  length-add_strings :
      (xs : List Str) (a : lib.Json) → length_of (add_strings lib xs a) ≡ length_of a + length xs
  unfolding add_strings
  length-add_strings [] a = omega arith
  length-add_strings (x ∷ xs) a = omega (
    arith,
    length-add_strings xs (lib.json_object_array_add a (lib.json_object_new_string x)),
    doc.length-add a (lib.json_object_new_string x),
  )

  is_array-add_strings :
      (xs : List Str) (a : lib.Json)
      → lib.json_object_is_type (add_strings lib xs a) JsonType.array
        ≡ lib.json_object_is_type a JsonType.array
  unfolding add_strings
  is_array-add_strings [] a = refl
  is_array-add_strings (x ∷ xs) a =
      is_array-add_strings xs _ ∙ doc.array-add a (lib.json_object_new_string x)

  front-add_strings :
      (xs : List Str) (a : lib.Json) (i : ℕ)
      → i < length_of a
      → lib.json_object_array_get_idx (add_strings lib xs a) i ≡ lib.json_object_array_get_idx a i
  unfolding add_strings
  front-add_strings [] a i h = refl
  front-add_strings (x ∷ xs) a i h =
      let b = lib.json_object_array_add a (lib.json_object_new_string x) in
      front-add_strings xs b i (omega (arith, doc.length-add a (lib.json_object_new_string x)))
      ∙ ground (arith, doc.idx-add a (lib.json_object_new_string x) i)

  get_element-string : (x : Str) → get_element lib (lib.json_object_new_string x) ≡ some x
  unfolding get_element
  get_element-string x = rw (doc.is-string x, doc.get-string x) refl

  -- The loop reads the strings that were put behind the first `i` elements.
  get_strings-add_strings :
      (xs : List Str) (a : lib.Json) (n i : ℕ)
      → n ≡ length xs
      → i ≡ length_of a
      → get_strings lib (add_strings lib xs a) n i ≡ some xs
  unfolding get_strings add_strings
  get_strings-add_strings [] a zero i e at = refl
  get_strings-add_strings [] a (suc n) i e at = absurd (omega arith)
  get_strings-add_strings (x ∷ xs) a zero i e at = absurd (omega arith)
  get_strings-add_strings (x ∷ xs) a (suc n) i e at =
      let v = lib.json_object_new_string x in
      let b = lib.json_object_array_add a v in
      let grown = doc.length-add a v in
      let here : lib.json_object_array_get_idx (add_strings lib xs b) i ≡ some v =
        front-add_strings xs b i (omega arith) ∙ ground (arith, doc.idx-add a v i) in
      let later = get_strings-add_strings xs b n (suc i) (omega arith) (omega arith) in
      rw (here, later, get_element-string x) refl

  length-new_strings :
      (xs : List Str) → length_of (add_strings lib xs lib.json_object_new_array) ≡ length xs
  length-new_strings xs =
      omega (arith, length-add_strings xs lib.json_object_new_array, doc.length-new)

  get_args-value :
      (o : lib.Json) (xs : Option (List Str))
      → lib.json_object_object_get o (codes "args") ≡ args_value xs
      → get_args lib o none ≡ some xs
  unfolding get_args
  get_args-value o none e = rw (get_args, e) refl
  get_args-value o (some xs) e =
      let a = lib.json_object_new_array in
      let read : get_strings lib (add_strings lib xs a) (length_of (add_strings lib xs a)) 0
          ≡ some xs =
        get_strings-add_strings xs a _ 0 (length-new_strings xs) (sym doc.length-new) in
      rw (get_args, e) (rw (is_array-add_strings xs a ∙ doc.array-new, read) refl)

  pub or_none : (v : Option lib.Json) → or_else v none ≡ v
  or_none none = refl
  or_none (some v) = refl

  module _ (c : ChildConfig) where
    pub member_at :
        (k : Str) (v : Option lib.Json)
        → lookup k (members c) ≡ or_else v none
        → lib.json_object_object_get (to_json lib c) k ≡ v
    member_at k v e =
        ap (λ x. lib.json_object_object_get x k) (to_json-build c)
        ∙ get-build k (members c)
        ∙ e
        ∙ or_none v

    text_at :
        (k : Str) (x : Option Str)
        → lookup k (members c) ≡ or_else (text_value x) none
        → get lib (to_json lib c) k none ≡ some x
    text_at k x e = get-text (to_json lib c) k x (member_at k (text_value x) e)

    int_at :
        (k : Str) (n : ℤ)
        → lookup k (members c) ≡ or_else (int_value n) none
        → get_int lib (to_json lib c) k minus_one ≡ some n
    int_at k n e =
        get_int-value (to_json lib c) k n minus_one (member_at k (int_value n) e)
          (eq_ℤ→eq n minus_one)

    set_at :
        (k : Str) (n : ℤ)
        → lookup k (members c) ≡ or_else (int_value n) none
        → eq_ℤ n minus_one ≡ false
        → get_int lib (to_json lib c) k (pos 0) ≡ some n
    set_at k n e is_set =
        get_int-value (to_json lib c) k n (pos 0) (member_at k (int_value n) e)
          (λ h. absurd (cc (is_set, h)))

    age_at :
        eq_ℤ c.cc_age minus_one ≡ false
        → get_int lib (to_json lib c) (codes "age") (pos 0) ≡ some (to_int c.cc_age)
    unfolding get_int str_eq
    age_at is_set =
        rw (get_int, member_at (codes "age") (age_value c.cc_age) refl)
          (rw is_set (rw (doc.is-int (to_int c.cc_age), doc.get-int (to_int c.cc_age)) refl))

  -- A group that has a name, and of which neither the age nor the count of errors is -1, comes back from
  -- its JSON object: child_config_from_json takes what child_config_serialize has built for the same
  -- group, with every field and every argument as it was, but with the age cut to 32 bits, without
  -- children and without the time of the last error.
  pub child_config_from_json-to_json :
      (c : ChildConfig) (name : Str)
      → c.cc_name ≡ some name
      → eq_ℤ c.cc_age minus_one ≡ false
      → eq_ℤ c.cc_error minus_one ≡ false
      → child_config_from_json lib (to_json lib c)
        ≡ some (record c { cc_age = to_int c.cc_age; cc_errtime = 0; cc_childs = [] })
  unfolding child_config_from_json child_config_new need_name str_eq
  child_config_from_json-to_json c name named aged counted =
      rw (child_config_from_json, text_at c (codes "name") c.cc_name refl ∙ ap some named)
        (rw
          (
            text_at c (codes "stdout") c.cc_stdout refl,
            text_at c (codes "stderr") c.cc_stderr refl,
            text_at c (codes "dir") c.cc_dir refl,
            text_at c (codes "heartbeat") c.cc_heartbeat refl,
            text_at c (codes "fatal_cb") c.cc_fatal_cb refl,
            text_at c (codes "username") c.cc_username refl,
            text_at c (codes "groupname") c.cc_groupname refl,
            int_at c (codes "instances") c.cc_instances refl,
            int_at c (codes "status") c.cc_status refl,
            int_at c (codes "killsig") c.cc_killsig refl,
            int_at c (codes "uid") c.cc_uid refl,
            int_at c (codes "gid") c.cc_gid refl,
            set_at c (codes "error") c.cc_error refl counted,
            age_at c aged,
            get_args-value (to_json lib c) c.cc_command
                (member_at c (codes "args") (args_value c.cc_command) refl),
          )
          (ap
            (λ n.
              some (record c {
                cc_name = n;
                cc_age = to_int c.cc_age;
                cc_errtime = 0;
                cc_childs = [];
              }))
            (sym named)))
