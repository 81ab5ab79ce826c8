-- ===== src/Client/Lists.antt =====
-- What the client prints of the replies of cmd_server.c that hold pids or names.
use ubervisor.Common.{
  ℕ, zero, suc, ◌≡◌, refl, sym, ap, ◌∙◌, inl, inr, arith, Bool, true, List, [], ◌∷◌, none, some,
  Option-cases, Str, str_eq, codes, length,
}
use mathlib.Core.List.{map}
use ubervisor.Common.Int.{pos}
use ubervisor.Json.{JsonType, JsonC, Documented}
use ubervisor.Json.Arrays.{add_all, length-add_all, is_array-add_all, walk-add_all, steps}
use ubervisor.Config.{Slot}
use ubervisor.Server.{Server, replied, emit}
use ubervisor.Command.{Disk, list_names, c_list}
use ubervisor.Command.Pids.{process_at, pids_from, reply_pids}
use ubervisor.Client.Replies.{
  Line, text, number, Ended, line_and, print_pids, pids_reply, print_names, list_reply,
}

module _ (lib : JsonC) (doc : Documented lib) where
  -- The pids of the processes that `n` elements of cc_childs from the index `x` on lead to.
  abbrev pids_at : List Slot → ℕ → ℕ → Server → List ℕ
  pids_at childs x zero s = []
  pids_at childs x (suc n) s =
      let rest = pids_at childs (suc x) n s in
      elim (process_at childs x s) [ none ↦ rest | some found ↦ (found.1).p_pid ∷ rest ]

  abbrev pid_values : List ℕ → List lib.Json
  pid_values l = map (λ p. lib.json_object_new_int (pos p)) l

  pids_from-add_all :
      (auto_dump : Bool) (disk : Disk) (childs : List Slot) (x n : ℕ) (m : lib.Json) (s : Server)
      → pids_from lib auto_dump disk childs x n m s
        ≡ add_all lib doc m (pid_values (pids_at childs x n s))
  unfolding pids_from
  pids_from-add_all auto_dump disk childs x zero m s = refl
  pids_from-add_all auto_dump disk childs x (suc n) m s =
      elim (Option-cases (process_at childs x s)) [
        | inl nothing ↦
            rw (pids_from, pids_at, nothing) (pids_from-add_all auto_dump disk childs (suc x) n m s)
        | inr (found, there) ↦
            rw (pids_from, pids_at, there) (pids_from-add_all auto_dump disk childs (suc x) n _ s)
      ]

  steps-pid_values :
      (pids : List ℕ)
      → steps
          (λ (v : lib.Json) (l : List Line). number (lib.json_object_get_int v) ∷ l)
          []
          (pid_values pids)
        ≡ map (λ p. number (pos p)) pids
  steps-pid_values [] = refl
  steps-pid_values (p ∷ pids) = rw (doc.get-int (pos p), steps-pid_values pids) refl

  print_pids-add_all :
      (pids : List ℕ)
      → print_pids lib
          (add_all lib doc lib.json_object_new_array (pid_values pids))
          0
          (length (pid_values pids))
        ≡ map (λ p. number (pos p)) pids
  unfolding print_pids
  print_pids-add_all pids =
      walk-add_all lib doc (print_pids lib) [] (λ v l. number (lib.json_object_get_int v) ∷ l)
        (λ a i. refl) (λ a v i n there. rw (print_pids, there) refl) lib.json_object_new_array
        (pid_values pids) 0 (length (pid_values pids)) (sym doc.length-new) refl
      ∙ steps-pid_values pids

  -- The object of a reply with pids.
  abbrev pids_object : List Slot → ℕ → ℕ → Server → lib.Json
  pids_object childs x n s =
      let code =
        lib.json_object_object_add lib.json_object_new_object (codes "code")
          (lib.json_object_new_boolean true) in
      lib.json_object_object_add code (codes "pids")
        (add_all lib doc lib.json_object_new_array (pid_values (pids_at childs x n s)))

  -- What cmd_delete, cmd_kill and cmd_pids print of the server's reply are the pids of the processes that
  -- the elements of cc_childs lead to, in their order, each on a line, with exit status 0.
  pub pids_reply-reply_pids :
      (auto_dump : Bool) (disk : Disk) (failed : Str) (childs : List Slot) (x n : ℕ) (s : Server)
      → lib.json_tokener_parse (reply_pids lib auto_dump disk childs x n s)
        ≡ some (pids_object childs x n s)
      → pids_reply lib failed (reply_pids lib auto_dump disk childs x n s)
        ≡ (0, map (λ p. number (pos p)) (pids_at childs x n s))
  unfolding pids_reply str_eq
  pids_reply-reply_pids auto_dump disk failed childs x n s parses =
      let pids = pids_at childs x n s in
      let a = add_all lib doc lib.json_object_new_array (pid_values pids) in
      let obj =
        lib.json_object_object_add lib.json_object_new_object (codes "code")
          (lib.json_object_new_boolean true) in
      let code : lib.json_object_object_get (pids_object childs x n s) (codes "code")
          ≡ some (lib.json_object_new_boolean true) =
        doc.get-add obj a (codes "pids") (codes "code")
        ∙ doc.get-add lib.json_object_new_object (lib.json_object_new_boolean true) (codes "code")
            (codes "code") in
      let list : lib.json_object_object_get (pids_object childs x n s) (codes "pids") ≡ some a =
        doc.get-add obj a (codes "pids") (codes "pids") in
      let many : lib.json_object_array_length a ≡ length (pid_values pids) = omega (
        arith,
        length-add_all lib doc lib.json_object_new_array (pid_values pids),
        doc.length-new,
      ) in
      rw (pids_reply, parses)
        (rw (code, doc.get-boolean true)
          (rw (list, many) (ap (λ l. (0, l)) (print_pids-add_all pids))))

  name_values : List Str → List lib.Json
  name_values l = map lib.json_object_new_string l

  list_names-add_all :
      (auto_dump : Bool) (disk : Disk) (l : List ℕ) (a : lib.Json) (s : Server)
      → list_names lib auto_dump disk l a s ≡ add_all lib doc a (name_values (map s.names l))
  unfolding list_names name_values
  list_names-add_all auto_dump disk [] a s = refl
  list_names-add_all auto_dump disk (c ∷ l) a s = list_names-add_all auto_dump disk l _ s

  steps-name_values :
      (l : List Str)
      → steps
          (λ v (r : Ended). line_and (text (lib.json_object_get_string v)) r)
          (0, [])
          (name_values l)
        ≡ (0, map (λ x. text (some x)) l)
  unfolding name_values
  steps-name_values [] = refl
  steps-name_values (x ∷ l) = rw (doc.get-string x, steps-name_values l) refl

  names_list :
      (l : List ℕ) (f : ℕ → Str)
      → map (λ x. text (some x)) (map f l) ≡ map (λ c. text (some (f c))) l
  names_list [] f = refl
  names_list (c ∷ l) f = ap (λ r. text (some (f c)) ∷ r) (names_list l f)

  -- The array that c_list prints.
  abbrev listed_names : Bool → Disk → Server → lib.Json
  listed_names auto_dump disk s =
      list_names lib auto_dump disk s.child_config_list lib.json_object_new_array s

  -- cmd_list prints of the server's reply to LIST the names of the groups, in the order of the server's list, each on a
  -- line, with exit status 0.
  pub list_reply-c_list :
      (auto_dump : Bool) (disk : Disk) (s : Server) (printed : Str)
      → (c_list lib auto_dump disk s).1.events ≡ replied printed ∷ s.events
      → lib.json_tokener_parse (lib.json_object_to_json_string (listed_names auto_dump disk s))
        ≡ some (listed_names auto_dump disk s)
      → list_reply lib printed ≡ (0, map (λ c. text (some (s.names c))) s.child_config_list)
  unfolding list_reply print_names name_values c_list emit
  list_reply-c_list auto_dump disk s printed sent parses =
      let names = map s.names s.child_config_list in
      let a = add_all lib doc lib.json_object_new_array (name_values names) in
      let same : listed_names auto_dump disk s ≡ a =
        list_names-add_all auto_dump disk s.child_config_list _ s in
      let this : lib.json_object_to_json_string (listed_names auto_dump disk s) ≡ printed =
        ground arith in
      let read : lib.json_tokener_parse printed ≡ some a =
        ap lib.json_tokener_parse (sym this) ∙ parses ∙ ap some same in
      let array : lib.json_object_is_type a JsonType.array ≡ true =
        is_array-add_all lib doc lib.json_object_new_array (name_values names) doc.array-new in
      let many : lib.json_object_array_length a ≡ length (name_values names) = omega (
        arith,
        length-add_all lib doc lib.json_object_new_array (name_values names),
        doc.length-new,
      ) in
      let walked : print_names lib a 0 (lib.json_object_array_length a)
          ≡ (0, map (λ c. text (some (s.names c))) s.child_config_list) =
        walk-add_all lib doc (print_names lib) (0, [])
          (λ v (r : Ended). line_and (text (lib.json_object_get_string v)) r) (λ b i. refl)
          (λ b v i n there. rw (print_names, there) refl) lib.json_object_new_array
          (name_values names) 0 (lib.json_object_array_length a) (sym doc.length-new) many
        ∙ steps-name_values names
        ∙ ap (λ r. (0, r)) (names_list s.child_config_list s.names) in
      rw (list_reply, read) (rw array walked)
