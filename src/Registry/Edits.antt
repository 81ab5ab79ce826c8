-- ===== src/Registry/Edits.antt =====
-- The commands of cmd_server.c against an abstract table of the names of the groups: c_spwn and c_dele.
use ubervisor.Common.{
  ℕ, ◌≤◌, ◌≡◌, ◌∙◌, ap, refl, inl, inr, arith, Bool, Option, none, some, Option-cases,
  if◌then◌else◌, Str, str_eq, replicate,
}
use ubervisor.Common.Int.{pos, to_ℕ}
use ubervisor.Json.{JsonC}
use ubervisor.Config.{ChildConfig, empty, status_delete, child_config_unserialize}
use ubervisor.Server.{Server, emit, status_update}
use ubervisor.Server.Alive.{IsAlive}
use ubervisor.Command.{
  Disk, send_status_msg, child_config_find_by_name, child_config_insert, allocated, created,
  check_instances, c_spwn, parse_object, parse_name, on_group,
}
use ubervisor.Command.Pids.{
  child_config_remove, freed_config, each_child, orphan, dele_group, c_dele,
}
use ubervisor.Dispatch.{Handler}
use ubervisor.Registry.{titles, Keeps, IsNamed}
use ubervisor.Registry.Frames.{spawn_from-Keeps, tag}
use ubervisor.Registry.Commands.{send_status_msg-Keeps, succeeded-Keeps, each_orphan-Keeps}
use ubervisor.Registry.Lookup.{registered, registered-Keeps, absent, registered-there}
use ubervisor.Registry.Names.{Keeps-IsNamed, inserted-IsNamed, find-inserted}
use ubervisor.Registry.Removal.{removed-IsNamed, find-removed}

-- What a command of a name and a payload may do to the abstract table: any command may leave it as it is,
-- SPWN may add a group under the name in its payload where the name is free, DELE may take away the name in
-- its payload, no other name ever changes.
pub data Step (lib : JsonC) (auto_dump : Bool) (disk : Disk)
    : Handler → Str → (Str → Option ℕ) → (Str → Option ℕ) → Type 0 where
  keeps :
      (f : Handler) (buf : Str) (before after : Str → Option ℕ)
      → ((n : Str) → after n ≡ before n)
      → Step lib auto_dump disk f buf before after
  adds :
      (buf : Str) (before after : Str → Option ℕ) (cc : ChildConfig) (n : Str) (c : ℕ)
      → child_config_unserialize lib buf ≡ some cc
      → cc.cc_name ≡ some n
      → before n ≡ none
      → ((x : Str) → after x ≡ (if str_eq n x then some c else before x))
      → Step lib auto_dump disk Handler.spwn buf before after
  removes :
      (buf : Str) (before after : Str → Option ℕ) (obj : lib.Json) (n : Str) (c : ℕ)
      → parse_object lib auto_dump disk buf ≡ some obj
      → parse_name lib auto_dump disk obj ≡ some n
      → before n ≡ some c
      → ((x : Str) → after x ≡ (if str_eq n x then none else before x))
      → Step lib auto_dump disk Handler.dele buf before after

module _ (lib : JsonC) (auto_dump : Bool) (disk : Disk) where
  -- What a command comes to.
  abbrev pub Outcome : Handler → Str → Server → Server → Type 0
  Outcome f buf s t = IsNamed t × Step lib auto_dump disk f buf (registered s) (registered t)

  pub Keeps-Outcome :
      (f : Handler) (buf : Str) (s t : Server) → IsNamed s → Keeps s t → Outcome f buf s t
  Keeps-Outcome f buf s t named kept =
      (Keeps-IsNamed s t kept named, Step.keeps f buf _ _ (registered-Keeps s t kept))

  pub told :
      (f : Handler) (buf : Str) (s : Server)
      → IsNamed s
      → (code : Bool) (msg : Str) → Outcome f buf s (send_status_msg lib auto_dump disk code msg s)
  told f buf s named code msg =
      Keeps-Outcome f buf s _ named (send_status_msg-Keeps lib auto_dump disk code msg s)

  module _ (s : Server) (named : IsNamed s) (alive : IsAlive s) (buf : Str) (cc : ChildConfig)
      (sent : child_config_unserialize lib buf ≡ some cc) (n : Str) (name : cc.cc_name ≡ some n)
      (free : registered s n ≡ none) where
    -- What c_spwn does behind the insertion.
    created-Keeps :
        (k : ℕ)
        → Keeps
            (child_config_insert s.next n
              (allocated (record cc { cc_instances = pos k; cc_childs = replicate k empty }) n s))
            (created lib auto_dump disk s.next cc n k s)
    unfolding created emit
    created-Keeps k = grind (arith, succeeded-Keeps, spawn_from-Keeps)

    created-Outcome :
        (k : ℕ) → Outcome Handler.spwn buf s (created lib auto_dump disk s.next cc n k s)
    created-Outcome k =
        let with_childs = record cc { cc_instances = pos k; cc_childs = replicate k empty } in
        let s₁ = child_config_insert s.next n (allocated with_childs n s) in
        let done = created lib auto_dump disk s.next cc n k s in
        let kept : Keeps s₁ done = created-Keeps k in
        let none_there = absent s n named free in
        let fresh : titles s.configs s.next ≡ none =
          unfold titles in ground (arith, alive.sound.unused_config s.next) in
        (
          Keeps-IsNamed s₁ done kept (inserted-IsNamed s named with_childs n name none_there fresh),
          Step.adds buf _ _ cc n s.next sent name free (λ x.
              registered-Keeps s₁ done kept x
              ∙ find-inserted s named with_childs n name none_there fresh x),
        )

    check_instances-Outcome :
        Outcome Handler.spwn buf s (check_instances lib auto_dump disk cc n s).1
    unfolding check_instances
    check_instances-Outcome =
        let refused = told Handler.spwn buf s named in let accepted = created-Outcome in grind arith

  pub c_spwn-Outcome :
      (s : Server) (buf : Str)
      → IsNamed s
      → IsAlive s
      → Outcome Handler.spwn buf s (c_spwn lib auto_dump disk buf s).1
  unfolding c_spwn
  c_spwn-Outcome s buf named alive = elim (Option-cases (child_config_unserialize lib buf)) [
    | inl bad ↦ rw (c_spwn, bad) (told Handler.spwn buf s named _ _)
    | inr (cc, sent) ↦ elim (Option-cases cc.cc_name) [
      | inl nameless ↦ rw (c_spwn, sent, nameless) (told Handler.spwn buf s named _ _)
      | inr (n, name) ↦ elim (Option-cases cc.cc_command) [
        | inl idle ↦ rw (c_spwn, sent, name, idle) (told Handler.spwn buf s named _ _)
        | inr (command, runs) ↦ elim (Option-cases (child_config_find_by_name n s)) [
          | inr (other, taken) ↦
              rw (c_spwn, sent, name, runs, taken) (told Handler.spwn buf s named _ _)
          | inl free ↦
              rw (c_spwn, sent, name, runs, free)
                (check_instances-Outcome s named alive buf cc sent n name free)
        ]
      ]
    ]
  ]

  module _ (s : Server) (named : IsNamed s) (buf : Str) (obj : lib.Json)
      (sent : parse_object lib auto_dump disk buf ≡ some obj) (n : Str)
      (name : parse_name lib auto_dump disk obj ≡ some n) (c : ℕ)
      (leads : registered s n ≡ some c) where
    dele_group-Outcome :
        (cc : ChildConfig)
        → s.configs c ≡ some cc
        → Outcome Handler.dele buf s (dele_group lib auto_dump disk obj c cc s)
    unfolding dele_group emit child_config_find_by_name
    dele_group-Outcome cc there =
        let removed = child_config_remove c s in
        let k = to_ℕ cc.cc_instances in
        let after =
          emit (status_update cc.cc_name status_delete)
            (each_child orphan cc.cc_childs 0 k removed) in
        let kept : Keeps removed after = each_orphan-Keeps cc.cc_childs 0 k removed in
        let later : s.next ≤ after.next = unfold child_config_remove in kept.1 in
        let here : titles s.configs c ≡ some cc.cc_name = tag c cc s there in
        let ends = freed_config c after in
        let text : s.names c ≡ n = (registered-there s n c named leads).0 in
        (
          Keeps-IsNamed ends (dele_group lib auto_dump disk obj c cc s) (refl, omega arith)
              (removed-IsNamed s named c cc.cc_name here after kept.0 later),
          Step.removes buf _ _ obj n c sent name leads (λ x.
              find-removed s named c cc.cc_name here after kept.0 later x
              ∙ ap (λ (m : Str). if str_eq m x then none else registered s x) text),
        )

  pub c_dele-Outcome :
      (s : Server) (buf : Str)
      → IsNamed s
      → Outcome Handler.dele buf s (c_dele lib auto_dump disk buf s).1
  unfolding c_dele on_group
  c_dele-Outcome s buf named = elim (Option-cases (parse_object lib auto_dump disk buf)) [
    | inl bad ↦ rw (c_dele, on_group, bad) (told Handler.dele buf s named _ _)
    | inr (obj, sent) ↦ elim (Option-cases (parse_name lib auto_dump disk obj)) [
      | inl nameless ↦ rw (c_dele, on_group, sent, nameless) (told Handler.dele buf s named _ _)
      | inr (n, name) ↦ elim (Option-cases (child_config_find_by_name n s)) [
        | inl unknown ↦
            rw (c_dele, on_group, sent, name, unknown) (told Handler.dele buf s named _ _)
        | inr (c, leads) ↦ elim (Option-cases (s.configs c)) [
          | inl gone ↦
              rw (c_dele, on_group, sent, name, leads, gone)
                (Keeps-Outcome Handler.dele buf s s named (refl, omega arith))
          | inr (cc, there) ↦
              rw (c_dele, on_group, sent, name, leads, there)
                (dele_group-Outcome s named buf obj sent n name c leads cc there)
        ]
      ]
    ]
  ]
