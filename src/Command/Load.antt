-- ===== src/Command/Load.antt =====
-- load_dump of cmd_server.c, which starts the groups of a dump.
use ubervisor.Common.{
  ℕ, zero, suc, refl, ◌∙◌, inl, inr, arith, true, false, not, List, [], ◌∷◌, Option, none, some,
  ==_refl, if◌then◌else◌, Bool-cases, Str, replicate, get_elem?-replicate,
}
use ubervisor.Common.Int.{ℤ, pos, negsuc, minus_one, eq_ℤ}
use ubervisor.Json.{JsonType, JsonC}
use ubervisor.Config.{ChildConfig, empty, status_running, child_config_from_json}
use ubervisor.Server.{Server}
use ubervisor.Server.Heartbeat.{sigterm}
use ubervisor.Server.Alive.{IsAlive}
use ubervisor.Command.{allocated, child_config_insert, spawn_from}
use ubervisor.Command.Subs.{Ran, state_of}
use ubervisor.Command.Read.{until_nul}
use ubervisor.Command.Groups.{allocated-IsAlive, same-IsAlive, spawn_from-IsAlive}

-- What fopen and fread give for the name of the dump.
pub data DumpFile : Type 0 where
  absent unreadable : DumpFile
  text : List ℕ → DumpFile

-- The defaults that are set where a number is -1.
unfoldable pub with_defaults : ChildConfig → ChildConfig
with_defaults cc = record cc {
  cc_killsig = if eq_ℤ cc.cc_killsig minus_one then sigterm else cc.cc_killsig;
  cc_instances = if eq_ℤ cc.cc_instances minus_one then pos 1 else cc.cc_instances;
  cc_status = if eq_ℤ cc.cc_status minus_one then status_running else cc.cc_status;
}

-- The rest of a round: `n` instances of a group.
unfoldable pub load_group : ChildConfig → Str → ℕ → Server → Server
load_group cc name n s =
    let with_childs = record cc { cc_instances = pos n; cc_childs = replicate n empty } in
    let s₁ = child_config_insert s.next name (allocated with_childs name s) in
    if eq_ℤ cc.cc_status status_running then spawn_from s.next 0 n s₁ else s₁

-- A negative number of instances is a size that malloc cannot give: xmalloc ends the server.
unfoldable pub load_instances : ChildConfig → Str → ℤ → Server → Ran
load_instances cc name (pos n) s = Ran.returned true (load_group cc name n s)
load_instances cc name (negsuc n) s = Ran.exited s

module _ (lib : JsonC) where
  -- One round of the loop; `returned false` is the return of 0.
  unfoldable pub load_one : Option lib.Json → Server → Ran
  load_one none s = Ran.returned false s
  load_one (some t) s =
      if not (lib.json_object_is_type t JsonType.object)
      then Ran.returned false s
      else elim (child_config_from_json lib t) [
        | none ↦ Ran.returned false s
        | some cc ↦ elim cc.cc_command [
          | none ↦ Ran.returned false s
          | some command ↦ elim cc.cc_name [
            | none ↦ Ran.returned false s
            | some name ↦ load_instances (with_defaults cc) name (with_defaults cc).cc_instances s
          ]
        ]
      ]

  -- The rounds that are left go on where one has not returned.
  unfoldable pub go_on : (Server → Ran) → Ran → Ran
  go_on next (Ran.returned true s) = next s
  go_on next (Ran.returned false s) = Ran.returned false s
  go_on next (Ran.exited s) = Ran.exited s

  unfoldable pub load_from : lib.Json → ℕ → ℕ → Server → Ran
  load_from obj i zero s = Ran.returned true s
  load_from obj i (suc n) s =
      go_on (load_from obj (suc i) n) (load_one (lib.json_object_array_get_idx obj i) s)

  unfoldable pub load_dump : DumpFile → Server → Ran
  load_dump absent s = Ran.returned false s
  load_dump unreadable s = Ran.exited s
  load_dump (text []) s = Ran.returned true s
  load_dump (text (c ∷ x)) s = elim (lib.json_tokener_parse (until_nul (c ∷ x))) [
    | none ↦ Ran.returned false s
    | some obj ↦
        if lib.is_error obj
        then Ran.returned false s
        else if not (lib.json_object_is_type obj JsonType.array)
        then Ran.returned false s
        else load_from obj 0 (lib.json_object_array_length obj) s
  ]

load_group-IsAlive :
    (cc : ChildConfig) (name : Str) (n : ℕ) (s : Server)
    → IsAlive s
    → IsAlive (load_group cc name n s)
unfolding load_group
load_group-IsAlive conf name n s alive =
    let with_childs = record conf { cc_instances = pos n; cc_childs = replicate n empty } in
    let s₀ = allocated with_childs name s in
    let s₁ = child_config_insert s.next name s₀ in
    let alive₁ : IsAlive s₁ =
      same-IsAlive s₀ s₁ (unfold child_config_insert in refl)
        (allocated-IsAlive with_childs name s alive n refl refl) in
    elim (Bool-cases (eq_ℤ conf.cc_status status_running)) [
      | inl on ↦ rw on (
          spawn_from-IsAlive s.next 0 n with_childs s₁ alive₁
            (unfold child_config_insert allocated in ground (arith, ==_refl s.next))
            (λ j lo hi. get_elem?-replicate n j empty ∙ ground arith))
      | inr off ↦ rw off alive₁
    ]

load_instances-IsAlive :
    (conf : ChildConfig) (name : Str) (n : ℤ) (s : Server)
    → IsAlive s
    → IsAlive (state_of (load_instances conf name n s))
unfolding load_instances
load_instances-IsAlive conf name (pos n) s alive = load_group-IsAlive conf name n s alive
load_instances-IsAlive conf name (negsuc n) s alive = alive

module _ (lib : JsonC) where
  load_one-IsAlive :
      (t : Option lib.Json) (s : Server) → IsAlive s → IsAlive (state_of (load_one lib t s))
  unfolding load_one
  load_one-IsAlive none s alive = alive
  load_one-IsAlive (some t) s alive = grind (arith, load_instances-IsAlive)

  go_on-IsAlive :
      (next : Server → Ran) (r : Ran)
      → ((s : Server) → IsAlive s → IsAlive (state_of (next s)))
      → IsAlive (state_of r)
      → IsAlive (state_of (go_on lib next r))
  unfolding go_on
  go_on-IsAlive next (Ran.returned true s) nexts alive = nexts s alive
  go_on-IsAlive next (Ran.returned false s) nexts alive = alive
  go_on-IsAlive next (Ran.exited s) nexts alive = alive

  load_from-IsAlive :
      (obj : lib.Json) (i n : ℕ) (s : Server)
      → IsAlive s
      → IsAlive (state_of (load_from lib obj i n s))
  unfolding load_from
  load_from-IsAlive obj i zero s alive = alive
  load_from-IsAlive obj i (suc n) s alive =
      go_on-IsAlive (load_from lib obj (suc i) n)
        (load_one lib (lib.json_object_array_get_idx obj i) s) (load_from-IsAlive obj (suc i) n)
        (load_one-IsAlive _ s alive)

  -- From a live server load_dump leads to a live one, whatever the dump holds, wherever it gives up, and
  -- whatever fork answers.
  pub load_dump-IsAlive :
      (file : DumpFile) (s : Server) → IsAlive s → IsAlive (state_of (load_dump lib file s))
  unfolding load_dump
  load_dump-IsAlive DumpFile.absent s alive = alive
  load_dump-IsAlive DumpFile.unreadable s alive = alive
  load_dump-IsAlive (DumpFile.text []) s alive = alive
  load_dump-IsAlive (DumpFile.text (c ∷ x)) s alive = grind (arith, load_from-IsAlive)
