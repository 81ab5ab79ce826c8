-- ===== src/Command/Restore.antt =====
-- load_dump of cmd_server.c on the groups that c_dump has written.
use ubervisor.Common.{
  ℕ, zero, suc, ◌+◌, ◌<◌, ◌≡◌, refl, ap, ◌∙◌, arith, true, false, List, [], ◌∷◌, ◌++◌, replicate,
  Option, none, some, Str, length, All,
}
use ubervisor.Common.Int.{pos, minus_one, eq_ℤ, to_int}
use ubervisor.Json.{JsonType, JsonC, Documented}
use mathlib.Core.List.{map}
use ubervisor.Config.{ChildConfig, to_json, empty, status_running}
use ubervisor.Config.RoundTrip.{child_config_from_json-to_json, is_object-to_json}
use ubervisor.Server.{Server}
use ubervisor.Command.Started.{Started, load_group-Started}
use ubervisor.Command.Subs.{Ran}
use ubervisor.Command.Read.{until_nul}
use ubervisor.Command.Load.{
  text, with_defaults, load_group, load_instances, load_one, go_on, load_from, load_dump,
}

-- A group as it stands in a dump, with its name and its number of instances.
pub record Dumped : Type 0 where
  pub conf : ChildConfig
  pub name : Str
  pub command : List Str
  pub number : ℕ

-- What the commands see to for every group of the server.
pub record IsComplete (d : Dumped) : Type 0 where
  pub named : d.conf.cc_name ≡ some d.name
  pub commanded : d.conf.cc_command ≡ some d.command
  pub counted : d.conf.cc_instances ≡ pos d.number
  pub aged : eq_ℤ d.conf.cc_age minus_one ≡ false
  pub errors : eq_ℤ d.conf.cc_error minus_one ≡ false
  pub signalled : eq_ℤ d.conf.cc_killsig minus_one ≡ false
  pub stated : eq_ℤ d.conf.cc_status minus_one ≡ false

-- The groups started one after the other, with every field as it was, but for the children and the
-- time of the last error.
abbrev pub restored : List Dumped → Server → Server
restored [] s = s
restored (d ∷ ds) s = restored ds (
    load_group (record d.conf { cc_age = to_int d.conf.cc_age; cc_errtime = 0; cc_childs = [] })
      d.name d.number s)

-- The object of a group in the array.
abbrev pub member : (lib : JsonC) → List Dumped → ℕ → Option lib.Json
member lib [] j = none
member lib (d ∷ ds) zero = some (to_json lib d.conf)
member lib (d ∷ ds) (suc j) = member lib ds j

module _ (lib : JsonC) (doc : Documented lib) where
  load_one-to_json :
      (d : Dumped) (s : Server)
      → IsComplete d
      → load_one lib (some (to_json lib d.conf)) s
        ≡ Ran.returned true (
            load_group
              (record d.conf { cc_age = to_int d.conf.cc_age; cc_errtime = 0; cc_childs = [] })
              d.name
              d.number
              s)
  unfolding load_one with_defaults load_instances
  load_one-to_json d s ok =
      let parsed =
        child_config_from_json-to_json lib doc d.conf d.name ok.named ok.aged ok.errors in
      let loaded : Option Str → Option (List Str) → Ran = λ n k. Ran.returned true (
        load_group
          (record d.conf {
            cc_name = n;
            cc_command = k;
            cc_instances = pos d.number;
            cc_age = to_int d.conf.cc_age;
            cc_errtime = 0;
            cc_childs = [];
          })
          d.name d.number s) in
      rw (is_object-to_json lib doc d.conf, parsed)
        (rw ok.commanded (
          rw ok.named (
            rw (ok.counted, ok.signalled, ok.stated)
              (ap (λ k. loaded d.conf.cc_name k) ok.commanded
                ∙ ap (λ n. loaded n (some d.command)) ok.named))))

  load_from-restored :
      (ds : List Dumped) (obj : lib.Json) (i n : ℕ) (s : Server)
      → All IsComplete ds
      → n ≡ length ds
      → ((j : ℕ) → j < n → lib.json_object_array_get_idx obj (i + j) ≡ member lib ds j)
      → load_from lib obj i n s ≡ Ran.returned true (restored ds s)
  unfolding load_from go_on
  load_from-restored [] obj i zero s ok size at = refl
  load_from-restored [] obj i (suc n) s ok size at = absurd (omega arith)
  load_from-restored (d ∷ ds) obj i zero s ok size at = absurd (omega arith)
  load_from-restored (d ∷ ds) obj i (suc n) s ok size at =
      let here : lib.json_object_array_get_idx obj i ≡ some (to_json lib d.conf) =
        ap (λ j. lib.json_object_array_get_idx obj j) (omega arith) ∙ at 0 (omega arith) in
      rw (here, load_one-to_json d s ok.0)
        (load_from-restored ds obj (suc i) n _ ok.1 (omega arith) (λ j h.
          ap (λ k. lib.json_object_array_get_idx obj k) (omega arith) ∙ at (suc j) (omega arith)))

  -- Where the file has text that json-c reads as the array of the objects of complete groups, load_dump returns success
  -- and has run load_group for each in the order of the dump, with the fields that it had when it was dumped, but for the
  -- age, which is cut to 32 bits, the children and the time of the last error.
  pub load_dump-restored :
      (ds : List Dumped) (c : ℕ) (x : List ℕ) (obj : lib.Json) (s : Server)
      → All IsComplete ds
      → lib.json_tokener_parse (until_nul (c ∷ x)) ≡ some obj
      → lib.is_error obj ≡ false
      → lib.json_object_is_type obj JsonType.array ≡ true
      → lib.json_object_array_length obj ≡ length ds
      → ((j : ℕ) → j < length ds → lib.json_object_array_get_idx obj j ≡ member lib ds j)
      → load_dump lib (text (c ∷ x)) s ≡ Ran.returned true (restored ds s)
  unfolding load_dump
  load_dump-restored ds c x obj s ok parsed fine array size at =
      rw (load_dump, parsed)
        (rw (fine, array, size)
          (load_from-restored ds obj 0 (length ds) s ok refl
            (λ j h. ap (λ k. lib.json_object_array_get_idx obj k) (omega arith) ∙ at j h)))

  -- A dump of one complete group that was running starts it: where the file has text that json-c reads as the array of the
  -- object of the group, and fork gives a pid for each of its instances, load_dump returns success, and the server has the
  -- group with the fields that it had when it was dumped, but for the age, which is cut to 32 bits, and the time of
  -- the last error; each of its instances runs under the pid that fork gave for it.
  pub load_dump-Started :
      (d : Dumped) (pids : List ℕ) (rest : List (Option ℕ)) (c : ℕ) (x : List ℕ) (obj : lib.Json)
      (s : Server)
      → IsComplete d
      → d.conf.cc_status ≡ status_running
      → d.number ≡ length pids
      → s.forks ≡ map some pids ++ rest
      → lib.json_tokener_parse (until_nul (c ∷ x)) ≡ some obj
      → lib.is_error obj ≡ false
      → lib.json_object_is_type obj JsonType.array ≡ true
      → lib.json_object_array_length obj ≡ 1
      → lib.json_object_array_get_idx obj 0 ≡ some (to_json lib d.conf)
      → (t : Server) × (load_dump lib (text (c ∷ x)) s ≡ Ran.returned true t)
        × Started s.next 0 pids
            (record d.conf {
              cc_age = to_int d.conf.cc_age;
              cc_errtime = 0;
              cc_instances = pos (length pids);
              cc_childs = replicate (length pids) empty;
            })
            (record s { next = suc s.next })
            t
  load_dump-Started d pids rest c x obj s ok runs many forks parsed fine array size at =
      let conf = record d.conf { cc_age = to_int d.conf.cc_age; cc_errtime = 0; cc_childs = [] } in
      let first : (j : ℕ) → j < 1 → lib.json_object_array_get_idx obj j ≡ member lib (d ∷ []) j =
        λ j h. let zero_th : j ≡ 0 = omega arith in rw zero_th at in
      (
        load_group conf d.name (length pids) s,
        load_dump-restored (d ∷ []) c x obj s (ok, tt) parsed fine array size first
            ∙ ap (λ n. Ran.returned true (load_group conf d.name n s)) many,
        load_group-Started conf d.name pids rest s runs forks,
      )
