-- ===== src/Client/Start.antt =====
-- c_spwn and c_updt of cmd_server.c on what cmd_start and cmd_update send.
use mathlib.Core.Path.{subst}
use ubervisor.Common.{
  ◌≡◌, refl, ◌∙◌, inl, inr, arith, ℕ, not, ◌&&◌, Bool, true, false, List, [], ◌∷◌, Option, none,
  some, Option-cases, Str,
}
use ubervisor.Common.Int.{ℤ, pos, negsuc, minus_one, eq_ℤ, lt_ℤ, to_ℕ}
use ubervisor.Json.{JsonC, Documented}
use ubervisor.Config.{
  cut_age, ChildConfig, child_config_new, to_json, child_config_serialize, child_config_unserialize,
}
use ubervisor.Config.RoundTrip.{child_config_from_json-to_json, is_object-to_json}
use ubervisor.Config.Status.{Strtol}
use ubervisor.Server.{Server}
use ubervisor.Command.{
  Disk, max_instances, child_config_find_by_name, c_spwn, check_instances, created,
}
use ubervisor.Command.Update.{refusal, update_group, c_updt}
use ubervisor.Client.Printed.{Reads}
use ubervisor.Client.Options.{
  Switch, status_option, update_option, start_option, options, start_arguments, update_arguments,
  start_config, start_new, update_config,
}

-- What no option of cmd_start sets.
abbrev Fresh : ChildConfig → Type 0
Fresh cc = (cc.cc_error ≡ pos 0) × (cc.cc_errtime ≡ 0) × (cc.cc_childs ≡ [])

-- What no option of cmd_update sets.
abbrev Modest : ChildConfig → Type 0
Modest cc = Fresh cc × (cc.cc_uid ≡ minus_one) × (cc.cc_gid ≡ minus_one) × (cc.cc_command ≡ none)

module _ (c : Strtol) where
  start_option-Fresh :
      (ch : Switch) (x : Str) (cc dd : ChildConfig)
      → start_option c ch x cc ≡ some dd
      → Fresh cc
      → Fresh dd
  unfolding start_option status_option
  start_option-Fresh Switch.age x cc dd e fresh = ground arith
  start_option-Fresh Switch.dir x cc dd e fresh = ground arith
  start_option-Fresh Switch.stderr x cc dd e fresh = ground arith
  start_option-Fresh Switch.fatal x cc dd e fresh = ground arith
  start_option-Fresh Switch.gid x cc dd e fresh = ground arith
  start_option-Fresh Switch.groupname x cc dd e fresh = ground arith
  start_option-Fresh Switch.help x cc dd e fresh = ground arith
  start_option-Fresh Switch.heartbeat x cc dd e fresh = ground arith
  start_option-Fresh Switch.instances x cc dd e fresh = ground arith
  start_option-Fresh Switch.killsig x cc dd e fresh = ground arith
  start_option-Fresh Switch.stdout x cc dd e fresh = ground arith
  start_option-Fresh Switch.status x cc dd e fresh = ground arith
  start_option-Fresh Switch.uid x cc dd e fresh = ground arith
  start_option-Fresh Switch.username x cc dd e fresh = ground arith
  start_option-Fresh Switch.other x cc dd e fresh = ground arith

  update_option-Modest :
      (ch : Switch) (x : Str) (cc dd : ChildConfig)
      → update_option c ch x cc ≡ some dd
      → Modest cc
      → Modest dd
  unfolding update_option status_option
  update_option-Modest Switch.age x cc dd e fresh = ground arith
  update_option-Modest Switch.dir x cc dd e fresh = ground arith
  update_option-Modest Switch.stderr x cc dd e fresh = ground arith
  update_option-Modest Switch.fatal x cc dd e fresh = ground arith
  update_option-Modest Switch.gid x cc dd e fresh = ground arith
  update_option-Modest Switch.groupname x cc dd e fresh = ground arith
  update_option-Modest Switch.help x cc dd e fresh = ground arith
  update_option-Modest Switch.heartbeat x cc dd e fresh = ground arith
  update_option-Modest Switch.instances x cc dd e fresh = ground arith
  update_option-Modest Switch.killsig x cc dd e fresh = ground arith
  update_option-Modest Switch.stdout x cc dd e fresh = ground arith
  update_option-Modest Switch.status x cc dd e fresh = ground arith
  update_option-Modest Switch.uid x cc dd e fresh = ground arith
  update_option-Modest Switch.username x cc dd e fresh = ground arith
  update_option-Modest Switch.other x cc dd e fresh = ground arith

  -- What a round keeps, the loop keeps.
  options_keep :
      (P : ChildConfig → Type 0) (round : Switch → Str → ChildConfig → Option ChildConfig)
      → ((ch : Switch) (x : Str) (cc dd : ChildConfig) → round ch x cc ≡ some dd → P cc → P dd)
      → (l : List (Switch × Str)) (cc dd : ChildConfig) → options c round l cc ≡ some dd
      → P cc
      → P dd
  unfolding options
  options_keep P round kept [] cc dd e here = subst P (ground arith) here
  options_keep P round kept ((ch, x) ∷ l) cc dd e here = elim (Option-cases (round ch x cc)) [
    | inl ends ↦ absurd (ground arith)
    | inr (mid, goes_on) ↦
        options_keep P round kept l mid dd (ground arith) (kept ch x cc mid goes_on here)
  ]

  start_arguments-shape :
      (args : List Str) (mid cc : ChildConfig)
      → start_arguments c args mid ≡ some cc
      → Fresh mid
      → Fresh cc
        × ((name : Str) × (command : List Str) × (cc.cc_name ≡ some name)
            × (cc.cc_command ≡ some command))
  unfolding start_arguments
  start_arguments-shape [] mid cc e fresh = absurd (ground arith)
  start_arguments-shape (name ∷ []) mid cc e fresh = absurd (ground arith)
  start_arguments-shape (name ∷ command ∷ args) mid cc e fresh =
      (ground arith, (name, command ∷ args, ground arith, ground arith))

  update_arguments-shape :
      (args : List Str) (mid cc : ChildConfig)
      → update_arguments c args mid ≡ some cc
      → Modest mid
      → Modest cc × ((name : Str) × (cc.cc_name ≡ some name))
  unfolding update_arguments
  update_arguments-shape [] mid cc e modest = absurd (ground arith)
  update_arguments-shape (name ∷ []) mid cc e modest = (ground arith, (name, ground arith))
  update_arguments-shape (name ∷ x ∷ more) mid cc e modest = absurd (ground arith)

  start_config-shape :
      (opts : List (Switch × Str)) (args : List Str) (cc : ChildConfig)
      → start_config c opts args ≡ some cc
      → Fresh cc
        × ((name : Str) × (command : List Str) × (cc.cc_name ≡ some name)
            × (cc.cc_command ≡ some command))
  unfolding start_config
  start_config-shape opts args cc e =
      elim (Option-cases (options c (start_option c) opts start_new)) [
        | inl ends ↦ absurd (ground arith)
        | inr (mid, looped) ↦
            let new_Fresh : Fresh start_new =
              unfold start_new child_config_new in (refl, refl, refl) in
            let fresh : Fresh mid =
              options_keep Fresh (start_option c) start_option-Fresh opts start_new mid looped
                new_Fresh in
            let last : start_arguments c args mid ≡ some cc = ground arith in
            start_arguments-shape args mid cc last fresh
      ]

  update_config-shape :
      (opts : List (Switch × Str)) (args : List Str) (cc : ChildConfig)
      → update_config c opts args ≡ some cc
      → Modest cc × ((name : Str) × (cc.cc_name ≡ some name))
  unfolding update_config
  update_config-shape opts args cc e =
      elim (Option-cases (options c (update_option c) opts child_config_new)) [
        | inl ends ↦ absurd (ground arith)
        | inr (mid, looped) ↦
            let new_Modest : Modest child_config_new =
              unfold child_config_new in ((refl, refl, refl), refl, refl, refl) in
            let modest : Modest mid =
              options_keep Modest (update_option c) update_option-Modest opts child_config_new mid
                looped new_Modest in
            let last : update_arguments c args mid ≡ some cc = ground arith in
            update_arguments-shape args mid cc last modest
      ]

positive_set : (n : ℤ) → lt_ℤ n (pos 1) ≡ false → eq_ℤ n minus_one ≡ false
positive_set (pos n) h = refl
positive_set (negsuc n) h = absurd (ground arith)

module _ (lib : JsonC) (doc : Documented lib) where
  -- The group that the server reads is the group that was sent.
  child_config_unserialize-serialize :
      (cc : ChildConfig) (name : Str)
      → Reads lib (child_config_serialize lib cc) (to_json lib cc)
      → cc.cc_name ≡ some name
      → eq_ℤ cc.cc_age minus_one ≡ false
      → Fresh cc
      → child_config_unserialize lib (child_config_serialize lib cc) ≡ some (cut_age cc)
  unfolding child_config_unserialize child_config_serialize
  child_config_unserialize-serialize cc name (parses, sound) named aged fresh =
      rw (child_config_unserialize, parses)
        (rw (sound, is_object-to_json lib doc cc)
          (child_config_from_json-to_json lib doc cc name named aged (rw (fresh.0) refl)
            ∙ ground arith))

  module _ (c : Strtol) (auto_dump : Bool) (disk : Disk) (opts : List (Switch × Str))
      (args : List Str) (cc : ChildConfig) (s : Server)
      (reads : Reads lib (child_config_serialize lib cc) (to_json lib cc))
      (aged : eq_ℤ cc.cc_age minus_one ≡ false) where
    -- What cmd_start sends makes c_spwn create exactly the group of its options and arguments, under its
    -- name and with its number of instances, where the name is free, the number lies between 1 and
    -- the limit, the age is not -1, and json-c parses what it has printed for the group.
    pub c_spwn-start_config :
        (name : Str)
        → start_config c opts args ≡ some cc
        → cc.cc_name ≡ some name
        → child_config_find_by_name name s ≡ none
        → lt_ℤ cc.cc_instances (pos 1) ≡ false
        → lt_ℤ (pos max_instances) cc.cc_instances ≡ false
        → c_spwn lib auto_dump disk (child_config_serialize lib cc) s
          ≡ (true, created lib auto_dump disk s.next (cut_age cc) name (to_ℕ cc.cc_instances) s)
    unfolding c_spwn check_instances
    c_spwn-start_config name starts named free least most =
        let shape = start_config-shape c opts args cc starts in
        let (_, command, _, commands) = shape.1 in
        let sent = child_config_unserialize-serialize cc name reads named aged shape.0 in
        let set_to = positive_set cc.cc_instances least in ground arith

    -- What cmd_update sends makes c_updt update exactly the group of that name to its options, and is never refused for a
    -- uid, a gid or a command, where the group is there, a number of instances is not given or lies between
    -- 1 and the limit, the age is not -1, and json-c parses what it has printed for the group.
    pub c_updt-update_config :
        (name : Str) (g : ℕ)
        → update_config c opts args ≡ some cc
        → cc.cc_name ≡ some name
        → child_config_find_by_name name s ≡ some g
        → (not (eq_ℤ cc.cc_instances minus_one) && lt_ℤ cc.cc_instances (pos 1)) ≡ false
        → lt_ℤ (pos max_instances) cc.cc_instances ≡ false
        → c_updt lib auto_dump disk (child_config_serialize lib cc) s
          ≡ (true, update_group lib auto_dump disk g (cut_age cc) s)
    unfolding c_updt refusal
    c_updt-update_config name g updates named there least most =
        let modest = (update_config-shape c opts args cc updates).0 in
        let sent = child_config_unserialize-serialize cc name reads named aged modest.0 in
        let passes : refusal (cut_age cc) ≡ none = ground arith in ground arith
