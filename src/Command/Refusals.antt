-- ===== src/Command/Refusals.antt =====
-- The requests that c_updt of cmd_server.c refuses.
use ubervisor.Common.{
  ℕ, ◌≡◌, ◌⊎◌, inl, inr, refl, ap, Bool, true, false, not, ◌&&◌, none, some, arith, Bool-cases,
  Option-cases, Str, codes,
}
use ubervisor.Common.Int.{pos, minus_one, eq_ℤ, eq_ℤ→eq, lt_ℤ}
use ubervisor.Config.{ChildConfig, child_config_unserialize}
use ubervisor.Json.{JsonC}
use ubervisor.Server.{Server, emit, logged, update_error}
use ubervisor.Command.{Disk, max_instances, child_config_find_by_name, send_status_msg}
use ubervisor.Command.Update.{refusal, update_group, c_updt}

-- What an update that is not refused asks for.
abbrev pub IsAllowed : ChildConfig → Type 0
IsAllowed cc =
    (eq_ℤ cc.cc_uid minus_one ≡ true)
    × (eq_ℤ cc.cc_gid minus_one ≡ true)
    × (cc.cc_command ≡ none)
    × ((eq_ℤ cc.cc_instances minus_one ≡ true)
        ⊎ ((lt_ℤ cc.cc_instances (pos 1) ≡ false)
            × (lt_ℤ (pos max_instances) cc.cc_instances ≡ false)))

bounded :
    (cc : ChildConfig)
    → (not (eq_ℤ cc.cc_instances minus_one) && lt_ℤ cc.cc_instances (pos 1)) ≡ false
    → lt_ℤ (pos max_instances) cc.cc_instances ≡ false
    → (eq_ℤ cc.cc_instances minus_one ≡ true)
      ⊎ ((lt_ℤ cc.cc_instances (pos 1) ≡ false)
          × (lt_ℤ (pos max_instances) cc.cc_instances ≡ false))
bounded cc low high = elim (Bool-cases (eq_ℤ cc.cc_instances minus_one)) [
  | inl unset ↦ inl unset
  | inr given ↦ inr (ground arith, high)
]

refusal-IsAllowed : (cc : ChildConfig) → refusal cc ≡ none → IsAllowed cc
unfolding refusal
refusal-IsAllowed cc e =
    let uid : eq_ℤ cc.cc_uid minus_one ≡ true = ground arith in
    let gid : eq_ℤ cc.cc_gid minus_one ≡ true = ground arith in
    let command : cc.cc_command ≡ none = ground arith in
    let low : (not (eq_ℤ cc.cc_instances minus_one) && lt_ℤ cc.cc_instances (pos 1)) ≡ false =
      ground arith in
    let high : lt_ℤ (pos max_instances) cc.cc_instances ≡ false = ground arith in
    (uid, gid, command, bounded cc low high)

-- What is wrong with a group that is refused.
abbrev pub IsWrong : ChildConfig → Server → Type 0
IsWrong cc s =
    (cc.cc_name ≡ none)
    ⊎ ((name : Str) × (cc.cc_name ≡ some name)
        × ((child_config_find_by_name name s ≡ none) ⊎ ¬ IsAllowed cc))

allowed-refusal : (cc : ChildConfig) → IsAllowed cc → refusal cc ≡ none
unfolding refusal
allowed-refusal cc (uid, gid, command, inl unset) =
    let small : lt_ℤ (pos max_instances) cc.cc_instances ≡ false =
      rw (eq_ℤ→eq cc.cc_instances minus_one unset) refl in
    ground arith
allowed-refusal cc (uid, gid, command, inr (low, high)) = ground arith

module _ (lib : JsonC) (auto_dump : Bool) (disk : Disk) where
  abbrev pub Outcome : Str → Server → Type 0
  Outcome buf s =
      ((child_config_unserialize lib buf ≡ none)
        × (c_updt lib auto_dump disk buf s ≡ (
          false,
          send_status_msg lib auto_dump disk false (codes "failure") (emit (logged update_error) s),
        )))
      ⊎ (((cc : ChildConfig) × (child_config_unserialize lib buf ≡ some cc) × IsWrong cc s)
          × (code : Bool) × (msg : Str) × ((c_updt lib auto_dump disk buf s).1
              ≡ send_status_msg lib auto_dump disk code msg s))
      ⊎ ((cc : ChildConfig) × (name : Str) × (c : ℕ) × (child_config_unserialize lib buf ≡ some cc)
          × (cc.cc_name ≡ some name)
          × (child_config_find_by_name name s ≡ some c)
          × IsAllowed cc
          × (c_updt lib auto_dump disk buf s ≡ (true, update_group lib auto_dump disk c cc s)))

  pub c_updt-cases : (buf : Str) (s : Server) → Outcome buf s
  unfolding c_updt
  c_updt-cases buf s = elim (Option-cases (child_config_unserialize lib buf)) [
    | inl bad ↦ inl (bad, rw (c_updt, bad) refl)
    | inr (cc, parsed) ↦ elim (Option-cases cc.cc_name) [
      | inl unnamed ↦ inr (
          inl (
            (cc, parsed, inl unnamed),
            false,
            codes "need name",
            rw (c_updt, parsed, unnamed) refl,
          ))
      | inr (name, named) ↦ elim (Option-cases (child_config_find_by_name name s)) [
        | inl unknown ↦ inr (
            inl (
              (cc, parsed, inr (name, named, inl unknown)),
              false,
              codes "not found",
              rw (c_updt, parsed, named, unknown) refl,
            ))
        | inr (c, known) ↦ elim (Option-cases (refusal cc)) [
          | inr (reply, refused) ↦ inr (
              inl (
                (
                  cc,
                  parsed,
                  inr (name, named, inr (λ ok. let fine = allowed-refusal cc ok in ground arith)),
                ),
                reply.0,
                reply.1,
                rw (c_updt, parsed, named, known, refused) refl,
              ))
          | inl allowed ↦ inr (
              inr (
                cc,
                name,
                c,
                parsed,
                named,
                known,
                refusal-IsAllowed cc allowed,
                rw (c_updt, parsed, named, known, allowed)
                    (ap
                      (λ n. (true, update_group lib auto_dump disk c (record cc { cc_name = n }) s))
                      named),
              ))
        ]
      ]
    ]
  ]
