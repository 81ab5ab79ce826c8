-- ===== src/Child/Ids.antt =====
-- spawn_child_setids of cmd_server.c, on the calls of the operating system that they make.
use ubervisor.Common.{
  ℕ, suc, ◌≡◌, refl, sym, ap, ◌∙◌, inl, inr, arith, Bool, true, false, not, Option, none, some,
  if◌then◌else◌, Bool-cases, Str, codes,
}
use ubervisor.Common.Int.{ℤ, pos, minus_one, eq_ℤ, lt_ℤ}
use ubervisor.Config.{ChildConfig}

-- The calls, on a state `Os` of the child; a call that returns -1 gives `false`.
pub record Calls : Type 1 where
  pub Os : Type 0
  pub uid : Os → ℤ
  pub gid : Os → ℤ
  pub getpwnam : Str → Option ℤ
  pub getgrnam : Str → Option ℤ
  pub setgid : ℤ → Os → Bool × Os
  pub setegid : ℤ → Os → Bool × Os
  pub setuid : ℤ → Os → Bool × Os
  pub seteuid : ℤ → Os → Bool × Os

-- What setuid(2) and setgid(2) say: a call sets its own id, leaves the other alone, and changes nothing
-- where it fails.
pub record Documented (os : Calls) : Type 0 where
  pub uid-setuid : (u : ℤ) (k : os.Os) → (os.setuid u k).0 ≡ true → os.uid (os.setuid u k).1 ≡ u
  pub gid-setgid : (g : ℤ) (k : os.Os) → (os.setgid g k).0 ≡ true → os.gid (os.setgid g k).1 ≡ g
  pub gid-setuid : (u : ℤ) (k : os.Os) → os.gid (os.setuid u k).1 ≡ os.gid k
  pub gid-seteuid : (u : ℤ) (k : os.Os) → os.gid (os.seteuid u k).1 ≡ os.gid k
  pub gid-setegid : (g : ℤ) (k : os.Os) → os.gid (os.setegid g k).1 ≡ os.gid k
  pub uid-setgid : (g : ℤ) (k : os.Os) → os.uid (os.setgid g k).1 ≡ os.uid k
  pub uid-setegid : (g : ℤ) (k : os.Os) → os.uid (os.setegid g k).1 ≡ os.uid k
  pub uid-seteuid : (u : ℤ) (k : os.Os) → os.uid (os.seteuid u k).1 ≡ os.uid k
  pub setuid-fails : (u : ℤ) (k : os.Os) → (os.setuid u k).0 ≡ false → (os.setuid u k).1 ≡ k
  pub setgid-fails : (g : ℤ) (k : os.Os) → (os.setgid g k).0 ≡ false → (os.setgid g k).1 ≡ k

-- The child goes on, or has logged which call failed and exits.
pub data Setup (Os : Type 0) : Type 0 where
  ready : Os → Setup Os
  failed : Str → Setup Os

above_zero : (u : ℕ) → eq_ℤ (pos (suc u)) (pos 0) ≡ false
above_zero u = ground arith

not_root : {A : Type 0} (u : ℕ) (a b : A) → (if not (eq_ℤ (pos (suc u)) (pos 0)) then a else b) ≡ a
not_root u a b = rw (above_zero u) refl

positive : (g : ℕ) → lt_ℤ (pos 0) (pos (suc g)) ≡ true
positive g = ground arith

module _ (os : Calls) where
  open os use {Os, uid, gid, getpwnam, getgrnam, setgid, setegid, setuid, seteuid}

  unfoldable pub check : Str → Bool × Os → (Os → Setup Os) → Setup Os
  check func (true, k) next = next k
  check func (false, k) next = failed func

  -- A call that has to fail.
  unfoldable pub refuse : Str → Bool × Os → (Os → Setup Os) → Setup Os
  refuse func (true, k) next = failed func
  refuse func (false, k) next = next k

  -- `if (cc->cc_gid != -1)`
  unfoldable pub take_gid : ℤ → Os → (Os → Setup Os) → Setup Os
  take_gid g k next =
      if not (eq_ℤ g minus_one)
      then check (codes "setgid") (setgid g k) (λ k₁. check (codes "setegid") (setegid g k₁) next)
      else next k

  -- `if (cc->cc_uid != -1)`
  unfoldable pub take_uid : ℤ → Os → (Os → Setup Os) → Setup Os
  take_uid u k next =
      if not (eq_ℤ u minus_one)
      then check (codes "setuid") (setuid u k) (λ k₁. check (codes "seteuid") (seteuid u k₁) (λ k₂.
        if not (eq_ℤ u (pos 0)) then refuse (codes "setuid") (setuid (pos 0) k₂) next else next k₂))
      else next k

  -- `if (cc->cc_gid > 0)`
  unfoldable pub keep_gid : ℤ → Os → Setup Os
  keep_gid g k =
      if lt_ℤ (pos 0) g then refuse (codes "setgid") (setgid (pos 0) k) ready else ready k

  -- The ids that the group asks for.
  unfoldable pub wanted_uid : ChildConfig → Option ℤ
  wanted_uid cc = elim cc.cc_username [ none ↦ some cc.cc_uid | some name ↦ getpwnam name ]

  unfoldable pub wanted_gid : ChildConfig → Option ℤ
  wanted_gid cc = elim cc.cc_groupname [ none ↦ some cc.cc_gid | some name ↦ getgrnam name ]

  unfoldable pub spawn_child_setids : ChildConfig → Os → Setup Os
  spawn_child_setids cc k = elim (wanted_uid cc) [
    | none ↦ failed (codes "getpwnam")
    | some u ↦ elim (wanted_gid cc) [
      | none ↦ failed (codes "getgrnam")
      | some g ↦ take_gid g k (λ k₁. take_uid u k₁ (keep_gid g))
    ]
  ]

  -- A child that is ready did without a failed call, and a call that has to fail has failed.
  module _ (next : Os → Setup Os) (k' : Os) where
    check-ready :
        (func : Str) (r : Bool × Os)
        → check func r next ≡ ready k'
        → (r.0 ≡ true) × (next r.1 ≡ ready k')
    unfolding check
    check-ready func (true, k) e = (refl, e)
    check-ready func (false, k) e = absurd (cc e)

    refuse-ready :
        (func : Str) (r : Bool × Os)
        → refuse func r next ≡ ready k'
        → (r.0 ≡ false) × (next r.1 ≡ ready k')
    unfolding refuse
    refuse-ready func (true, k) e = absurd (cc e)
    refuse-ready func (false, k) e = (refl, e)

  module _ (doc : Documented os) where
    keep_gid-ready :
        (g : ℤ) (k k' : Os)
        → keep_gid g k ≡ ready k'
        → (k ≡ k') × (lt_ℤ (pos 0) g ≡ true → (setgid (pos 0) k').0 ≡ false)
    unfolding keep_gid
    keep_gid-ready g k k' e = elim (Bool-cases (lt_ℤ (pos 0) g)) [
      | inl positive ↦
          let (fails, e₁) =
            refuse-ready ready k' (codes "setgid") (setgid (pos 0) k) (ground arith) in
          let same : k ≡ k' = sym (doc.setgid-fails (pos 0) k fails) ∙ cc e₁ in
          (same, λ h. rw (← same) fails)
      | inr zero_or_less ↦ (ground arith, λ h. ground arith)
    ]

    taken-ready :
        (u g : ℕ) (k k' : Os)
        → take_gid (pos (suc g)) k (λ k₁. take_uid (pos (suc u)) k₁ (keep_gid (pos (suc g))))
          ≡ ready k'
        → (uid k' ≡ pos (suc u))
          × (gid k' ≡ pos (suc g))
          × ((setuid (pos 0) k').0 ≡ false)
          × ((setgid (pos 0) k').0 ≡ false)
    unfolding take_gid take_uid
    taken-ready u g k k' e =
        let gg = pos (suc g) in
        let uu = pos (suc u) in
        let (ok₁, e₁) = check-ready _ k' (codes "setgid") (setgid gg k) e in
        let k₁ = (setgid gg k).1 in
        let (ok₂, e₂) = check-ready _ k' (codes "setegid") (setegid gg k₁) e₁ in
        let k₂ = (setegid gg k₁).1 in
        let (ok₃, e₃) = check-ready _ k' (codes "setuid") (setuid uu k₂) e₂ in
        let k₃ = (setuid uu k₂).1 in
        let (ok₄, e₄) = check-ready _ k' (codes "seteuid") (seteuid uu k₃) e₃ in
        let k₄ = (seteuid uu k₃).1 in
        let (no_root, e₅) =
          refuse-ready _ k' (codes "setuid") (setuid (pos 0) k₄) (sym (not_root u _ _) ∙ e₄) in
        let (last, no_group) = keep_gid-ready gg (setuid (pos 0) k₄).1 k' e₅ in
        let same : k₄ ≡ k' = sym (doc.setuid-fails (pos 0) k₄ no_root) ∙ last in
        (
          ap uid (sym same) ∙ doc.uid-seteuid uu k₃ ∙ doc.uid-setuid uu k₂ ok₃,
          ap gid (sym same)
              ∙ doc.gid-seteuid uu k₃
              ∙ doc.gid-setuid uu k₂
              ∙ doc.gid-setegid gg k₁
              ∙ doc.gid-setgid gg k ok₁,
          rw (← same) no_root,
          no_group (positive g),
        )

    -- A child of a group that asks for a uid and a gid above 0, as numbers or by names, goes on only with
    -- these two ids, and in a state in which it can take neither uid 0 nor gid 0 again.
    pub spawn_child_setids-ready :
        (conf : ChildConfig) (u g : ℕ) (k k' : Os)
        → wanted_uid conf ≡ some (pos (suc u))
        → wanted_gid conf ≡ some (pos (suc g))
        → spawn_child_setids conf k ≡ ready k'
        → (uid k' ≡ pos (suc u))
          × (gid k' ≡ pos (suc g))
          × ((setuid (pos 0) k').0 ≡ false)
          × ((setgid (pos 0) k').0 ≡ false)
    unfolding spawn_child_setids
    spawn_child_setids-ready conf u g k k' asks_uid asks_gid e =
        let both : spawn_child_setids conf k
            ≡ take_gid (pos (suc g)) k (λ k₁. take_uid (pos (suc u)) k₁ (keep_gid (pos (suc g)))) =
          rw (spawn_child_setids, asks_uid) (rw asks_gid refl) in
        taken-ready u g k k' (sym both ∙ e)

    check-fails :
        (func : Str) (r : Bool × Os) (next : Os → Setup Os)
        → ((k : Os) → r.1 ≡ k → (x : Str) × (next k ≡ failed x))
        → (x : Str) × (check func r next ≡ failed x)
    unfolding check
    check-fails func (true, k) next fails = fails k refl
    check-fails func (false, k) next fails = (func, refl)

    refused :
        (func : Str) (r : Bool × Os) (next : Os → Setup Os)
        → r.0 ≡ true
        → refuse func r next ≡ failed func
    unfolding refuse
    refused func (true, k) next can = refl
    refused func (false, k) next can = cc can

    keep_gid-fails :
        (g : ℕ) (k : Os)
        → (setgid (pos 0) k).0 ≡ true
        → (x : Str) × (keep_gid (pos (suc g)) k ≡ failed x)
    unfolding keep_gid
    keep_gid-fails g k can = (codes "setgid", rw (positive g) (refused _ _ _ can))

    -- A server that runs as root starts no child of a group that asks for a gid above 0 and for no uid:
    -- a process with uid 0 may take gid 0 again, and the child takes that for a failure and exits.
    pub spawn_child_setids-gid_only :
        (conf : ChildConfig) (g : ℕ) (k : Os)
        → ((k₁ : Os) → uid k₁ ≡ pos 0 → (setgid (pos 0) k₁).0 ≡ true)
        → uid k ≡ pos 0
        → wanted_uid conf ≡ some minus_one
        → wanted_gid conf ≡ some (pos (suc g))
        → (x : Str) × (spawn_child_setids conf k ≡ failed x)
    unfolding spawn_child_setids take_gid take_uid
    spawn_child_setids-gid_only conf g k privileged root asks_uid asks_gid =
        let gg = pos (suc g) in
        let both : spawn_child_setids conf k
            ≡ take_gid gg k (λ k₁. take_uid minus_one k₁ (keep_gid gg)) =
          rw (spawn_child_setids, asks_uid) (rw asks_gid refl) in
        rw both (
          check-fails _ (setgid gg k) _ (λ k₁ e₁. check-fails _ (setegid gg k₁) _ (λ k₂ e₂.
            keep_gid-fails g k₂ (
              privileged k₂ (
                ap uid (sym e₂)
                ∙ doc.uid-setegid gg k₁
                ∙ ap uid (sym e₁)
                ∙ doc.uid-setgid gg k
                ∙ root)))))
