-- ===== src/Child/Exec.antt =====
-- spawn_child of cmd_server.c: what the child does between fork and execv.
use ubervisor.Common.{
  ◌≡◌, ◌⊎◌, refl, sym, ap, ◌∙◌, inl, inr, arith, ℕ, suc, Bool, List, [], ◌∷◌, ◌++◌, Option, none,
  some, if◌then◌else◌, Option-cases, Bool-cases, Str, codes,
}
use ubervisor.Common.Int.{ℤ, pos}
use ubervisor.Config.{ChildConfig}
use ubervisor.Child.{replace_str, instance_str}
use ubervisor.Child.Ids.{
  Calls, Documented, Setup, ready, failed, spawn_child_setids, spawn_child_setids-ready, wanted_uid,
  wanted_gid,
}

-- The calls of the child that are not about ids. `open_onto` is open, dup2 onto a descriptor and close.
pub record FileCalls (os : Calls) : Type 0 where
  pub chdir : Str → os.Os → Bool × os.Os
  pub close_std : os.Os → os.Os
  pub open_onto : ℕ → Str → os.Os → Bool × os.Os
  pub setsid : os.Os → os.Os

-- None of them changes what setuid and setgid go by.
pub record KeepIds (os : Calls) (files : FileCalls os) : Type 0 where
  pub keep-chdir :
      (x : Str) (k : os.Os)
      → (os.uid (files.chdir x k).1 ≡ os.uid k) × (os.gid (files.chdir x k).1 ≡ os.gid k)
  pub keep-close :
      (k : os.Os)
      → (os.uid (files.close_std k) ≡ os.uid k) × (os.gid (files.close_std k) ≡ os.gid k)
  pub keep-open :
      (d : ℕ) (x : Str) (k : os.Os)
      → (os.uid (files.open_onto d x k).1 ≡ os.uid k)
        × (os.gid (files.open_onto d x k).1 ≡ os.gid k)
  pub keep-setsid :
      (k : os.Os) → (os.uid (files.setsid k) ≡ os.uid k) × (os.gid (files.setsid k) ≡ os.gid k)

-- The child calls execv with the arguments of the group, having logged the calls of the list that
-- failed; or it has logged which call failed and exits.
pub data Child (Os : Type 0) : Type 0 where
  execs : Option (List Str) → List Str → Os → Child Os
  exits : Str → Child Os

Setup-cases :
    {Os : Type 0} (r : Setup Os) → ((func : Str) × (r ≡ failed func)) ⊎ ((k : Os) × (r ≡ ready k))
Setup-cases (ready k) = inr (k, refl)
Setup-cases (failed func) = inl (func, refl)

module _ (os : Calls) (files : FileCalls os) where
  open os use {Os, uid, gid}

  -- A log of the child: opened where the group has one, with the number of the instance in its name. A
  -- failure is logged and no more.
  unfoldable pub open_log : ℕ → Str → Str → Option Str → List Str × Os → List Str × Os
  open_log d func num none (errors, k) = (errors, k)
  open_log d func num (some fn) (errors, k) =
      let opened = files.open_onto d (replace_str fn (codes "%(NUM)") num) k in
      (if opened.0 then errors else errors ++ func ∷ [], opened.1)

  -- What follows chdir.
  unfoldable pub open_logs : ChildConfig → ℕ → Os → Child Os
  open_logs cc instance k =
      let num = instance_str instance in
      let out = open_log 1 (codes "open (stdout)") num cc.cc_stdout ([], files.close_std k) in
      let err = open_log 2 (codes "open (stderr)") num cc.cc_stderr out in
      execs cc.cc_command err.0 (files.setsid err.1)

  -- `if (cc->cc_dir != NULL)`
  unfoldable pub change_dir : ChildConfig → ℕ → Os → Child Os
  change_dir cc instance k = elim cc.cc_dir [
    | none ↦ open_logs cc instance k
    | some dir ↦
        let changed = files.chdir dir k in
        if changed.0 then open_logs cc instance changed.1 else exits (codes "chdir")
  ]

  unfoldable pub spawn_child : ChildConfig → ℕ → Os → Child Os
  spawn_child cc instance k = elim (spawn_child_setids os cc k) [
    | failed func ↦ exits func
    | ready k₁ ↦ change_dir cc instance k₁
  ]

  -- The ids of a state.
  abbrev ids : Os → ℤ × ℤ
  ids k = (uid k, gid k)

  module _ (doc : Documented os) (keep : KeepIds os files) where
    ids-open_log :
        (d : ℕ) (func num : Str) (fn : Option Str) (r : List Str × Os)
        → ids (open_log d func num fn r).1 ≡ ids r.1
    unfolding open_log
    ids-open_log d func num none (errors, k) = refl
    ids-open_log d func num (some fn) (errors, k) =
        ground (arith, keep.keep-open d (replace_str fn (codes "%(NUM)") num) k)

    ids-open_logs :
        (cc : ChildConfig) (instance : ℕ) (k k' : Os) (command : Option (List Str))
        (errors : List Str)
        → open_logs cc instance k ≡ execs command errors k'
        → (ids k' ≡ ids k) × (command ≡ cc.cc_command)
    unfolding open_logs
    ids-open_logs cc instance k k' command errors e =
        let num = instance_str instance in
        let first : List Str × Os = ([], files.close_std k) in
        let out = open_log 1 (codes "open (stdout)") num cc.cc_stdout first in
        let err = open_log 2 (codes "open (stderr)") num cc.cc_stderr out in
        let last : files.setsid err.1 ≡ k' = ground arith in
        let same : cc.cc_command ≡ command = ground arith in
        (
          ap ids (sym last)
              ∙ ground (arith, keep.keep-setsid err.1)
              ∙ ids-open_log 2 (codes "open (stderr)") num cc.cc_stderr out
              ∙ ids-open_log 1 (codes "open (stdout)") num cc.cc_stdout first
              ∙ ground (arith, keep.keep-close k),
          sym same,
        )

    ids-change_dir :
        (cc : ChildConfig) (instance : ℕ) (k k' : Os) (command : Option (List Str))
        (errors : List Str)
        → change_dir cc instance k ≡ execs command errors k'
        → (ids k' ≡ ids k) × (command ≡ cc.cc_command)
    unfolding change_dir
    ids-change_dir cc instance k k' command errors e = elim (Option-cases cc.cc_dir) [
      | inl stays ↦ ids-open_logs cc instance k k' command errors (ground arith)
      | inr (dir, moves) ↦ elim (Bool-cases (files.chdir dir k).0) [
        | inl there ↦
            let done =
              ids-open_logs cc instance (files.chdir dir k).1 k' command errors (ground arith) in
            (done.0 ∙ ground (arith, keep.keep-chdir dir k), done.1)
        | inr gone ↦ absurd (ground arith)
      ]
    ]

    -- A child of a group that asks for a uid and a gid above 0, as numbers or by names, reaches execv only
    -- under these two ids, and with the arguments of its group, wherever its logs are and whatever else fails.
    pub spawn_child-execs :
        (cc : ChildConfig) (instance : ℕ) (u g : ℕ) (k k' : Os) (command : Option (List Str))
        (errors : List Str)
        → wanted_uid os cc ≡ some (pos (suc u))
        → wanted_gid os cc ≡ some (pos (suc g))
        → spawn_child cc instance k ≡ execs command errors k'
        → (uid k' ≡ pos (suc u)) × (gid k' ≡ pos (suc g)) × (command ≡ cc.cc_command)
    unfolding spawn_child
    spawn_child-execs cc instance u g k k' command errors asks_uid asks_gid e =
        elim (Setup-cases (spawn_child_setids os cc k)) [
          | inl (func, stops) ↦ absurd (ground arith)
          | inr (k₁, goes) ↦
              let set = spawn_child_setids-ready os doc cc u g k k₁ asks_uid asks_gid goes in
              let moved = ids-change_dir cc instance k₁ k' command errors (ground arith) in
              (ap (λ p. p.0) moved.0 ∙ set.0, ap (λ p. p.1) moved.0 ∙ set.1, moved.1)
        ]
