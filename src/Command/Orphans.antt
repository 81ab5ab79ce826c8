-- ===== src/Command/Orphans.antt =====
-- The walk of c_dele over the processes of a group.
use ubervisor.Common.{
  ℕ, zero, suc, ◌+◌, ◌≤◌, ◌<◌, ◌≡◌, ◌≢◌, inl, inr, refl, sym, ap, ◌∙◌, List, Option, none, some,
  arith, ◌==◌, ==_iff, ==_refl, Bool-cases, Option-cases, get_elem?,
}
use ubervisor.Config.{Slot, child}
use ubervisor.Server.{Process, Server}
use ubervisor.Command.Pids.{process_at, orphan, each_child}

-- `q` stands in `childs` at one of `n` places from `x` on.
abbrev pub Among : List Slot → ℕ → ℕ → ℕ → Type 0
Among childs x n q = (j : ℕ) × (x ≤ j) × (j < x + n) × (get_elem? childs j ≡ some (child q))

abbrev pub orphaned : Process → Process
orphaned pr = record pr { p_child_config = none }

-- What becomes of a process in a walk that lets go of some.
pub data Fate (before after : Option Process) (Let_go : Type 0) : Type 0 where
  absent : before ≡ none → after ≡ none → Fate before after Let_go
  kept :
      (pr : Process) → before ≡ some pr → after ≡ some pr → (Let_go → ⊥) → Fate before after Let_go
  dropped :
      (pr : Process)
      → before ≡ some pr
      → after ≡ some (orphaned pr)
      → Let_go
      → Fate before after Let_go

pub process_at-some :
    (childs : List Slot) (x : ℕ) (s : Server) (p : ℕ) (pr : Process)
    → process_at childs x s ≡ some (p, pr)
    → (get_elem? childs x ≡ some (child p)) × (s.processes p ≡ some pr)
unfolding process_at
process_at-some childs x s p pr e = ground arith

pub process_at-none :
    (childs : List Slot) (x : ℕ) (s : Server) (q : ℕ) (qr : Process)
    → process_at childs x s ≡ none
    → s.processes q ≡ some qr
    → get_elem? childs x ≢ some (child q)
unfolding process_at
process_at-none childs x s q qr e there at = ground arith

-- A walk over one element more, at which the process does not stand.
widen :
    (childs : List Slot) (x n q : ℕ) (before after : Option Process)
    → ((pr : Process) → before ≡ some pr → get_elem? childs x ≢ some (child q))
    → Fate before after (Among childs (suc x) n q)
    → Fate before after (Among childs x (suc n) q)
widen childs x n q before after miss (absent b a) = absent b a
widen childs x n q before after miss (kept pr b a no_more) = kept pr b a (λ (j, lo, hi, at).
    elim (Bool-cases (x == j)) [
      | inl same ↦
          let here : j ≡ x = sym ((==_iff x j).0 same) in
          miss pr b (ap (get_elem? childs) (sym here) ∙ at)
      | inr other ↦ no_more (j, ground (arith, ==_iff x j), omega arith, at)
    ])
widen childs x n q before after miss (dropped pr b a (j, lo, hi, at)) =
    dropped pr b a (j, omega arith, omega arith, at)

-- A process that has been let go stays so.
stays :
    (pr : Process) (after : Option Process) (L : Type 0)
    → Fate (some (orphaned pr)) after L
    → after ≡ some (orphaned pr)
stays pr after L (absent b a) = ground arith
stays pr after L (kept r b a no_more) = a ∙ sym b
stays pr after L (dropped r b a h) =
    a ∙ sym (ap (λ o. elim o [ none ↦ none | some t ↦ some (orphaned t) ]) b)

pub fate :
    (childs : List Slot) (x n : ℕ) (s : Server) (q : ℕ)
    → Fate (s.processes q) ((each_child orphan childs x n s).processes q) (Among childs x n q)
unfolding each_child
fate childs x zero s q = elim (Option-cases (s.processes q)) [
  | inl missing ↦ absent missing missing
  | inr (pr, there) ↦ kept pr there there (λ (j, lo, hi, at). omega arith)
]
fate childs x (suc n) s q = elim (Option-cases (process_at childs x s)) [
  | inl nothing ↦
      rw (each_child, nothing)
        (widen childs x n q (s.processes q) _
          (λ qr there. process_at-none childs x s q qr nothing there) (fate childs (suc x) n s q))
  | inr ((p, pr), found) ↦
      let (at, there) = process_at-some childs x s p pr found in
      let later = fate childs (suc x) n (orphan p pr s) q in
      let end = (each_child orphan childs (suc x) n (orphan p pr s)).processes q in
      rw (each_child, found)
        (elim (Bool-cases (p == q)) [
          | inl same ↦
              let here : p ≡ q = (==_iff p q).0 same in
              let now : (orphan p pr s).processes q ≡ some (orphaned pr) =
                unfold orphan in rw same refl in
              dropped pr (ap s.processes (sym here) ∙ there)
                (stays pr end (Among childs (suc x) n q) (rw (← now) later))
                (x, omega arith, omega arith, at ∙ ap (λ v. some (child v)) here)
          | inr other ↦
              let now : (orphan p pr s).processes q ≡ s.processes q =
                unfold orphan in rw other refl in
              widen childs x n q (s.processes q) end
                (λ qr _ clash.
                  let both : some (child p) ≡ some (child q) = sym at ∙ clash in
                  ground (arith, ==_refl p))
                (rw (← now) later)
        ])
]

-- The walk changes the processes only.
pub rest-each_child :
    (childs : List Slot) (x n : ℕ) (s : Server)
    → ((each_child orphan childs x n s).configs ≡ s.configs)
      × ((each_child orphan childs x n s).next ≡ s.next)
      × ((each_child orphan childs x n s).process_hash ≡ s.process_hash)
      × ((each_child orphan childs x n s).forks ≡ s.forks)
unfolding each_child orphan
rest-each_child childs x zero s = (refl, refl, refl, refl)
rest-each_child childs x (suc n) s = elim (Option-cases (process_at childs x s)) [
  | inl nothing ↦ rw (each_child, nothing) (rest-each_child childs (suc x) n s)
  | inr (found, e) ↦
      rw (each_child, e) (rest-each_child childs (suc x) n (orphan found.0 found.1 s))
]

pub field-some : {A : Type 0} (f : Process → A) (x y : Process) → some x ≡ some y → f x ≡ f y
field-some f x y e = ap (λ o. elim o [ none ↦ f x | some r ↦ f r ]) e
