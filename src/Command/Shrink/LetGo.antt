-- ===== src/Command/Shrink/LetGo.antt =====
-- The child of one place of a group is let go, with all pointers of the server.
use ubervisor.Common.{
  ℕ, ◌≡◌, ◌⊎◌, inl, inr, refl, sym, ap, ◌∙◌, false, none, some, arith, ◌==◌, ==_iff, ==_refl,
  if◌then◌else◌, Bool-cases, get_elem?, set, head?, length-set, get_elem?-set, get_elem?-lt,
}
use ubervisor.Config.{ChildConfig, empty, child}
use ubervisor.Uvhash.Laws.{stack}
use ubervisor.Server.{Process, Server, put_config}
use ubervisor.Server.Heap.{update}
use ubervisor.Server.Invariant.{Owns, IsRunning}
use ubervisor.Server.Alive.{IsAlive}
use ubervisor.Command.Pids.{orphan}
use ubervisor.Command.Orphans.{orphaned, field-some}

-- The child of one place is let go, and the place cleared.
module _ (s : Server) (alive : IsAlive s) (c : ℕ) (cc : ChildConfig) (group : s.configs c ≡ some cc)
    (i p : ℕ) (pr : Process) (at : get_elem? cc.cc_childs i ≡ some (child p))
    (there : s.processes p ≡ some pr) where
  abbrev cleared : ChildConfig
  cleared = record cc { cc_childs = set cc.cc_childs i empty }

  config_at :
      (d : ℕ) → update s.configs c (some cleared) d ≡ (if c == d then some cleared else s.configs d)
  config_at d = refl

  process_after :
      (q : ℕ)
      → update s.processes p (some (orphaned pr)) q
        ≡ (if p == q then some (orphaned pr) else s.processes q)
  process_after q = refl

  child_after :
      (j : ℕ)
      → get_elem? cleared.cc_childs j ≡ (if i == j then some empty else get_elem? cc.cc_childs j)
  child_after j = get_elem?-set cc.cc_childs i j empty (get_elem?-lt cc.cc_childs i (child p) at)

  -- the process of this place is this one
  owner :
      (qr : Process) × (s.processes p ≡ some qr)
      × (qr.p_child_config ≡ some c)
      × (qr.p_instance ≡ i)
  owner = (alive.sound.groups c cc group).owned i p at

  apart :
      (d : ℕ) (dd : ChildConfig) (j q : ℕ)
      → s.configs d ≡ some dd
      → get_elem? dd.cc_childs j ≡ some (child q)
      → ((c == d) ≡ false) ⊎ ((i == j) ≡ false)
      → (p == q) ≡ false
  apart d dd j q there_d at_q differ = elim (Bool-cases (p == q)) [
    | inl same ↦
        let (qr, e₁, mine₁, inst₁) = owner in
        let (rr, e₂, mine₂, inst₂) = (alive.sound.groups d dd there_d).owned j q at_q in
        let both : some qr ≡ some rr = sym e₁ ∙ ap s.processes ((==_iff p q).0 same) ∙ e₂ in
        let cs : some c ≡ some d =
          sym mine₁ ∙ field-some (λ r. r.p_child_config) qr rr both ∙ mine₂ in
        let is : i ≡ j = sym inst₁ ∙ field-some (λ r. r.p_instance) qr rr both ∙ inst₂ in
        elim differ [
          | inl other ↦ ground (arith, ==_refl c)
          | inr other ↦ ground (arith, ==_iff i j)
        ]
    | inr other ↦ other
  ]

  kept_process :
      (q : ℕ) (qr : Process)
      → s.processes q ≡ some qr
      → (p == q) ≡ false
      → update s.processes p (some (orphaned pr)) q ≡ some qr
  kept_process q qr e other = ground (arith, process_after q)

  cleared-Owns : Owns (update s.processes p (some (orphaned pr))) c cleared
  cleared-Owns =
      let old = alive.sound.groups c cc group in
      record {
        sized = rw (length-set cc.cc_childs i empty) old.sized;
        written = λ j. ground (arith, child_after j, old.written j);
        owned = λ j q e. elim (Bool-cases (i == j)) [
          | inl same ↦ ground (arith, child_after j)
          | inr other ↦
              let e' : get_elem? cc.cc_childs j ≡ some (child q) = ground (arith, child_after j) in
              let (qr, its, mine, inst) = old.owned j q e' in
              (qr, kept_process q qr its (apart c cc j q group e' (inr other)), mine, inst)
        ];
      }

  group_after :
      (d : ℕ) (dd : ChildConfig)
      → update s.configs c (some cleared) d ≡ some dd
      → Owns (update s.processes p (some (orphaned pr))) d dd
  group_after d dd e = elim (Bool-cases (c == d)) [
    | inl same ↦
        let eq : cleared ≡ dd = ground (arith, config_at d) in
        let here : c ≡ d = (==_iff c d).0 same in rw (← eq, ← here) cleared-Owns
    | inr other ↦
        let e' : s.configs d ≡ some dd = ground (arith, config_at d) in
        let old = alive.sound.groups d dd e' in
        record {
          sized = old.sized;
          written = old.written;
          owned = λ j q at_q.
              let (qr, its, mine, inst) = old.owned j q at_q in
              (qr, kept_process q qr its (apart d dd j q e' at_q (inl other)), mine, inst);
        }
  ]

  running_after :
      (q : ℕ) (qr : Process)
      → update s.processes p (some (orphaned pr)) q ≡ some qr
      → IsRunning (update s.configs c (some cleared)) s.process_hash q qr
  running_after q qr e = elim (Bool-cases (p == q)) [
    | inl same ↦
        let eq : some (orphaned pr) ≡ some qr = ground (arith, process_after q) in
        let here : p ≡ q = (==_iff p q).0 same in
        record {
          has_group = λ d mine.
              let clash : none ≡ some d =
                field-some (λ t. t.p_child_config) (orphaned pr) qr eq ∙ mine in
              ground arith;
          listed =
              rw (← field-some (λ t. t.p_pid) (orphaned pr) qr eq, ← here)
                (alive.sound.running p pr there).listed;
        }
    | inr other ↦
        let e' : s.processes q ≡ some qr = ground (arith, process_after q) in
        let old = alive.sound.running q qr e' in
        record {
          has_group = λ d mine.
              let (dd, its, at_q) = old.has_group d mine in
              elim (Bool-cases (c == d)) [
                | inl same ↦
                    let at_c : get_elem? cc.cc_childs qr.p_instance ≡ some (child q) =
                      ground (arith, (==_iff c d).0 same) in
                    let elsewhere : (i == qr.p_instance) ≡ false =
                      elim (Bool-cases (i == qr.p_instance)) [
                        | inl clash ↦
                            let place : i ≡ qr.p_instance = (==_iff i qr.p_instance).0 clash in
                            let both : some (child p) ≡ some (child q) =
                              sym at ∙ ap (get_elem? cc.cc_childs) place ∙ at_c in
                            ground (arith, ==_refl p)
                        | inr free ↦ free
                      ] in
                    (
                      cleared,
                      ground (arith, config_at d),
                      ground (arith, child_after qr.p_instance),
                    )
                | inr apart_d ↦ (dd, ground (arith, config_at d), at_q)
              ];
          listed = old.listed;
        }
  ]

  known_after :
      (pid q : ℕ)
      → head? (stack s.process_hash pid) ≡ some q
      → (qr : Process) × (update s.processes p (some (orphaned pr)) q ≡ some qr) × (qr.p_pid ≡ pid)
  known_after pid q e =
      let (qr, its, here) = alive.sound.known pid q e in
      elim (Bool-cases (p == q)) [
        | inl same ↦
            let both : some pr ≡ some qr = sym there ∙ ap s.processes ((==_iff p q).0 same) ∙ its in
            (
              orphaned pr,
              ground (arith, process_after q),
              field-some (λ t. t.p_pid) pr qr both ∙ here,
            )
        | inr other ↦ (qr, kept_process q qr its other, here)
      ]

  pub let_go-IsAlive : IsAlive (put_config c cleared (orphan p pr s))
  unfolding put_config orphan
  let_go-IsAlive = record {
    sound = record {
      valid = alive.sound.valid;
      unused_config = λ d h.
          ground (arith, config_at d, alive.sound.unused_config d, alive.sound.unused_config c);
      unused_process = λ q h.
          ground
            (arith, process_after q, alive.sound.unused_process q, alive.sound.unused_process p);
      groups = group_after;
      running = running_after;
      known = known_after;
    };
    fresh = alive.fresh;
  }
