-- ===== src/Server/Reap.antt =====
-- A process that ended, in sigchld_cb of cmd_server.c: it is freed and its place cleared.
use ubervisor.Common.{
  ℕ, ◌≡◌, ◌≢◌, inl, inr, refl, sym, ap, ◌∙◌, true, false, [], ◌∷◌, Option, none, some, arith,
  lt→ltb, ◌==◌, ==_iff, ==_refl, if◌then◌else◌, Bool-cases, get_elem?, set, head?, tail, length-set,
  get_elem?-set, get_elem?-lt,
}
use ubervisor.Common.Int.{pos, lt_ℤ}
use ubervisor.Config.{ChildConfig, empty, child}
use ubervisor.Uvhash.{uvhash_remove}
use ubervisor.Uvhash.Laws.{stack, stack-uvhash_remove, uvhash_remove-IsValid}
use ubervisor.Server.Heap.{update}
use ubervisor.Server.{Process, Server, clear_child}
use ubervisor.Server.Invariant.{Owns, IsRunning, IsSound, Sound}

module _ (s : Server) (sound : IsSound s) (p : ℕ) (pr : Process)
    (there : s.processes p ≡ some pr) where
  abbrev pub left : ℕ → Option Process
  left = update s.processes p none

  left_at : (q : ℕ) → left q ≡ (if p == q then none else s.processes q)
  left_at q = refl

  others :
      (q : ℕ) (qr : Process) → left q ≡ some qr → ((p == q) ≡ false) × (s.processes q ≡ some qr)
  others q qr e = elim (Bool-cases (p == q)) [
    | inl same ↦ ground (arith, left_at q)
    | inr other ↦ (other, ground (arith, left_at q))
  ]

  stack_left :
      (j : ℕ)
      → stack (uvhash_remove s.process_hash pr.p_pid) j
        ≡ (if pr.p_pid == j then tail (stack s.process_hash j) else stack s.process_hash j)
  stack_left j = stack-uvhash_remove s.process_hash pr.p_pid j sound.valid

  -- no other process has the pid
  alone :
      (q : ℕ) (qr : Process)
      → s.processes q ≡ some qr
      → (p == q) ≡ false
      → (pr.p_pid == qr.p_pid) ≡ false
  alone q qr e other =
      let mine = (sound.running p pr there).listed in
      let its = (sound.running q qr e).listed in
      elim (Bool-cases (pr.p_pid == qr.p_pid)) [
        | inl same ↦
            let pids : pr.p_pid ≡ qr.p_pid = (==_iff pr.p_pid qr.p_pid).0 same in
            let lists : p ∷ [] ≡ q ∷ [] = sym mine ∙ ap (stack s.process_hash) pids ∙ its in
            let heads : some p ≡ some q = ap head? lists in ground (arith, ==_refl p)
        | inr other ↦ other
      ]

  gone-known :
      (j q : ℕ)
      → head? (stack (uvhash_remove s.process_hash pr.p_pid) j) ≡ some q
      → (qr : Process) × (left q ≡ some qr) × (qr.p_pid ≡ j)
  gone-known j q e = elim (Bool-cases (pr.p_pid == j)) [
    | inl same ↦
        let here : pr.p_pid ≡ j = (==_iff pr.p_pid j).0 same in
        let listed : stack s.process_hash j ≡ p ∷ [] =
          rw (← here) (sound.running p pr there).listed in
        ground (arith, stack_left j)
    | inr other ↦
        let (qr, its, pid) = sound.known j q (ground (arith, stack_left j)) in
        (qr, ground (arith, left_at q, ==_iff p q), pid)
  ]

  still-Owns :
      (d : ℕ) (dd : ChildConfig)
      → Owns s.processes d dd
      → ((i q : ℕ) → get_elem? dd.cc_childs i ≡ some (child q) → (p == q) ≡ false)
      → Owns left d dd
  still-Owns d dd old apart = record {
    sized = old.sized;
    written = old.written;
    owned = λ i q e.
        let (qr, its, mine, here) = old.owned i q e in
        (qr, ground (arith, left_at q, apart i q e), mine, here);
  }

  -- A process with another record stands elsewhere.
  apart_by : (q : ℕ) (qr : Process) → s.processes q ≡ some qr → pr ≢ qr → (p == q) ≡ false
  apart_by q qr e differ = elim (Bool-cases (p == q)) [
    | inl same ↦
        let here : p ≡ q = (==_iff p q).0 same in
        let both : some pr ≡ some qr = sym there ∙ ap s.processes here ∙ e in
        let eq : pr ≡ qr = cc in absurd (differ eq)
    | inr other ↦ other
  ]

  still_listed :
      (q : ℕ) (qr : Process)
      → s.processes q ≡ some qr
      → (p == q) ≡ false
      → stack (uvhash_remove s.process_hash pr.p_pid) qr.p_pid ≡ q ∷ []
  still_listed q qr e other =
      rw (stack_left qr.p_pid, alone q qr e other) (sound.running q qr e).listed

  -- A process without a group is freed.
  pub freed-IsSound :
      pr.p_child_config ≡ none → Sound s.configs left s.next (uvhash_remove s.process_hash pr.p_pid)
  freed-IsSound orphan = record {
    valid = uvhash_remove-IsValid s.process_hash pr.p_pid sound.valid;
    unused_config = sound.unused_config;
    unused_process = λ q h. ground (arith, left_at q, sound.unused_process q h);
    groups = λ d dd e.
        let old = sound.groups d dd e in
        still-Owns d dd old (λ i q h.
          let (qr, its, mine, here) = old.owned i q h in
          apart_by q qr its (λ same.
            let none_some : none ≡ some d = sym orphan ∙ ap (λ x. x.p_child_config) same ∙ mine in
            ground arith));
    running = λ q qr e.
        let (other, its) = others q qr e in
        record {
          has_group = (sound.running q qr its).has_group;
          listed = still_listed q qr its other;
        };
    known = gone-known;
  }

  module _ (c : ℕ) (mine : pr.p_child_config ≡ some c) (cc : ChildConfig)
      (group : s.configs c ≡ some cc) where
    abbrev cleared : ChildConfig
    cleared = clear_child pr.p_instance cc

    slot : get_elem? cc.cc_childs pr.p_instance ≡ some (child p)
    slot = let (dd, its, here) = (sound.running p pr there).has_group c mine in ground (arith)

    pub in_range : lt_ℤ (pos pr.p_instance) cc.cc_instances ≡ true
    in_range =
        rw (← (sound.groups c cc group).sized)
          (lt→ltb _ _ (get_elem?-lt cc.cc_childs pr.p_instance (child p) slot))

    pub childs_cleared :
        (clear_child pr.p_instance cc).cc_childs ≡ set cc.cc_childs pr.p_instance empty
    unfolding clear_child
    childs_cleared = rw in_range

    pub instances_cleared : (clear_child pr.p_instance cc).cc_instances ≡ cc.cc_instances
    unfolding clear_child
    instances_cleared = ground arith

    child_cleared :
        (i : ℕ)
        → get_elem? cleared.cc_childs i
          ≡ (if pr.p_instance == i then some empty else get_elem? cc.cc_childs i)
    child_cleared i = rw childs_cleared (
        get_elem?-set cc.cc_childs pr.p_instance i empty
          (get_elem?-lt cc.cc_childs pr.p_instance (child p) slot))

    config_after :
        (d : ℕ)
        → update s.configs c (some cleared) d ≡ (if c == d then some cleared else s.configs d)
    config_after d = refl

    cleared-Owns : Owns left c cleared
    cleared-Owns =
        let old = sound.groups c cc group in
        record {
          sized =
              rw (childs_cleared, instances_cleared, length-set cc.cc_childs pr.p_instance empty)
                old.sized;
          written = λ i. ground (arith, child_cleared i, old.written i);
          owned = λ i q e. elim (Bool-cases (pr.p_instance == i)) [
            | inl same ↦ ground (arith, child_cleared i)
            | inr other ↦
                let (qr, its, whose, here) = old.owned i q (ground (arith, child_cleared i)) in
                let apart : (p == q) ≡ false = apart_by q qr its (λ same.
                  let e₁ : pr.p_instance ≡ i = ap (λ x. x.p_instance) same ∙ here in
                  ground (arith, ==_iff pr.p_instance i)) in
                (qr, ground (arith, left_at q), whose, here)
          ];
        }

    groups_cleared :
        (d : ℕ) (dd : ChildConfig) → update s.configs c (some cleared) d ≡ some dd → Owns left d dd
    groups_cleared d dd e = elim (Bool-cases (c == d)) [
      | inl same ↦
          let eq : cleared ≡ dd = ground (arith, config_after d) in
          let here : c ≡ d = (==_iff c d).0 same in rw (← eq, ← here) cleared-Owns
      | inr other ↦
          let old = sound.groups d dd (ground (arith, config_after d)) in
          still-Owns d dd old (λ i q h.
            let (qr, its, whose, here) = old.owned i q h in
            apart_by q qr its (λ same.
              let e₁ : some c ≡ some d = sym mine ∙ ap (λ x. x.p_child_config) same ∙ whose in
              ground (arith, ==_refl c)))
    ]

    running_cleared :
        (q : ℕ) (qr : Process)
        → left q ≡ some qr
        → IsRunning (update s.configs c (some cleared)) (uvhash_remove s.process_hash pr.p_pid) q qr
    running_cleared q qr e =
        let (other, its) = others q qr e in
        record {
          has_group = λ d whose.
              let (dd, group_d, here) = (sound.running q qr its).has_group d whose in
              elim (Bool-cases (c == d)) [
                | inl same ↦
                    let at_c : get_elem? cc.cc_childs qr.p_instance ≡ some (child q) =
                      ground (arith, (==_iff c d).0 same) in
                    let kept : get_elem? cleared.cc_childs qr.p_instance ≡ some (child q) =
                      elim (Bool-cases (pr.p_instance == qr.p_instance)) [
                        | inl clash ↦
                            let where_p : pr.p_instance ≡ qr.p_instance =
                              (==_iff pr.p_instance qr.p_instance).0 clash in
                            let both : some (child p) ≡ some (child q) =
                              sym slot ∙ ap (get_elem? cc.cc_childs) where_p ∙ at_c in
                            ground (arith, ==_refl p)
                        | inr free ↦ ground (arith, child_cleared qr.p_instance)
                      ] in
                    (cleared, ground (arith, config_after d), kept)
                | inr apart ↦ (dd, ground (arith, config_after d), here)
              ];
          listed = still_listed q qr its other;
        }

    -- The process is freed and its place in the group cleared.
    pub cleared-IsSound :
        Sound
          (update s.configs c (some (clear_child pr.p_instance cc)))
          left
          s.next
          (uvhash_remove s.process_hash pr.p_pid)
    cleared-IsSound = record {
      valid = uvhash_remove-IsValid s.process_hash pr.p_pid sound.valid;
      unused_config =
          λ d h. ground (arith, config_after d, sound.unused_config d, sound.unused_config c);
      unused_process = λ q h. ground (arith, left_at q, sound.unused_process q h);
      groups = groups_cleared;
      running = running_cleared;
      known = gone-known;
    }

    pub status_cleared : (clear_child pr.p_instance cc).cc_status ≡ cc.cc_status
    unfolding clear_child
    status_cleared = ground arith

    -- The place of the process is free then.
    pub cleared-free : get_elem? (clear_child pr.p_instance cc).cc_childs pr.p_instance ≡ some empty
    cleared-free = ground (arith, child_cleared pr.p_instance, ==_refl pr.p_instance)
