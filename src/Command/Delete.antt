-- ===== src/Command/Delete.antt =====
-- c_dele of cmd_server.c against the pointers of the server.
use ubervisor.Common.{
  ℕ, ◌≡◌, inl, inr, refl, sym, ap, ◌∙◌, Bool, true, false, none, some, arith, ◌==◌, ==_iff, ==_refl,
  if◌then◌else◌, Bool-cases, Str, length, get_elem?, get_elem?-lt, head?,
}
use ubervisor.Common.Int.{to_ℕ}
use ubervisor.Config.{ChildConfig, child}
use ubervisor.Json.{JsonC}
use ubervisor.Server.{Process, Server, emit}
use ubervisor.Uvhash.Laws.{stack}
use ubervisor.Server.Heap.{update}
use ubervisor.Server.Invariant.{IsRunning}
use ubervisor.Server.Alive.{IsAlive}
use ubervisor.Command.{Disk}
use ubervisor.Command.Groups.{on_group-IsAlive}
use ubervisor.Command.Pids.{
  orphan, each_child, child_config_remove, freed_config, dele_group, c_dele,
}
use ubervisor.Command.Orphans.{
  Among, orphaned, Fate, absent, kept, dropped, fate, rest-each_child, field-some,
}

-- A group is deleted: `walked` is the server after the walk over its children.
module _ (s walked : Server) (alive : IsAlive s) (c : ℕ) (cc : ChildConfig)
    (group : s.configs c ≡ some cc) (n : ℕ) (whole : length cc.cc_childs ≡ n)
    (fates : (q : ℕ) → Fate (s.processes q) (walked.processes q) (Among cc.cc_childs 0 n q)) where
  left_at : (d : ℕ) → update s.configs c none d ≡ (if c == d then none else s.configs d)
  left_at d = refl

  -- a process of another group is kept
  owned_by_other :
      (d : ℕ) (p : ℕ) (pr : Process)
      → (c == d) ≡ false
      → s.processes p ≡ some pr
      → pr.p_child_config ≡ some d
      → walked.processes p ≡ some pr
  owned_by_other d p pr other there mine = elim (fates p) [
    | absent b a ↦ ground arith
    | kept r b a no_more ↦ a ∙ sym b ∙ there
    | dropped r b a (j, lo, hi, at) ↦
        let (r₂, b₂, its, _) = (alive.sound.groups c cc group).owned j p at in
        let clash : some c ≡ some d =
          sym its ∙ field-some (λ r. r.p_child_config) r₂ pr (sym b₂ ∙ there) ∙ mine in
        ground (arith, ==_refl c)
  ]

  still_running :
      (q : ℕ) (qr : Process)
      → walked.processes q ≡ some qr
      → IsRunning (update s.configs c none) s.process_hash q qr
  still_running q qr e = elim (fates q) [
    | absent b a ↦ ground arith
    | kept r b a no_more ↦
        let its : s.processes q ≡ some qr = b ∙ sym a ∙ e in
        let old = alive.sound.running q qr its in
        record {
          has_group = λ d mine.
              let (dd, there, at) = old.has_group d mine in
              elim (Bool-cases (c == d)) [
                | inl same ↦
                    let at_c : get_elem? cc.cc_childs qr.p_instance ≡ some (child q) =
                      ground (arith, (==_iff c d).0 same) in
                    absurd (
                      no_more (
                        qr.p_instance,
                        omega arith,
                        omega
                            (arith, whole, get_elem?-lt cc.cc_childs qr.p_instance (child q) at_c),
                        at_c,
                      ))
                | inr other ↦ (dd, ground (arith, left_at d), at)
              ];
          listed = old.listed;
        }
    | dropped r b a let_go ↦
        let same : some (orphaned r) ≡ some qr = sym a ∙ e in
        let old = alive.sound.running q r b in
        record {
          has_group = λ d mine.
              let clash : none ≡ some d =
                field-some (λ t. t.p_child_config) (orphaned r) qr same ∙ mine in
              ground arith;
          listed = rw (← field-some (λ t. t.p_pid) (orphaned r) qr same) old.listed;
        }
  ]

  still_known :
      (pid q : ℕ)
      → head? (stack s.process_hash pid) ≡ some q
      → (qr : Process) × (walked.processes q ≡ some qr) × (qr.p_pid ≡ pid)
  still_known pid q e =
      let (pr, there, here) = alive.sound.known pid q e in
      elim (fates q) [
        | absent b a ↦ ground arith
        | kept r b a no_more ↦ (pr, a ∙ sym b ∙ there, here)
        | dropped r b a let_go ↦
            (orphaned r, a, field-some (λ t. t.p_pid) r pr (sym b ∙ there) ∙ here)
      ]

  -- The group is gone, its processes belong to none, and the server is alive.
  deleted-IsAlive :
      (t : Server)
      → t.configs ≡ update s.configs c none
      → t.processes ≡ walked.processes
      → t.next ≡ s.next
      → t.process_hash ≡ s.process_hash
      → t.forks ≡ s.forks
      → IsAlive t
  deleted-IsAlive t configs processes next table forks = record {
    sound =
        rw (configs, processes, next, table)
          (record {
            valid = alive.sound.valid;
            unused_config = λ d h. ground (arith, left_at d, alive.sound.unused_config d h);
            unused_process = λ q h. elim (fates q) [
              | absent b a ↦ a
              | kept r b a no_more ↦ ground (arith, alive.sound.unused_process q h)
              | dropped r b a let_go ↦ ground (arith, alive.sound.unused_process q h)
            ];
            groups = λ d dd e.
                let other : (c == d) ≡ false = ground (arith, left_at d, Bool-cases (c == d)) in
                let old = alive.sound.groups d dd (ground (arith, left_at d)) in
                record {
                  sized = old.sized;
                  written = old.written;
                  owned = λ i p at.
                      let (pr, there, mine, here) = old.owned i p at in
                      (pr, owned_by_other d p pr other there mine, mine, here);
                };
            running = still_running;
            known = still_known;
          });
    fresh = rw (table, forks) alive.fresh;
  }

module _ (lib : JsonC) (auto_dump : Bool) (disk : Disk) where
  dele_group-IsAlive :
      (obj : lib.Json) (c : ℕ) (cc : ChildConfig) (s : Server)
      → IsAlive s
      → s.configs c ≡ some cc
      → IsAlive (dele_group lib auto_dump disk obj c cc s)
  unfolding dele_group emit freed_config child_config_remove
  dele_group-IsAlive obj c cc s alive group =
      let n = to_ℕ cc.cc_instances in
      let removed = child_config_remove c s in
      let walked = each_child orphan cc.cc_childs 0 n removed in
      let (configs, next, table, forks) = rest-each_child cc.cc_childs 0 n removed in
      deleted-IsAlive s walked alive c cc group n (ap to_ℕ (alive.sound.groups c cc group).sized)
        (fate cc.cc_childs 0 n removed) (dele_group lib auto_dump disk obj c cc s)
        (ap (λ f. update f c none) configs) refl next table forks

  -- From a live server c_dele leads to a live one, whatever it is sent: no child of a deleted group
  -- points to it.
  pub c_dele-IsAlive :
      (buf : Str) (s : Server) → IsAlive s → IsAlive (c_dele lib auto_dump disk buf s).1
  unfolding c_dele
  c_dele-IsAlive =
      on_group-IsAlive lib auto_dump disk true (dele_group lib auto_dump disk) dele_group-IsAlive

  -- Deleting a group takes the group off the server and lets go of every process of it, which keeps
  -- its pid and stays in the table; a process of another group is kept as it is.
  pub dele_group-processes :
      (obj : lib.Json) (c : ℕ) (cc : ChildConfig) (s : Server)
      → IsAlive s
      → s.configs c ≡ some cc
      → (p : ℕ) (pr : Process) → s.processes p ≡ some pr
      → ((dele_group lib auto_dump disk obj c cc s).configs c ≡ none)
        × (pr.p_child_config ≡ some c
            → (dele_group lib auto_dump disk obj c cc s).processes p ≡ some (orphaned pr))
        × ((d : ℕ)
            → pr.p_child_config ≡ some d
            → (c == d) ≡ false
            → (dele_group lib auto_dump disk obj c cc s).processes p ≡ some pr)
        × ((dele_group lib auto_dump disk obj c cc s).process_hash ≡ s.process_hash)
  unfolding dele_group emit freed_config child_config_remove
  dele_group-processes obj c cc s alive group p pr there =
      let n = to_ℕ cc.cc_instances in
      let removed = child_config_remove c s in
      let walked = each_child orphan cc.cc_childs 0 n removed in
      let (configs, next, table, forks) = rest-each_child cc.cc_childs 0 n removed in
      let whole = ap to_ℕ (alive.sound.groups c cc group).sized in
      (
        ground (arith, ==_refl c),
        (λ mine. elim (fate cc.cc_childs 0 n removed p) [
          | absent b a ↦ ground arith
          | dropped r b a let_go ↦
              a ∙ ap (λ o. elim o [ none ↦ none | some t ↦ some (orphaned t) ]) (sym b ∙ there)
          | kept r b a no_more ↦
              let (dd, its, at) = (alive.sound.running p pr there).has_group c mine in
              let at_c : get_elem? cc.cc_childs pr.p_instance ≡ some (child p) = ground arith in
              absurd (
                no_more (
                  pr.p_instance,
                  omega arith,
                  omega (arith, whole, get_elem?-lt cc.cc_childs pr.p_instance (child p) at_c),
                  at_c,
                ))
        ]),
        (λ d mine other.
            owned_by_other s walked alive c cc group n whole (fate cc.cc_childs 0 n removed) d p pr
              other there mine),
        table,
      )
