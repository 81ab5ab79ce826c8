-- ===== src/Server/Relink.antt =====
-- A write to the children of a group that keeps its pointers to processes.
use ubervisor.Common.{
  ℕ, ◌≡◌, ◌≢◌, inl, inr, refl, some, arith, ◌==◌, ==_iff, if◌then◌else◌, Bool-cases, length,
  get_elem?,
}
use ubervisor.Common.Int.{pos}
use ubervisor.Config.{ChildConfig, child, unwritten}
use ubervisor.Server.Heap.{update}
use ubervisor.Server.{Process, Server, put_config}
use ubervisor.Server.Invariant.{Owns, IsRunning}
use ubervisor.Server.Alive.{IsAlive}

module _ (s : Server) (c : ℕ) (old cc : ChildConfig) (group : s.configs c ≡ some old)
    (sized : pos (length cc.cc_childs) ≡ cc.cc_instances)
    (written : (i : ℕ) → get_elem? cc.cc_childs i ≢ some unwritten)
    (here : (i p : ℕ)
      → get_elem? cc.cc_childs i ≡ some (child p)
      → get_elem? old.cc_childs i ≡ some (child p))
    (back : (i p : ℕ)
      → get_elem? old.cc_childs i ≡ some (child p)
      → get_elem? cc.cc_childs i ≡ some (child p))
    (alive : IsAlive s) where
  config_at : (d : ℕ) → update s.configs c (some cc) d ≡ (if c == d then some cc else s.configs d)
  config_at d = refl

  relinked-Owns : Owns s.processes c cc
  relinked-Owns = record {
    sized = sized;
    written = written;
    owned = λ i p e. (alive.sound.groups c old group).owned i p (here i p e);
  }

  group_after :
      (d : ℕ) (dd : ChildConfig) → update s.configs c (some cc) d ≡ some dd → Owns s.processes d dd
  group_after d dd e = elim (Bool-cases (c == d)) [
    | inl same ↦
        let eq : cc ≡ dd = ground (arith, config_at d) in
        let at : c ≡ d = (==_iff c d).0 same in rw (← eq, ← at) relinked-Owns
    | inr other ↦ alive.sound.groups d dd (ground (arith, config_at d))
  ]

  still_has :
      (p : ℕ) (pr : Process)
      → s.processes p ≡ some pr
      → IsRunning (update s.configs c (some cc)) s.process_hash p pr
  still_has p pr e =
      let o = alive.sound.running p pr e in
      record {
        has_group = λ d mine.
            let (dd, there, at) = o.has_group d mine in
            elim (Bool-cases (c == d)) [
              | inl same ↦
                  let before : get_elem? old.cc_childs pr.p_instance ≡ some (child p) =
                    ground (arith, (==_iff c d).0 same) in
                  (cc, ground (arith, config_at d), back pr.p_instance p before)
              | inr other ↦ (dd, ground (arith, config_at d), at)
            ];
        listed = o.listed;
      }

  pub relink-IsAlive : IsAlive (put_config c cc s)
  unfolding put_config
  relink-IsAlive = record {
    sound = record {
      valid = alive.sound.valid;
      unused_config = λ d h.
          ground (arith, config_at d, alive.sound.unused_config d, alive.sound.unused_config c);
      unused_process = alive.sound.unused_process;
      groups = group_after;
      running = still_has;
      known = alive.sound.known;
    };
    fresh = alive.fresh;
  }
