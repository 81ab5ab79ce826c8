-- ===== src/Command/Signals.antt =====
-- Which processes c_kill signals.
use ubervisor.Common.{
  ℕ, zero, suc, ◌≡◌, inl, inr, refl, sym, ap, ◌∙◌, Bool, not, ◌&&◌, List, [], ◌∷◌, ◌++◌, some,
  Bool-cases, Option-cases, All, append_assoc, Str, codes,
}
use ubervisor.Common.Int.{ℤ, pos, to_ℕ, eq_ℤ, lt_ℤ, minus_one}
use ubervisor.Config.{ChildConfig}
use ubervisor.Json.{JsonC}
use ubervisor.Server.{Process, Server, Event, emit, killed, replied, logged, kill_signal}
use ubervisor.Server.Alive.{IsAlive}
use ubervisor.Command.{Disk}
use ubervisor.Command.Orphans.{process_at-some, field-some}
use ubervisor.Command.Pids.{process_at, each_child, reply_pids, kill_from, kill_group, int_or}

-- A signal to a process of the group at `c`.
pub data IsSignal (s : Server) (c : ℕ) (sig : ℤ) : Event → Type 0 where
  to_child :
      (p : ℕ) (pr : Process)
      → s.processes p ≡ some pr
      → pr.p_child_config ≡ some c
      → IsSignal s c sig (killed pr.p_pid sig)

module _ (s : Server) (alive : IsAlive s) (c : ℕ) (cc : ChildConfig) (group : s.configs c ≡ some cc)
    (sig : ℤ) where
  -- What is new in the events of `t`.
  record Sent (t after : Server) : Type 0 where
    new : List Event
    events : after.events ≡ new ++ t.events
    signals : All (IsSignal s c sig) new

  All-append :
      (xs : List Event) (e : Event)
      → All (IsSignal s c sig) xs
      → IsSignal s c sig e
      → All (IsSignal s c sig) (xs ++ e ∷ [])
  All-append [] e all h = (h, tt)
  All-append (x ∷ xs) e all h = (all.0, All-append xs e all.1 h)

  walk :
      (x n : ℕ) (t : Server)
      → t.processes ≡ s.processes
      → Sent t (each_child (λ p pr u. emit (killed pr.p_pid sig) u) cc.cc_childs x n t)
  unfolding each_child emit
  walk x zero t same = record { new = []; events = refl; signals = tt }
  walk x (suc n) t same = elim (Option-cases (process_at cc.cc_childs x t)) [
    | inl nothing ↦ rw (each_child, nothing) (walk (suc x) n t same)
    | inr ((p, pr), found) ↦
        let (at, there) = process_at-some cc.cc_childs x t p pr found in
        let here : s.processes p ≡ some pr = ap (λ f. f p) (sym same) ∙ there in
        let (qr, its, mine, _) = (alive.sound.groups c cc group).owned x p at in
        let sent = walk (suc x) n (emit (killed pr.p_pid sig) t) same in
        rw (each_child, found)
          (record {
            new = sent.new ++ killed pr.p_pid sig ∷ [];
            events = sent.events ∙ sym (append_assoc sent.new (killed pr.p_pid sig ∷ []) t.events);
            signals = All-append sent.new (killed pr.p_pid sig) sent.signals (
                to_child p pr here
                  (field-some (λ r. r.p_child_config) pr qr (sym here ∙ its) ∙ mine));
          })
  ]

  walk_reply :
      (x n : ℕ) (text : Str) (t : Server)
      → Sent t (each_child (λ p pr u. emit (killed pr.p_pid sig) u) cc.cc_childs x n t)
      → (new : List Event) × ((emit
            (replied text)
            (each_child (λ p pr u. emit (killed pr.p_pid sig) u) cc.cc_childs x n t)).events
          ≡ replied text ∷ new ++ t.events)
        × All (IsSignal s c sig) new
  unfolding emit
  walk_reply x n text t sent = (sent.new, ap (λ l. replied text ∷ l) sent.events, sent.signals)

module _ (lib : JsonC) (auto_dump : Bool) (disk : Disk) where
  kill_from-events :
      (s : Server) (alive : IsAlive s) (c : ℕ) (cc : ChildConfig) (group : s.configs c ≡ some cc)
      (sig : ℤ) (x n : ℕ) (t : Server)
      → t.processes ≡ s.processes
      → (text : Str) × (new : List Event) × ((kill_from lib auto_dump disk cc.cc_childs x n sig
            t).events
          ≡ replied text ∷ new ++ t.events)
        × All (IsSignal s c sig) new
  unfolding kill_from
  kill_from-events s alive c cc group sig x n t same =
      let text = reply_pids lib auto_dump disk cc.cc_childs x n t in
      let (new, events, signals) =
        walk_reply s alive c cc group sig x n text t (walk s alive c cc group sig x n t same) in
      (text, new, events, signals)

  -- What c_kill does to a group, in a live server: it logs a line with the killsig of the group, sends
  -- some signals and then one reply. Each
  -- signal goes to the pid of a process that belongs to the group, and is the one that the request
  -- names, or else the killsig of the group.
  pub kill_group-events :
      (obj : lib.Json) (c : ℕ) (cc : ChildConfig) (s : Server)
      → IsAlive s
      → s.configs c ≡ some cc
      → (text : Str) × (new : List Event) × ((kill_group lib auto_dump disk obj c cc s).events
          ≡ replied text ∷ new ++ logged (kill_signal cc.cc_name cc.cc_killsig) ∷ s.events)
        × All (IsSignal s c (int_or lib auto_dump disk obj (codes "sig") cc.cc_killsig)) new
  unfolding kill_group emit
  kill_group-events obj c cc s alive group =
      let t = emit (logged (kill_signal cc.cc_name cc.cc_killsig)) s in
      let sig = int_or lib auto_dump disk obj (codes "sig") cc.cc_killsig in
      let idx = int_or lib auto_dump disk obj (codes "index") minus_one in
      elim (Bool-cases (eq_ℤ idx minus_one)) [
        | inl all ↦ rw all (kill_from-events s alive c cc group sig 0 (to_ℕ cc.cc_instances) t refl)
        | inr one ↦ elim (Bool-cases (not (lt_ℤ idx (pos 0)) && lt_ℤ idx cc.cc_instances)) [
          | inl inside ↦
              rw (one, inside) (kill_from-events s alive c cc group sig (to_ℕ idx) 1 t refl)
          | inr outside ↦ rw (one, outside) (kill_from-events s alive c cc group sig 0 0 t refl)
        ]
      ]
