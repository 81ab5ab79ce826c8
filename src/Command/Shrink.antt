-- ===== src/Command/Shrink.antt =====
-- The shrinking of a group in c_updt, against the pointers of the server.
mod LetGo
use ubervisor.Common.{
  ℕ, zero, suc, ◌+◌, ◌-◌, ◌≤◌, ◌<◌, ◌≡◌, ◌≢◌, ◌⊎◌, inl, inr, refl, sym, ap, ◌∙◌, false, ◌&&◌, List,
  [], ◌∷◌, none, some, arith, ltb, ◌==◌, ==_iff, ==_refl, if◌then◌else◌, Bool-cases, Option-cases,
  length, get_elem?, set, take, head?, length-set, length-take, get_elem?-set, get_elem?-lt,
  get_elem?-take,
}
use ubervisor.Common.Int.{pos}
use ubervisor.Config.{ChildConfig, Slot, empty, child}
use ubervisor.Uvhash.Laws.{stack}
use ubervisor.Server.{Process, Server, put_config}
use ubervisor.Server.Heap.{update}
use ubervisor.Server.Invariant.{Owns, IsRunning}
use ubervisor.Server.Alive.{IsAlive, configs-put_config}
use ubervisor.Server.Relink.{relink-IsAlive}
use ubervisor.Command.Pids.{process_at, orphan}
use ubervisor.Command.Orphans.{orphaned, process_at-some, process_at-none, field-some}
use ubervisor.Command.Update.{shrink_one, shrink_from, shrink, modify}
use ubervisor.Command.Shrink.LetGo.{let_go-IsAlive}

-- What a round leaves behind.
record Shrunk (c i : ℕ) (cc : ChildConfig) (t : Server) : Type 0 where
  alive : IsAlive t
  group : t.configs c ≡ some (record cc { cc_childs = set cc.cc_childs i empty })

set-empty :
    (xs : List Slot) (i j : ℕ)
    → get_elem? (set xs i empty) j
      ≡ (if ltb j (length xs) && (i == j) then some empty else get_elem? xs j)
set-empty [] i j = ground arith
set-empty (x ∷ xs) zero zero = ground arith
set-empty (x ∷ xs) zero (suc j) = ground arith
set-empty (x ∷ xs) (suc i) zero = ground arith
set-empty (x ∷ xs) (suc i) (suc j) = set-empty xs i j ∙ ground arith

shrink_one-Shrunk :
    (s : Server) (c i : ℕ) (cc : ChildConfig)
    → IsAlive s
    → s.configs c ≡ some cc
    → Shrunk c i cc (shrink_one c i cc s)
unfolding shrink_one
shrink_one-Shrunk s c i cc alive group =
    let cleared = record cc { cc_childs = set cc.cc_childs i empty } in
    let old = alive.sound.groups c cc group in
    elim (Option-cases (process_at cc.cc_childs i s)) [
      | inl nothing ↦
          rw (shrink_one, nothing)
            (record {
              alive =
                  relink-IsAlive s c cc cleared group
                    (rw (length-set cc.cc_childs i empty) old.sized)
                    (λ j. ground (arith, set-empty cc.cc_childs i j, old.written j))
                    (λ j q e. ground (arith, set-empty cc.cc_childs i j))
                    (λ j q e.
                      let (qr, its, mine, inst) = old.owned j q e in
                      let away : (i == j) ≡ false = elim (Bool-cases (i == j)) [
                        | inl same ↦
                            let place : i ≡ j = (==_iff i j).0 same in
                            absurd (
                              process_at-none cc.cc_childs i s q qr nothing its
                                (ap (get_elem? cc.cc_childs) place ∙ e))
                        | inr other ↦ other
                      ] in
                      ground (arith, set-empty cc.cc_childs i j))
                    alive;
              group = configs-put_config c cleared s;
            })
      | inr ((p, pr), found) ↦
          let (at, there) = process_at-some cc.cc_childs i s p pr found in
          rw (shrink_one, found)
            (record {
              alive = let_go-IsAlive s alive c cc group i p pr at there;
              group = configs-put_config c cleared (orphan p pr s);
            })
    ]

-- What `n` rounds from the place `i` leave behind.
record Swept (c i n : ℕ) (cc : ChildConfig) (t : Server) : Type 0 where
  alive : IsAlive t
  childs : List Slot
  group : t.configs c ≡ some (record cc { cc_childs = childs })
  whole : length childs ≡ length cc.cc_childs
  before : (j : ℕ) → j < i → get_elem? childs j ≡ get_elem? cc.cc_childs j
  swept : (j p : ℕ) → i ≤ j → j < i + n → get_elem? childs j ≢ some (child p)

shrink_from-Swept :
    (s : Server) (c i n : ℕ) (cc : ChildConfig)
    → IsAlive s
    → s.configs c ≡ some cc
    → Swept c i n cc (shrink_from c i n s)
unfolding shrink_from
shrink_from-Swept s c i zero cc alive group = record {
  alive = alive;
  childs = cc.cc_childs;
  group = group;
  whole = refl;
  before = λ j h. refl;
  swept = λ j p lo hi e. omega arith;
}
shrink_from-Swept s c i (suc n) cc alive group =
    let one = shrink_one-Shrunk s c i cc alive group in
    let rest =
      shrink_from-Swept (shrink_one c i cc s) c (suc i) n
        (record cc { cc_childs = set cc.cc_childs i empty }) one.alive one.group in
    rw (shrink_from, group)
      (record {
        alive = rest.alive;
        childs = rest.childs;
        group = rest.group;
        whole = rest.whole ∙ length-set cc.cc_childs i empty;
        before = λ j h. rest.before j (omega arith) ∙ set-empty cc.cc_childs i j ∙ ground arith;
        swept = λ j p lo hi e. elim (Bool-cases (i == j)) [
          | inl same ↦
              let here : get_elem? rest.childs j ≡ get_elem? (set cc.cc_childs i empty) j =
                rest.before j (ground arith) in
              let there : get_elem? (set cc.cc_childs i empty) j ≡ some (child p) = sym here ∙ e in
              ground (
                arith,
                set-empty cc.cc_childs i j,
                get_elem?-lt (set cc.cc_childs i empty) j (child p),
                length-set cc.cc_childs i empty,
              )
          | inr other ↦ rest.swept j p (ground arith) (omega arith) e
        ];
      })

-- A change in place of a group that is there.
pub modify-put_config :
    (c : ℕ) (f : ChildConfig → ChildConfig) (s : Server) (up : ChildConfig)
    → s.configs c ≡ some up
    → modify c f s ≡ put_config c (f up) s
unfolding modify
modify-put_config c f s up group = rw (modify, group) refl

pub shrink-IsAlive :
    (s : Server) (c new : ℕ) (cc : ChildConfig)
    → IsAlive s
    → s.configs c ≡ some cc
    → new ≤ length cc.cc_childs
    → IsAlive (shrink c (length cc.cc_childs) new s)
unfolding shrink
shrink-IsAlive s c new cc alive group few =
    let old = length cc.cc_childs in
    let after = shrink_from c new (old - new) s in
    let t = shrink_from-Swept s c new (old - new) cc alive group in
    let kept = t.alive.sound.groups c (record cc { cc_childs = t.childs }) t.group in
    rw
      (modify-put_config c
        (λ up. record up { cc_instances = pos new; cc_childs = take new up.cc_childs }) after
        (record cc { cc_childs = t.childs }) t.group)
      (relink-IsAlive after c (record cc { cc_childs = t.childs })
        (record cc { cc_instances = pos new; cc_childs = take new t.childs }) t.group
        (ap pos (omega (arith, length-take new t.childs, t.whole)))
        (λ i. ground (arith, get_elem?-take new t.childs i, kept.written i))
        (λ i p e. ground (arith, get_elem?-take new t.childs i))
        (λ i p e. elim (Bool-cases (ltb i new)) [
          | inl inside ↦ ground (arith, get_elem?-take new t.childs i)
          | inr outside ↦ absurd (
              t.swept i p (ground arith)
                (ground (arith, t.whole, get_elem?-lt t.childs i (child p))) e)
        ])
        t.alive)
