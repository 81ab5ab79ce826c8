-- ===== src/Command/Grow.antt =====
-- The growth of a group in c_updt, against the pointers of the server. Where fork fails a place stays
-- unwritten; the loop is compared with the same loop over memory that was cleared.
pub mod Filled
use mathlib.Core.Option
use mathlib.Core.Path.{subst}
use ubervisor.Common.{
  ℕ, zero, suc, ◌+◌, ◌-◌, ◌≤◌, ◌<◌, ◌≡◌, ◌≢◌, inl, inr, refl, sym, ap, ◌∙◌, fun_ext, map, false,
  List, [], ◌∷◌, ◌++◌, none, some, arith, ltb, ◌==◌, ==_iff, ==_refl, if◌then◌else◌, Bool-cases,
  Option-cases, length, get_elem?, set, replicate, length-set, length-append, length-replicate,
  get_elem?-set, get_elem?-lt, get_elem?-append, get_elem?-replicate,
}
use ubervisor.Common.Int.{pos, eq_ℤ}
use ubervisor.Config.{ChildConfig, Slot, empty, child, unwritten, status_running}
use ubervisor.Uvhash.{uvhash_insert}
use ubervisor.Server.{
  Server, put_config, spawn, spawned, parent, fork, first_answer, process_insert, new_process,
}
use ubervisor.Server.Heap.{update}
use ubervisor.Server.Alive.{IsAlive, configs-put_config, spawn-IsAlive}
use ubervisor.Server.Spawn.{spawn-Spawned}
use ubervisor.Server.Relink.{relink-IsAlive}
use ubervisor.Command.Update.{grow_one, grow_from, grow, modify}
use ubervisor.Command.Shrink.{modify-put_config}
use ubervisor.Command.Grow.Filled.{
  fill, filled, patch, get_elem?-map, length-map, patch-put_config, put_config-patch,
  patch-grow_from, IsWritten, patch-IsWritten,
}

-- A round over cleared memory.
record Grown (c i : ℕ) (cc : ChildConfig) (t : Server) : Type 0 where
  alive : IsAlive t
  after : ChildConfig
  there : t.configs c ≡ some after
  others : (j : ℕ) → (i == j) ≡ false → get_elem? after.cc_childs j ≡ get_elem? cc.cc_childs j

grow_one-Grown :
    (c i : ℕ) (cc : ChildConfig) (s : Server)
    → IsAlive s
    → s.configs c ≡ some cc
    → get_elem? cc.cc_childs i ≡ some empty
    → Grown c i cc (grow_one c i cc s)
unfolding grow_one
grow_one-Grown c i cc s alive group free =
    let same =
      λ (j : ℕ). get_elem?-set cc.cc_childs i j empty (get_elem?-lt cc.cc_childs i empty free) in
    let old = alive.sound.groups c cc group in
    let cleared = record cc { cc_childs = set cc.cc_childs i empty } in
    elim (Bool-cases (eq_ℤ cc.cc_status status_running)) [
      | inl on ↦
          let done = spawn-Spawned s c cc i group free in
          rw on (record {
            alive = spawn-IsAlive s c cc i alive group free;
            after = done.after;
            there = done.there;
            others = done.others;
          })
      | inr off ↦ rw off (record {
        alive =
            relink-IsAlive s c cc cleared group (rw (length-set cc.cc_childs i empty) old.sized)
              (λ j. ground (arith, same j, old.written j)) (λ j p e. ground (arith, same j))
              (λ j p e. ground (arith, same j, (==_iff i j).0)) alive;
        after = cleared;
        there = configs-put_config c cleared s;
        others = λ j other. same j ∙ rw other refl;
      })
    ]

-- The loop over cleared memory.
grow_from-IsAlive :
    (c i n : ℕ) (cc : ChildConfig) (s : Server)
    → IsAlive s
    → s.configs c ≡ some cc
    → ((j : ℕ) → i ≤ j → j < i + n → get_elem? cc.cc_childs j ≡ some empty)
    → IsAlive (grow_from c i n s)
unfolding grow_from
grow_from-IsAlive c i zero cc s alive group free = alive
grow_from-IsAlive c i (suc n) cc s alive group free =
    rw (grow_from, group)
      (let here = free i (omega arith) (omega arith) in
        let done = grow_one-Grown c i cc s alive group here in
        grow_from-IsAlive c (suc i) n done.after (grow_one c i cc s) done.alive done.there
          (λ j lo hi. done.others j (ground arith) ∙ free j (omega arith) (omega arith)))

-- The places of the larger group, cleared.
grown_place :
    (xs : List Slot) (n i : ℕ)
    → get_elem? (map fill (xs ++ replicate n unwritten)) i ≡ (
        if ltb i (length xs)
        then Option.map fill (get_elem? xs i)
        else if ltb (i - length xs) n
        then some empty
        else none)
grown_place xs n i =
    get_elem?-map (xs ++ replicate n unwritten) i
    ∙ ap (Option.map fill) (get_elem?-append xs (replicate n unwritten) i)
    ∙ ground (arith, get_elem?-replicate n (i - length xs) unwritten)

-- Where each place of the larger group has been written, growing it keeps the server alive.
pub grow-IsAlive :
    (s : Server) (c new : ℕ) (cc : ChildConfig)
    → IsAlive s
    → s.configs c ≡ some cc
    → length cc.cc_childs ≤ new
    → IsWritten c (grow c (length cc.cc_childs) new s)
    → IsAlive (grow c (length cc.cc_childs) new s)
unfolding grow
grow-IsAlive s c new cc alive group more written =
    let old = length cc.cc_childs in
    let n = new - old in
    let owns = alive.sound.groups c cc group in
    let more_memory = λ (up : ChildConfig). record up {
      cc_childs = up.cc_childs ++ replicate n unwritten;
      cc_instances = pos new;
    } in
    let larger = filled (more_memory cc) in
    let place = grown_place cc.cc_childs n in
    let ready : IsAlive (put_config c larger s) =
      relink-IsAlive s c cc larger group
        (ap pos (
          length-map (cc.cc_childs ++ replicate n unwritten)
          ∙ length-append cc.cc_childs (replicate n unwritten)
          ∙ omega (arith, length-replicate n unwritten)))
        (λ i. ground (arith, place i)) (λ i p e. ground (arith, place i))
        (λ i p e. ground (arith, place i, get_elem?-lt cc.cc_childs i (child p))) alive in
    let done =
      grow_from-IsAlive c old n larger (put_config c larger s) ready (configs-put_config c larger s)
        (λ j lo hi. ground (arith, place j)) in
    let made = modify-put_config c more_memory s cc group in
    let same : grow_from c old n (modify c more_memory s)
        ≡ grow_from c old n (put_config c larger s) =
      sym (patch-IsWritten c (grow_from c old n (modify c more_memory s)) written)
      ∙ patch-grow_from c old n (modify c more_memory s)
      ∙ ap (λ t. grow_from c old n (patch c t)) made
      ∙ ap (grow_from c old n)
          (patch-put_config c (more_memory cc) s ∙ put_config-patch c larger s) in
    subst IsAlive (sym same) done
