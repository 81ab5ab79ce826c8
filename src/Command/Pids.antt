-- ===== src/Command/Pids.antt =====
-- Commands of cmd_server.c on the children of a group: c_pids, c_kill, c_dele. An element of cc_childs
-- that was never written, or that leads to no process, would be undefined behaviour: the loops pass
-- over it.
use ubervisor.Common.{
  ℕ, zero, suc, Bool, true, false, not, ◌&&◌, List, Option, none, some, ◌==◌, if◌then◌else◌, Str,
  codes, get_elem?, remove_first,
}
use ubervisor.Common.Int.{ℤ, pos, minus_one, eq_ℤ, lt_ℤ, to_ℕ}
use ubervisor.Json.{JsonType, JsonC}
use ubervisor.Config.{ChildConfig, Slot, empty, child, unwritten, status_delete}
use ubervisor.Uvhash.{uvstrhash_remove}
use ubervisor.Server.{Process, Server, emit, killed, replied, status_update, logged, kill_signal}
use ubervisor.Server.Heap.{update}
use ubervisor.Command.{Disk, on_group}

-- The process that `cc->cc_childs[x]` leads to.
unfoldable pub process_at : List Slot → ℕ → Server → Option (ℕ × Process)
process_at childs x s = elim (get_elem? childs x) [
  | none ↦ none
  | some slot ↦ elim slot [
    | empty ↦ none
    | unwritten ↦ none
    | child p ↦ elim (s.processes p) [ none ↦ none | some pr ↦ some (p, pr) ]
  ]
]

-- `i->p_child_config = NULL;`
unfoldable pub orphan : ℕ → Process → Server → Server
orphan p pr s = record s {
  processes = update s.processes p (some (record pr { p_child_config = none }));
}

-- A walk over `n` elements of cc_childs from the index `x` on, with what is done to each process.
unfoldable pub each_child : (ℕ → Process → Server → Server) → List Slot → ℕ → ℕ → Server → Server
each_child act childs x zero s = s
each_child act childs x (suc n) s = elim (process_at childs x s) [
  | none ↦ each_child act childs (suc x) n s
  | some found ↦ each_child act childs (suc x) n (act found.0 found.1 s)
]

unfoldable pub child_config_remove : ℕ → Server → Server
child_config_remove c s = record s {
  child_config_list = remove_first (λ d. d == c) s.child_config_list;
  child_config_hash = uvstrhash_remove s.names s.child_config_hash c;
}

-- `child_config_free (cc)`
unfoldable pub freed_config : ℕ → Server → Server
freed_config c s = record s { configs = update s.configs c none }

module _ (lib : JsonC) (auto_dump : Bool) (disk : Disk) where
  -- The array of the pids of `n` elements of cc_childs from the index `x` on.
  unfoldable pub pids_from : List Slot → ℕ → ℕ → lib.Json → Server → lib.Json
  pids_from childs x zero m s = m
  pids_from childs x (suc n) m s = elim (process_at childs x s) [
    | none ↦ pids_from childs (suc x) n m s
    | some found ↦
        pids_from childs (suc x) n
          (lib.json_object_array_add m (lib.json_object_new_int (pos (found.1).p_pid))) s
  ]

  -- The reply with the code 1 and the pids.
  unfoldable pub reply_pids : List Slot → ℕ → ℕ → Server → Str
  reply_pids childs x n s =
      let m = pids_from childs x n lib.json_object_new_array s in
      let obj =
        lib.json_object_object_add lib.json_object_new_object (codes "code")
          (lib.json_object_new_boolean true) in
      lib.json_object_to_json_string (lib.json_object_object_add obj (codes "pids") m)

  unfoldable pub c_pids : Str → Server → Bool × Server
  c_pids =
      on_group lib auto_dump disk false
        (λ obj c cc s. emit (replied (reply_pids cc.cc_childs 0 (to_ℕ cc.cc_instances) s)) s)

  -- A member of a request that is an int, or else a default.
  unfoldable pub int_or : lib.Json → Str → ℤ → ℤ
  int_or obj k old = elim (lib.json_object_object_get obj k) [
    | none ↦ old
    | some m ↦ if lib.json_object_is_type m JsonType.int then lib.json_object_get_int m else old
  ]

  -- `kill (i->p_pid, sig)` for `n` elements of cc_childs, and the reply.
  unfoldable pub kill_from : List Slot → ℕ → ℕ → ℤ → Server → Server
  kill_from childs x n sig s =
      let s₁ = each_child (λ p pr t. emit (killed pr.p_pid sig) t) childs x n s in
      emit (replied (reply_pids childs x n s)) s₁

  -- The line of the log has the signal of the group, whatever the request names.
  unfoldable pub kill_group : lib.Json → ℕ → ChildConfig → Server → Server
  kill_group obj c cc s =
      let t = emit (logged (kill_signal cc.cc_name cc.cc_killsig)) s in
      let sig = int_or obj (codes "sig") cc.cc_killsig in
      let idx = int_or obj (codes "index") minus_one in
      if eq_ℤ idx minus_one
      then kill_from cc.cc_childs 0 (to_ℕ cc.cc_instances) sig t
      else if not (lt_ℤ idx (pos 0)) && lt_ℤ idx cc.cc_instances
      then kill_from cc.cc_childs (to_ℕ idx) 1 sig t
      else kill_from cc.cc_childs 0 0 sig t

  unfoldable pub c_kill : Str → Server → Bool × Server
  c_kill = on_group lib auto_dump disk true kill_group

  unfoldable pub dele_group : lib.Json → ℕ → ChildConfig → Server → Server
  dele_group obj c cc s =
      let n = to_ℕ cc.cc_instances in
      let orphans = each_child orphan cc.cc_childs 0 n (child_config_remove c s) in
      emit (replied (reply_pids cc.cc_childs 0 n s))
        (freed_config c (emit (status_update cc.cc_name status_delete) orphans))

  unfoldable pub c_dele : Str → Server → Bool × Server
  c_dele = on_group lib auto_dump disk true dele_group
