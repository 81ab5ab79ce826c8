-- ===== src/Command/Update.antt =====
-- c_updt of cmd_server.c.
use ubervisor.Common.{
  ℕ, zero, suc, ◌-◌, Bool, true, false, not, ◌&&◌, ◌||◌, ◌++◌, Option, none, some, if◌then◌else◌,
  Str, str_eq, codes, set, take, replicate,
}
use ubervisor.Common.Int.{ℤ, pos, minus_one, eq_ℤ, lt_ℤ, to_ℕ}
use ubervisor.Json.{JsonC}
use ubervisor.Config.{
  ChildConfig, empty, child, unwritten, status_running, child_config_unserialize,
}
use ubervisor.Server.{
  Server, emit, put_config, group_update, status_update, Message, logged, update_error, update_text,
  update_number, spawn, process_find_instance,
}
use ubervisor.Command.{Disk, max_instances, child_config_find_by_name, send_status_msg, succeeded}
use ubervisor.Command.Pids.{process_at, orphan}

-- `xstrcmp (a, b) != 0`
unfoldable pub xstrcmp : Option Str → Option Str → Bool
xstrcmp none none = false
xstrcmp none (some y) = true
xstrcmp (some x) none = true
xstrcmp (some x) (some y) = not (str_eq x y)

-- `new != NULL && xstrcmp (new, old)`
unfoldable pub differs : Option Str → Option Str → Bool
differs none old = false
differs (some x) old = xstrcmp (some x) old

-- The string after the update.
unfoldable pub pick : Option Str → Option Str → Option Str
pick new old = if differs new old then new else old

-- `new != -1 && new != old`
unfoldable pub differs_int : ℤ → ℤ → Bool
differs_int new old = not (eq_ℤ new minus_one) && not (eq_ℤ new old)

-- `slog (…)` under a test.
unfoldable pub log_if : Bool → Message → Server → Server
log_if false m s = s
log_if true m s = emit (logged m) s

-- A change of the group at `c` in place.
unfoldable pub modify : ℕ → (ChildConfig → ChildConfig) → Server → Server
modify c f s = elim (s.configs c) [ none ↦ s | some up ↦ put_config c (f up) s ]

-- The strings and the signal.
unfoldable pub set_texts : ChildConfig → ChildConfig → ChildConfig
set_texts cc up = record up {
  cc_dir = pick cc.cc_dir up.cc_dir;
  cc_heartbeat = pick cc.cc_heartbeat up.cc_heartbeat;
  cc_fatal_cb = pick cc.cc_fatal_cb up.cc_fatal_cb;
  cc_stdout = pick cc.cc_stdout up.cc_stdout;
  cc_stderr = pick cc.cc_stderr up.cc_stderr;
  cc_killsig = if differs_int cc.cc_killsig up.cc_killsig then cc.cc_killsig else up.cc_killsig;
}

unfoldable pub texts_changed : ChildConfig → ChildConfig → Bool
texts_changed cc up =
    differs cc.cc_dir up.cc_dir
    || differs cc.cc_heartbeat up.cc_heartbeat
    || differs cc.cc_fatal_cb up.cc_fatal_cb
    || differs cc.cc_stdout up.cc_stdout
    || differs cc.cc_stderr up.cc_stderr
    || differs_int cc.cc_killsig up.cc_killsig

unfoldable pub log_text : Option Str → Str → Option Str → Option Str → Server → Server
log_text name key new old = log_if (differs new old) (update_text name key old new)

-- The lines for the strings and the signal, of the group as it was.
unfoldable pub log_texts : ChildConfig → ChildConfig → Server → Server
log_texts cc up s =
    let name = up.cc_name in
    log_if (differs_int cc.cc_killsig up.cc_killsig)
      (update_number name (codes "killsig") up.cc_killsig cc.cc_killsig)
      (log_text name (codes "stderr") cc.cc_stderr up.cc_stderr (
        log_text name (codes "stdout") cc.cc_stdout up.cc_stdout (
          log_text name (codes "fatal_cb") cc.cc_fatal_cb up.cc_fatal_cb (
            log_text name (codes "heartbeat") cc.cc_heartbeat up.cc_heartbeat
              (log_text name (codes "dir") cc.cc_dir up.cc_dir s)))))

unfoldable pub log_instances : ChildConfig → ChildConfig → Server → Server
log_instances cc up =
    log_if (differs_int cc.cc_instances up.cc_instances)
      (update_number up.cc_name (codes "instances") up.cc_instances cc.cc_instances)

unfoldable pub log_status : ChildConfig → ChildConfig → Server → Server
log_status cc up =
    emit (logged (update_number up.cc_name (codes "status") up.cc_status cc.cc_status))

-- One round of the loop over the new instances.
unfoldable pub grow_one : ℕ → ℕ → ChildConfig → Server → Server
grow_one c i up s =
    if eq_ℤ up.cc_status status_running
    then (spawn c up i s).1
    else put_config c (record up { cc_childs = set up.cc_childs i empty }) s

-- The loop, with `n` rounds left.
unfoldable pub grow_from : ℕ → ℕ → ℕ → Server → Server
grow_from c i zero s = s
grow_from c i (suc n) s = elim (s.configs c) [
  | none ↦ s
  | some up ↦ grow_from c (suc i) n (grow_one c i up s)
]

-- The memory that xrealloc adds is not written.
unfoldable pub grow : ℕ → ℕ → ℕ → Server → Server
grow c old new s = grow_from c old (new - old) (
    modify c
      (λ up. record up {
        cc_childs = up.cc_childs ++ replicate (new - old) unwritten;
        cc_instances = pos new;
      })
      s)

-- One round of the loop over the instances that are given up: the process loses its group, the
-- element is cleared.
unfoldable pub shrink_one : ℕ → ℕ → ChildConfig → Server → Server
shrink_one c i up s =
    let cleared = record up { cc_childs = set up.cc_childs i empty } in
    elim (process_at up.cc_childs i s) [
      | none ↦ put_config c cleared s
      | some found ↦ put_config c cleared (orphan found.0 found.1 s)
    ]

unfoldable pub shrink_from : ℕ → ℕ → ℕ → Server → Server
shrink_from c i zero s = s
shrink_from c i (suc n) s = elim (s.configs c) [
  | none ↦ s
  | some up ↦ shrink_from c (suc i) n (shrink_one c i up s)
]

unfoldable pub shrink : ℕ → ℕ → ℕ → Server → Server
shrink c old new s =
    modify c (λ up. record up { cc_instances = pos new; cc_childs = take new up.cc_childs })
      (shrink_from c new (old - new) s)

-- `if (cc->cc_instances != -1 && cc->cc_instances != up->cc_instances)`
unfoldable pub set_instances : ℕ → ChildConfig → ChildConfig → Server → Server
set_instances c cc up s =
    let old = to_ℕ up.cc_instances in
    let new = to_ℕ cc.cc_instances in
    if not (differs_int cc.cc_instances up.cc_instances)
    then s
    else if lt_ℤ up.cc_instances cc.cc_instances
    then grow c old new s
    else shrink c old new s

-- `if (process_find_instance (up, i) == NULL) spawn (up, i);`
unfoldable pub start_one : ℕ → ℕ → ChildConfig → Server → Server
start_one c i up s = elim (process_find_instance up i) [
  | none ↦ s
  | some slot ↦ elim slot [ empty ↦ (spawn c up i s).1 | child p ↦ s | unwritten ↦ s ]
]

unfoldable pub start_from : ℕ → ℕ → ℕ → Server → Server
start_from c i zero s = s
start_from c i (suc n) s = elim (s.configs c) [
  | none ↦ s
  | some up ↦ start_from c (suc i) n (start_one c i up s)
]

-- `if (cc->cc_status != -1 && cc->cc_status != up->cc_status)`
unfoldable pub set_status : ℕ → ChildConfig → Server → Server
set_status c cc s = elim (s.configs c) [
  | none ↦ s
  | some up ↦
      if not (differs_int cc.cc_status up.cc_status)
      then s
      else (let s₁ = modify c (λ u. record u { cc_error = pos 0 }) (log_status cc up s) in
          let s₂ =
            if not (eq_ℤ up.cc_status status_running) && eq_ℤ cc.cc_status status_running
            then start_from c 0 (to_ℕ up.cc_instances) s₁
            else s₁ in
          emit (status_update up.cc_name cc.cc_status)
            (modify c (λ u. record u { cc_status = cc.cc_status }) s₂))
]

-- `cc->cc_age > 0 && cc->cc_age != up->cc_age`
unfoldable pub age_changes : ChildConfig → ChildConfig → Bool
age_changes cc up = lt_ℤ (pos 0) cc.cc_age && not (eq_ℤ cc.cc_age up.cc_age)

unfoldable pub set_age : ChildConfig → ChildConfig → ChildConfig
set_age cc up = if age_changes cc up then record up { cc_age = cc.cc_age } else up

unfoldable pub log_age : ChildConfig → ChildConfig → Server → Server
log_age cc up =
    log_if (age_changes cc up) (update_number up.cc_name (codes "age") up.cc_age cc.cc_age)

-- The flag `changed` for the group as it was.
unfoldable pub changed : ChildConfig → ChildConfig → Bool
changed cc up =
    texts_changed cc up
    || differs_int cc.cc_instances up.cc_instances
    || differs_int cc.cc_status up.cc_status
    || age_changes cc up

-- c_updt behind its checks: the changes, in their order.
unfoldable pub updated : ℕ → ChildConfig → ChildConfig → Server → Server
updated c cc up s =
    let s₁ = modify c (set_texts cc) (log_texts cc up s) in
    let s₂ = set_instances c cc up (log_instances cc up s₁) in
    modify c (set_age cc) (log_age cc up (set_status c cc s₂))

-- `if (changed) send_group_cfg_update_notification (up);`
unfoldable pub notify_update : Bool → ℕ → Server → Server
notify_update false c s = s
notify_update true c s = elim (s.configs c) [ none ↦ s | some up ↦ emit (group_update up) s ]

-- What c_updt checks of the fields, with the reply to the first that is refused.
unfoldable pub refusal : ChildConfig → Option (Bool × Str)
refusal cc =
    if not (eq_ℤ cc.cc_uid minus_one)
    then some (true, codes "cannot update uid")
    else if not (eq_ℤ cc.cc_gid minus_one)
    then some (true, codes "cannot update gid")
    else elim cc.cc_command [
      | some command ↦ some (false, codes "command cannot be updated")
      | none ↦
          if not (eq_ℤ cc.cc_instances minus_one) && lt_ℤ cc.cc_instances (pos 1)
          then some (false, codes "instances > 0 required.")
          else if lt_ℤ (pos max_instances) cc.cc_instances
          then some (false, codes "too many instances.")
          else none
    ]

module _ (lib : JsonC) (auto_dump : Bool) (disk : Disk) where
  unfoldable pub update_group : ℕ → ChildConfig → Server → Server
  update_group c cc s = elim (s.configs c) [
    | none ↦ s
    | some up ↦
        succeeded lib auto_dump disk (codes "success")
          (notify_update (changed cc up) c (updated c cc up s))
  ]

  unfoldable pub c_updt : Str → Server → Bool × Server
  c_updt buf s = elim (child_config_unserialize lib buf) [
    | none ↦ (
      false,
      send_status_msg lib auto_dump disk false (codes "failure") (emit (logged update_error) s),
    )
    | some cc ↦ elim cc.cc_name [
      | none ↦ (false, send_status_msg lib auto_dump disk false (codes "need name") s)
      | some name ↦ elim (child_config_find_by_name name s) [
        | none ↦ (false, send_status_msg lib auto_dump disk false (codes "not found") s)
        | some c ↦ elim (refusal cc) [
          | some reply ↦ (true, send_status_msg lib auto_dump disk reply.0 reply.1 s)
          | none ↦ (true, update_group c cc s)
        ]
      ]
    ]
  ]
