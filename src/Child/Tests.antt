-- ===== src/Child/Tests.antt =====
-- A log file's name, and the ids of a child on a small kernel.
use ubervisor.Common.{
  length, ◌<◌, ◌≤◌, some, ◌∷◌, [], ◌≡◌, ◌≢◌, ◌⊎◌, refl, Bool, true, false, ◌||◌, ◌++◌, none, arith,
  codes, Str, if◌then◌else◌,
}
use ubervisor.Common.Int.{ℤ, pos, eq_ℤ}
use ubervisor.Config.{ChildConfig, child_config_new}
use ubervisor.Child.{replace_str, strstr, is_prefix, instance_str, digits}
use ubervisor.Child.Replace.{replace_str-cases}
use ubervisor.Child.Exec.{
  FileCalls, execs, open_log, open_logs, change_dir, spawn_child, spawn_child-execs,
}
use ubervisor.Child.Ids.{
  Calls, Documented, ready, failed, wanted_uid, wanted_gid, spawn_child_setids, take_gid, take_uid,
  keep_gid, check, refuse, spawn_child_setids-gid_only,
}

replaced :
    replace_str (codes "/log/web-%(NUM).txt") (codes "%(NUM)") (instance_str 12)
    ≡ codes "/log/web-12.txt"
unfolding replace_str strstr is_prefix instance_str digits
replaced = refl

replace_str-cases_example :
    (((x y : Str) → codes "a-%(NUM)" ≢ x ++ (codes "%(NUM)" ++ y))
      × (replace_str (codes "a-%(NUM)") (codes "%(NUM)") (codes "12") ≡ codes "a-%(NUM)"))
    ⊎ ((x : Str) × (y : Str) × (codes "a-%(NUM)" ≡ x ++ (codes "%(NUM)" ++ y))
        × (((length (codes "%(NUM)") < length (codes "12"))
              × (replace_str (codes "a-%(NUM)") (codes "%(NUM)") (codes "12") ≡ codes "a-%(NUM)"))
            ⊎ ((length (codes "12") ≤ length (codes "%(NUM)"))
                × (replace_str (codes "a-%(NUM)") (codes "%(NUM)") (codes "12")
                    ≡ x ++ (codes "12" ++ y)))))
replace_str-cases_example = replace_str-cases (codes "a-%(NUM)") (codes "%(NUM)") (codes "12")

-- A kernel that keeps the two ids: a process with uid 0 may take any, another only the one it has.
abbrev may : ℤ → ℤ → ℤ → Bool
may root new old = eq_ℤ root (pos 0) || eq_ℤ new old

abbrev kernel : Calls
kernel = record {
  Os = ℤ × ℤ;
  uid = λ k. k.0;
  gid = λ k. k.1;
  getpwnam = λ name. none;
  getgrnam = λ name. none;
  setgid = λ g k. if may k.0 g k.1 then (true, (k.0, g)) else (false, k);
  setegid = λ g k. (true, k);
  setuid = λ u k. if may k.0 u k.0 then (true, (u, k.1)) else (false, k);
  seteuid = λ u k. (true, k);
}

kernel-Documented : Documented kernel
kernel-Documented = record {
  uid-setuid = λ u k h. ground arith;
  gid-setgid = λ g k h. ground arith;
  gid-setuid = λ u k. ground arith;
  gid-seteuid = λ u k. refl;
  gid-setegid = λ g k. refl;
  uid-setgid = λ g k. ground arith;
  uid-setegid = λ g k. refl;
  uid-seteuid = λ u k. refl;
  setuid-fails = λ u k h. ground arith;
  setgid-fails = λ g k h. ground arith;
}

abbrev web_user : ChildConfig
web_user = record child_config_new { cc_uid = pos 33; cc_gid = pos 34 }

abbrev web_group : ChildConfig
web_group = record child_config_new { cc_gid = pos 34 }

drops : spawn_child_setids kernel web_user (pos 0, pos 0) ≡ ready (pos 33, pos 34)
unfolding spawn_child_setids take_gid take_uid keep_gid check refuse wanted_uid wanted_gid
    child_config_new
drops = refl

spawn_child_setids-gid_only_example :
    (x : Str) × (spawn_child_setids kernel web_group (pos 0, pos 0) ≡ failed x)
unfolding wanted_uid wanted_gid child_config_new
spawn_child_setids-gid_only_example =
    spawn_child_setids-gid_only kernel kernel-Documented web_group 33 (pos 0, pos 0)
      (λ k root. ground arith) refl refl refl

-- Calls on files that never fail and change no id.
abbrev quiet : FileCalls kernel
quiet = record {
  chdir = λ x k. (true, k);
  close_std = λ k. k;
  open_onto = λ d x k. (true, k);
  setsid = λ k. k;
}

abbrev logged : ChildConfig
logged = record web_user {
  cc_command = some (codes "httpd" ∷ []);
  cc_stdout = some (codes "log%(NUM)");
}

runs :
    spawn_child kernel quiet logged 3 (pos 0, pos 0)
    ≡ execs (some (codes "httpd" ∷ [])) [] (pos 33, pos 34)
unfolding spawn_child change_dir open_logs open_log spawn_child_setids take_gid take_uid keep_gid
    check refuse wanted_uid wanted_gid child_config_new
runs = refl

spawn_child-execs_example :
    (pos 33 ≡ pos 33) × (pos 34 ≡ pos 34) × (some (codes "httpd" ∷ []) ≡ logged.cc_command)
unfolding wanted_uid wanted_gid child_config_new
spawn_child-execs_example =
    spawn_child-execs kernel quiet kernel-Documented
      (record {
        keep-chdir = λ x k. (refl, refl);
        keep-close = λ k. (refl, refl);
        keep-open = λ d x k. (refl, refl);
        keep-setsid = λ k. (refl, refl);
      })
      logged 3 32 33 (pos 0, pos 0) (pos 33, pos 34) (some (codes "httpd" ∷ [])) [] refl refl runs
