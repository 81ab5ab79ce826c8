-- ===== src/Config/Status.antt =====
-- child_config_status_from_string of child_config.c. strtol of the C library is a parameter.
use Prim.Native.Nat.{Ordering}
use ubervisor.Common.{Bool, true, false, if◌then◌else◌, Str, codes}
use ubervisor.Common.Int.{ℤ, pos, minus_one, lt_ℤ, to_int}
use ubervisor.Config.{status_running, status_stopped, status_broken}
use ubervisor.Dispatch.{strncmp}

-- strtol with the base 10: the `long` that it returns, and whether errno is EINVAL behind the call.
pub record Strtol : Type 0 where
  pub value : Str → ℤ
  pub is_einval : Str → Bool

abbrev pub status_max : ℤ
status_max = pos 3

abbrev is_eq : Ordering → Bool
is_eq Ordering.eq = true
is_eq Ordering.lt = false
is_eq Ordering.gt = false

unfoldable pub child_config_status_from_string : Strtol → Str → ℤ
child_config_status_from_string c x =
    if is_eq (strncmp 5 x (codes "start"))
    then status_running
    else if is_eq (strncmp 4 x (codes "stop"))
    then status_stopped
    else if is_eq (strncmp 5 x (codes "fatal"))
    then status_broken
    else if c.is_einval x
    then minus_one
    else if lt_ℤ status_max (to_int (c.value x))
    then minus_one
    else to_int (c.value x)
