-- ===== src/Child.antt =====
-- What cmd_server.c does in a child before it runs the program of a group: replace_str, spawn_child,
-- spawn_child_setids. The calls of the operating system are parameters.
pub mod Exec
pub mod Ids
pub mod Replace
mod Tests
use ubervisor.Common.{
  ℕ, zero, suc, ◌+◌, ◌-◌, ◌/◌, ◌%◌, Bool, true, false, not, ◌&&◌, List, [], ◌∷◌, ◌++◌, Option, none,
  some, ltb, ◌==◌, if◌then◌else◌, Str, codes, length, take, drop,
}
use ubervisor.Common.Int.{ℤ, pos, minus_one, eq_ℤ, lt_ℤ}
use ubervisor.Config.{ChildConfig}

-- `strncmp (a, in, strlen (a)) == 0`
unfoldable pub is_prefix : Str → Str → Bool
is_prefix [] x = true
is_prefix (c ∷ a) [] = false
is_prefix (c ∷ a) (d ∷ x) = c == d && is_prefix a x

-- `strstr (in, a)`: the offset of the first occurrence.
unfoldable pub strstr : Str → Str → Option ℕ
strstr [] a = if is_prefix a [] then some 0 else none
strstr (c ∷ x) a =
    let later = strstr x a in
    if is_prefix a (c ∷ x) then some 0 else elim later [ none ↦ none | some i ↦ some (suc i) ]

unfoldable pub replace_str : Str → Str → Str → Str
replace_str text a b = elim (strstr text a) [
  | none ↦ text
  | some i ↦
      if ltb (length a) (length b)
      then text
      else take i text ++ (b ++ drop (length a) (drop i text))
]

-- The digits of `%d`, with as many rounds as the number has digits at most.
unfoldable pub digits : ℕ → ℕ → Str
digits zero n = []
digits (suc rounds) n =
    let front = digits rounds (n / 10) in
    if ltb n 10 then (48 + n) ∷ [] else front ++ ((48 + n % 10) ∷ [])

-- `snprintf (instance_str, 5, "%d", instance)`: four characters and the NUL.
unfoldable pub instance_str : ℕ → Str
instance_str n = take 4 (digits (suc n) n)
