-- ===== src/Log/Tests.antt =====
-- A line of the log that is told to a subscriber.
use ubervisor.Common.{
  ◌≡◌, ◌≢◌, List, [], ◌∷◌, ◌++◌, ◌==◌, if◌then◌else◌, Bool-cases, inl, inr, length-append, none,
  some, arith, codes, All, Str, ◌≤◌, ◌*◌, ◌+◌, length,
}
use ubervisor.Json.{JsonC}
use ubervisor.Json.Model.{Value, new_object, object_add, string, library}
use ubervisor.Wire.Tests.{memory}
use ubervisor.Log.{Entry, slog, send_log_notification}
use ubervisor.Log.Bounds.{tell, slog-told}

-- A string with a backslash in front of a quote or another backslash.
abbrev escape : Str → Str
escape [] = []
escape (c ∷ x) =
    (if c == 34 then 92 ∷ c ∷ [] else if c == 92 then 92 ∷ c ∷ [] else c ∷ []) ++ escape x

-- An object with one string as json-c prints it, where no other byte is escaped.
abbrev quoted : Value → Str
quoted (object_add o k (string x)) =
    (123 ∷ 32 ∷ 34 ∷ []) ++ k ++ (34 ∷ 58 ∷ 32 ∷ 34 ∷ []) ++ escape x ++ (34 ∷ 32 ∷ 125 ∷ [])
quoted v = []

abbrev quoting : JsonC
quoting = record (library [] new_object) { json_object_to_json_string = quoted }

length-escape : (x : Str) → length (escape x) ≤ 2 * length x
length-escape [] = omega arith
length-escape (c ∷ x) = elim (Bool-cases (c == 34)) [
  | inl quote ↦ rw quote (omega (arith, length-escape x))
  | inr other ↦ elim (Bool-cases (c == 92)) [
    | inl backslash ↦ rw (other, backslash) (omega (arith, length-escape x))
    | inr plain ↦ rw (other, plain) (omega (arith, length-escape x))
  ]
]

short : (x : Str) → length (send_log_notification quoting x).1 ≤ 6 * length x + 13
unfolding send_log_notification
short x = omega (arith, length-append (escape x) (34 ∷ 32 ∷ 125 ∷ []), length-escape x)

slog-told_example :
    (l : List Entry) × (slog 2 (codes "Jan 01 00:00:00") (codes "server started.\n") ≡ some l)
    × All (λ e. tell quoting memory [] (λ c. []) short e ≢ none) l
slog-told_example =
    slog-told quoting memory [] (λ c. []) short 0 (codes "Jan 01 00:00:00")
      (codes "server started.\n") (omega arith)
