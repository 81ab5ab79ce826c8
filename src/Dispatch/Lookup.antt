-- ===== src/Dispatch/Lookup.antt =====
-- find_command against a search by the first four bytes of a request.
use Prim.Native.Nat.{compare}
use ubervisor.Common.{
  ℕ, zero, suc, ◌+◌, ◌*◌, ◌/◌, ◌≤◌, ◌<◌, ◌≡◌, refl, sym, ◌∙◌, inl, inr, arith, Bool, true, false,
  ◌&&◌, List, [], ◌∷◌, Option, none, some, ltb, ◌==◌, if◌then◌else◌, Option-cases, Str, str_eq,
  length, take, get_elem?, All,
}
use ubervisor.Dispatch.{
  strncmp, Handler, Command, commands, command_compar, branch, bsearch, find_command,
}

-- Four bytes as a number, in the order of strncmp.
abbrev key : ℕ → ℕ → ℕ → ℕ → ℕ
key a b c d = ((a * 256 + b) * 256 + c) * 256 + d

strncmp-key :
    (a b c d e f g h : ℕ) (rest : Str)
    → a < 256
    → b < 256
    → c < 256
    → d < 256
    → e < 256
    → f < 256
    → g < 256
    → h < 256
    → 0 < e
    → 0 < f
    → 0 < g
    → 0 < h
    → strncmp 4 (a ∷ b ∷ c ∷ d ∷ rest) (e ∷ f ∷ g ∷ h ∷ []) ≡ compare (key a b c d) (key e f g h)
unfolding strncmp
strncmp-key a b c d e f g h rest a1 b1 c1 d1 e1 f1 g1 h1 e0 f0 g0 h0 = ground arith

-- The first command with a name.
abbrev pub lookup : Str → List Command → Option Handler
lookup name [] = none
lookup name (s ∷ table) = if str_eq name s.c_name then some s.c_func else lookup name table

str_eq-key :
    (a b c d e f g h : ℕ)
    → a < 256
    → b < 256
    → c < 256
    → d < 256
    → e < 256
    → f < 256
    → g < 256
    → h < 256
    → str_eq (a ∷ b ∷ c ∷ d ∷ []) (e ∷ f ∷ g ∷ h ∷ []) ≡ (key a b c d == key e f g h)
unfolding str_eq
str_eq-key a b c d e f g h a1 b1 c1 d1 e1 f1 g1 h1 = ground arith

-- A name of four bytes that are not 0.
abbrev is_letter : ℕ → Bool
is_letter c = ltb 0 c && ltb c 256

abbrev is_name : Str → Bool
is_name (e ∷ f ∷ g ∷ h ∷ []) = is_letter e && is_letter f && is_letter g && is_letter h
is_name _ = false

abbrev IsName : Str → Type 0
IsName name = is_name name ≡ true

abbrev name_key : Str → ℕ
name_key (e ∷ f ∷ g ∷ h ∷ []) = key e f g h
name_key _ = 0

-- Binary search by numbers, with the same probes.
abbrev by_key : ℕ → ℕ → List Command → ℕ → ℕ → Option Handler
by_key zero k table lo hi = none
by_key (suc rounds) k table lo hi =
    let mid = (lo + hi) / 2 in
    let below = by_key rounds k table lo mid in
    let above = by_key rounds k table (suc mid) hi in
    if ltb lo hi
    then elim (get_elem? table mid) [
      | none ↦ none
      | some s ↦ branch (compare k (name_key s.c_name)) below (some s.c_func) above
    ]
    else none

abbrev by_key_lookup : ℕ → List Command → Option Handler
by_key_lookup k [] = none
by_key_lookup k (s ∷ table) =
    if k == name_key s.c_name then some s.c_func else by_key_lookup k table

keys_agree : (k : ℕ) → by_key 4 k commands 0 12 ≡ by_key_lookup k commands
unfolding commands branch
keys_agree k = ground arith

All-get :
    (table : List Command) (i : ℕ) (s : Command)
    → All (λ x. IsName x.c_name) table
    → get_elem? table i ≡ some s
    → IsName s.c_name
All-get [] i s all e = absurd (ground arith)
All-get (x ∷ table) zero s all e = let same : x ≡ s = ground arith in rw (← same) all.0
All-get (x ∷ table) (suc i) s all e = All-get table i s all.1 (ground arith)

module _ (a b c d : ℕ) (rest : Str) (a1 : a < 256) (b1 : b < 256) (c1 : c < 256)
    (d1 : d < 256) where
  compare_name :
      (name : Str)
      → IsName name
      → strncmp 4 (a ∷ b ∷ c ∷ d ∷ rest) name ≡ compare (key a b c d) (name_key name)
  compare_name (e ∷ f ∷ g ∷ h ∷ []) named =
      strncmp-key a b c d e f g h rest a1 b1 c1 d1 (ground arith) (ground arith) (ground arith)
        (ground arith) (ground arith) (ground arith) (ground arith) (ground arith)
  compare_name [] named = absurd (cc named)
  compare_name (e ∷ []) named = absurd (cc named)
  compare_name (e ∷ f ∷ []) named = absurd (cc named)
  compare_name (e ∷ f ∷ g ∷ []) named = absurd (cc named)
  compare_name (e ∷ f ∷ g ∷ h ∷ i ∷ more) named = absurd (cc named)

  eq_name :
      (name : Str) → IsName name → str_eq (a ∷ b ∷ c ∷ d ∷ []) name ≡ (key a b c d == name_key name)
  eq_name (e ∷ f ∷ g ∷ h ∷ []) named =
      str_eq-key a b c d e f g h a1 b1 c1 d1 (ground arith) (ground arith) (ground arith)
        (ground arith)
  eq_name [] named = absurd (cc named)
  eq_name (e ∷ []) named = absurd (cc named)
  eq_name (e ∷ f ∷ []) named = absurd (cc named)
  eq_name (e ∷ f ∷ g ∷ []) named = absurd (cc named)
  eq_name (e ∷ f ∷ g ∷ h ∷ i ∷ more) named = absurd (cc named)

  bsearch-key :
      (rounds lo hi : ℕ) (table : List Command)
      → All (λ x. IsName x.c_name) table
      → bsearch rounds (a ∷ b ∷ c ∷ d ∷ rest) table lo hi ≡ by_key rounds (key a b c d) table lo hi
  unfolding bsearch command_compar
  bsearch-key zero lo hi table names = refl
  bsearch-key (suc rounds) lo hi table names =
      let mid = (lo + hi) / 2 in
      elim (Option-cases (get_elem? table mid)) [
        | inl out ↦ rw out refl
        | inr (s, found) ↦
            rw
              (
                found,
                compare_name s.c_name (All-get table mid s names found),
                bsearch-key rounds lo mid table names,
                bsearch-key rounds (suc mid) hi table names,
              )
              refl
      ]

  lookup-key :
      (table : List Command)
      → All (λ x. IsName x.c_name) table
      → lookup (a ∷ b ∷ c ∷ d ∷ []) table ≡ by_key_lookup (key a b c d) table
  lookup-key [] names = refl
  lookup-key (s ∷ table) names = rw (eq_name s.c_name names.0, lookup-key table names.1) refl

commands_named : All (λ x. IsName x.c_name) commands
unfolding commands
commands_named = (
  refl,
  (refl, (refl, (refl, (refl, (refl, (refl, (refl, (refl, (refl, (refl, (refl, tt))))))))))),
)

-- The bytes of a buffer.
abbrev pub AreBytes : List ℕ → Type 0
AreBytes x = All (λ c. c < 256) x

-- The binary search of run_server_command finds what a search through the whole table for the first four
-- bytes of the request finds: the table is in the order that command_compar needs. Requests shorter than
-- four bytes do not arise, since read_cb drops the connection for them.
pub find_command-lookup :
    (buf : List ℕ) → AreBytes buf → 4 ≤ length buf → find_command buf ≡ lookup (take 4 buf) commands
unfolding find_command commands
find_command-lookup (a ∷ b ∷ c ∷ d ∷ rest) all h =
    bsearch-key a b c d rest all.0 all.1.0 all.1.1.0 all.1.1.1.0 4 0 12 commands commands_named
    ∙ keys_agree (key a b c d)
    ∙ sym (lookup-key a b c d rest all.0 all.1.0 all.1.1.0 all.1.1.1.0 commands commands_named)
find_command-lookup [] _ h = absurd (omega arith)
find_command-lookup (a ∷ []) _ h = absurd (omega arith)
find_command-lookup (a ∷ b ∷ []) _ h = absurd (omega arith)
find_command-lookup (a ∷ b ∷ c ∷ []) _ h = absurd (omega arith)
