-- ===== src/Child/Replace.antt =====
-- replace_str of cmd_server.c and the number of an instance in the name of a log file.
use ubervisor.Common.{
  ℕ, zero, suc, ◌+◌, ◌-◌, ◌*◌, ◌/◌, ◌%◌, ◌≤◌, ◌<◌, ◌≡◌, ◌≢◌, ◌⊎◌, inl, inr, refl, ap, true, [], ◌∷◌,
  ◌++◌, none, some, arith, ltb, lt→ltb, ltb→lt, ltb→le, ==_iff, ==_refl, Bool-cases, Option-cases,
  Str, length, take, drop, length-append, take_short,
}
use ubervisor.Child.{is_prefix, strstr, replace_str, digits, instance_str}

-- A string that begins with another.
is_prefix→append : (a x : Str) → is_prefix a x ≡ true → x ≡ a ++ drop (length a) x
unfolding is_prefix
is_prefix→append [] x h = refl
is_prefix→append (c ∷ a) [] h = absurd (ground arith)
is_prefix→append (c ∷ a) (d ∷ x) h = ground (arith, is_prefix→append a x, ==_iff c d)

is_prefix-append : (a x : Str) → is_prefix a (a ++ x) ≡ true
unfolding is_prefix
is_prefix-append [] x = refl
is_prefix-append (c ∷ a) x = ground (arith, is_prefix-append a x, ==_refl c)

-- An occurrence: what is in front of it and what is behind it.
pub record Occurs (text a : Str) (i : ℕ) : Type 0 where
  pub here : text ≡ take i text ++ (a ++ drop (length a) (drop i text))

strstr-here : (text a : Str) → is_prefix a text ≡ true → Occurs text a 0
strstr-here text a h = record { here = is_prefix→append a text h }

strstr-later : (c : ℕ) (x a : Str) (i : ℕ) → Occurs x a i → Occurs (c ∷ x) a (suc i)
strstr-later c x a i at = record { here = ap (λ z. c ∷ z) at.here }

strstr-Occurs : (text a : Str) (i : ℕ) → strstr text a ≡ some i → Occurs text a i
unfolding strstr
strstr-Occurs [] a i h = elim (Bool-cases (is_prefix a [])) [
  | inl begins ↦ let at : 0 ≡ i = ground arith in rw (← at) (strstr-here [] a begins)
  | inr differs ↦ absurd (ground arith)
]
strstr-Occurs (c ∷ x) a i h = elim (Bool-cases (is_prefix a (c ∷ x))) [
  | inl begins ↦ let at : 0 ≡ i = ground arith in rw (← at) (strstr-here (c ∷ x) a begins)
  | inr differs ↦ elim (Option-cases (strstr x a)) [
    | inl none_later ↦ absurd (ground arith)
    | inr (j, later) ↦
        let at : suc j ≡ i = ground arith in
        rw (← at) (strstr-later c x a j (strstr-Occurs x a j later))
  ]
]

strstr-prefix : (text a : Str) → is_prefix a text ≡ true → strstr text a ≡ some 0
unfolding strstr
strstr-prefix [] a h = rw h refl
strstr-prefix (c ∷ x) a h = rw h refl

strstr-skip : (c : ℕ) (x a : Str) → strstr x a ≢ none → strstr (c ∷ x) a ≢ none
unfolding strstr
strstr-skip c x a some_later e = ground (arith, some_later)

strstr-append : (x a y : Str) → strstr (x ++ (a ++ y)) a ≢ none
strstr-append [] a y e = let at = strstr-prefix (a ++ y) a (is_prefix-append a y) in cc (at, e)
strstr-append (c ∷ x) a y e = strstr-skip c (x ++ (a ++ y)) a (strstr-append x a y) e

-- What replace_str leaves, in all cases: the text as it was, where the pattern does not occur in it or the
-- replacement is longer than the pattern; or else an occurrence of the pattern exchanged for the replacement.
pub replace_str-cases :
    (text a b : Str)
    → (((x y : Str) → text ≢ x ++ (a ++ y)) × (replace_str text a b ≡ text))
      ⊎ ((x : Str) × (y : Str) × (text ≡ x ++ (a ++ y))
          × (((length a < length b) × (replace_str text a b ≡ text))
              ⊎ ((length b ≤ length a) × (replace_str text a b ≡ x ++ (b ++ y)))))
unfolding replace_str
replace_str-cases text a b = elim (Option-cases (strstr text a)) [
  | inl absent ↦
      inl ((λ x y e. strstr-append x a y (rw (← e) absent)), rw (replace_str, absent) refl)
  | inr (i, found) ↦
      let at = strstr-Occurs text a i found in
      inr (
        take i text,
        drop (length a) (drop i text),
        at.here,
        elim (Bool-cases (ltb (length a) (length b))) [
          | inl long ↦
              inl (ltb→lt (length a) (length b) long, rw (replace_str, found) (rw long refl))
          | inr short ↦
              inr (ltb→le (length a) (length b) short, rw (replace_str, found) (rw short refl))
        ],
      )
]

-- A replacement that is not longer than the text it is for stays within the string: the bytes that
-- memcpy and memmove write lie where the string was.
pub length-replace_str : (text a b : Str) → length (replace_str text a b) ≤ length text
unfolding replace_str
length-replace_str text a b = elim (Option-cases (strstr text a)) [
  | inl absent ↦ rw (replace_str, absent) (omega arith)
  | inr (i, found) ↦
      rw (replace_str, found)
        (elim (Bool-cases (ltb (length a) (length b))) [
          | inl long ↦ rw long (omega arith)
          | inr short ↦ rw short (
              let at = (strstr-Occurs text a i found).here in
              let rest = drop (length a) (drop i text) in
              omega (
                arith,
                ap length at,
                length-append (take i text) (a ++ rest),
                length-append a rest,
                length-append (take i text) (b ++ rest),
                length-append b rest,
                ltb→le (length a) (length b) short,
              ))
        ])
]

-- The number that decimal digits stand for, with the number that the digits in front of them gave.
abbrev pub value : ℕ → Str → ℕ
value n [] = n
value n (d ∷ x) = value (n * 10 + (d - 48)) x

value-append : (n : ℕ) (x y : Str) → value n (x ++ y) ≡ value (value n x) y
value-append n [] y = refl
value-append n (d ∷ x) y = value-append (n * 10 + (d - 48)) x y

value-digits : (rounds n : ℕ) → n < rounds → value 0 (digits rounds n) ≡ n
unfolding digits
value-digits zero n h = absurd (omega arith)
value-digits (suc rounds) n h = elim (Bool-cases (ltb n 10)) [
  | inl one ↦ rw one (omega arith)
  | inr more ↦
      let large : 10 ≤ n = ltb→le n 10 more in
      rw
        (
          more,
          value-append 0 (digits rounds (n / 10)) ((48 + n % 10) ∷ []),
          value-digits rounds (n / 10) (omega arith),
        )
        (omega arith)
]

-- Numbers below `b` have at most `k` digits.
abbrev HaveDigits : ℕ → ℕ → Type 0
HaveDigits b k = (rounds n : ℕ) → n < b → length (digits rounds n) ≤ k

one_digit : HaveDigits 10 1
unfolding digits
one_digit zero n h = omega arith
one_digit (suc rounds) n h = rw (lt→ltb n 10 h) (omega arith)

one_more_digit : (b k : ℕ) → HaveDigits b k → HaveDigits (10 * b) (suc k)
unfolding digits
one_more_digit b k few zero n h = omega arith
one_more_digit b k few (suc rounds) n h = elim (Bool-cases (ltb n 10)) [
  | inl one ↦ rw one (omega arith)
  | inr more ↦
      let front = few rounds (n / 10) (omega arith) in
      rw (more, length-append (digits rounds (n / 10)) ((48 + n % 10) ∷ [])) (omega arith)
]

four_digits : HaveDigits 10000 4
four_digits = one_more_digit 1000 3 (one_more_digit 100 2 (one_more_digit 10 1 one_digit))

-- The buffer of five bytes holds the number of every instance below 10000, and so below the limit of
-- 1024, in full: the text that goes into the name of the log file reads as that number, whence no two
-- instances have the same one.
pub value-instance_str : (n : ℕ) → n < 10000 → value 0 (instance_str n) ≡ n
unfolding instance_str
value-instance_str n h =
    rw (take_short (digits (suc n) n) 4 (four_digits (suc n) n h))
      (value-digits (suc n) n (omega arith))
