-- ===== src/Log/Bounds.antt =====
-- The lines of slog.
use ubervisor.Common.{
  ℕ, suc, ◌+◌, ◌≤◌, ◌<◌, ◌≡◌, ◌≢◌, refl, inl, inr, arith, true, List, [], ◌∷◌, ◌++◌, Option, none,
  some, ltb, lt→ltb, ltb→lt, Bool-cases, Str, codes, length, take, length-append, length-set,
  length-take, All, All-map, le→ltb, ◌*◌,
}
use ubervisor.Json.{JsonC}
use ubervisor.Wire.{chunksiz, Bufferevent}
use ubervisor.Subscription.{Subscription, send_notification}
use ubervisor.Log.{send_log_notification, buffer_siz, Entry, stamped, cut, slog}

-- An entry whose text fits the buffer with its NUL.
abbrev pub Fits : Entry → Type 0
Fits e = (length e.told < buffer_siz) × (length e.bytes ≤ buffer_siz)

length-stamped : (ts msg : Str) → length (stamped ts msg) ≤ length ts + 4 + 2047
length-stamped ts msg =
    let whole : length (stamped ts msg) ≡ length (ts ++ codes " -- ") + length (take 2047 msg) =
      length-append (ts ++ codes " -- ") (take 2047 msg) in
    omega (arith, length-append ts (codes " -- "), length-take 2047 msg)

length-cut : (x : Str) → length (cut x) ≤ 2047
unfolding cut
length-cut x = omega (arith, length-set (take 2047 x) 2046 10, length-take 2047 x)

All-last : (l : List Entry) (e : Entry) → All Fits l → Fits e → All Fits (l ++ e ∷ [])
All-last [] e all fits = (fits, tt)
All-last (x ∷ l) e all fits = (all.0, All-last l e all.1 fits)

abbrev announcement : Str → Str
announcement ts = stamped ts (codes "too big log message is being truncated.\n")

-- The announcement of a cut is a line that fits.
slog-announce :
    (fuel : ℕ) (ts : Str)
    → length ts ≤ 63
    → (l : List Entry) × (slog (suc fuel) ts (codes "too big log message is being truncated.\n")
        ≡ some l)
      × (length l ≡ 1)
      × All Fits l
unfolding slog
slog-announce fuel ts short =
    let e : Entry = record { bytes = announcement ts; told = announcement ts } in
    let text = take 2047 (codes "too big log message is being truncated.\n") in
    let whole : length (announcement ts) ≡ length (ts ++ codes " -- ") + length text =
      length-append (ts ++ codes " -- ") text in
    let size : length (announcement ts) ≤ length ts + 60 =
      omega (arith, length-append ts (codes " -- ")) in
    let small : ltb (length (announcement ts)) buffer_siz ≡ true =
      lt→ltb (length (announcement ts)) buffer_siz (omega arith) in
    (e ∷ [], rw (slog, small) refl, refl, ((omega arith, omega arith), tt))

-- With a time stamp of at most 63 characters, as strftime leaves in its buffer, slog comes to an end with
-- at most one line to announce another; every text that is sent fits the buffer, and what is written to the log is no
-- longer than the buffer, however long the message.
pub slog-Fits :
    (fuel : ℕ) (ts msg : Str)
    → length ts ≤ 63
    → (l : List Entry) × (slog (suc (suc fuel)) ts msg ≡ some l) × (length l ≤ 2) × All Fits l
unfolding slog
slog-Fits fuel ts msg short = elim (Bool-cases (ltb (length (stamped ts msg)) buffer_siz)) [
  | inl fits ↦
      let bound = ltb→lt (length (stamped ts msg)) buffer_siz fits in
      (
        record { bytes = stamped ts msg; told = stamped ts msg } ∷ [],
        rw (slog, fits) refl,
        omega arith,
        ((bound, omega arith), tt),
      )
  | inr long ↦
      let (l, announced, one, all) = slog-announce fuel ts short in
      let e : Entry = record {
        bytes = cut (stamped ts msg) ++ 0 ∷ [];
        told = cut (stamped ts msg);
      } in
      let size = length-cut (stamped ts msg) in
      (
        l ++ e ∷ [],
        rw (slog, long) (rw announced refl),
        omega (arith, length-append l (e ∷ [])),
        All-last l e all
            (omega arith, omega (arith, length-append (cut (stamped ts msg)) (0 ∷ []))),
      )
]

module _ (lib : JsonC) (mem : Bufferevent) (subs : List Subscription) (be : ℕ → mem.Handle)
    (printed : (x : Str) → length (send_log_notification lib x).1 ≤ 6 * length x + 13) where
  -- The notification of an entry.
  abbrev pub tell : Entry → Option (ℕ → mem.Handle)
  tell e =
      send_notification mem (send_log_notification lib e.told).0
        (send_log_notification lib e.told).1 subs be

  tell-Fits : (e : Entry) → Fits e → tell e ≢ none
  unfolding send_notification
  tell-Fits e fits none_sent =
      let size = printed e.told in
      let small =
        le→ltb chunksiz (length (send_log_notification lib e.told).1) (omega (arith, fits.0)) in
      absurd (ground arith)

  -- The assertion of send_notification on the length holds for every line of slog, however long the message, where
  -- the time stamp has at most 63 characters and json-c takes at most six bytes for one of the text, as it does for
  -- escapes, and thirteen around it. slog ends within two rounds.
  pub slog-told :
      (fuel : ℕ) (ts msg : Str)
      → length ts ≤ 63
      → (l : List Entry) × (slog (suc (suc fuel)) ts msg ≡ some l) × All (λ e. tell e ≢ none) l
  slog-told fuel ts msg short =
      let (l, ends, few, fits) = slog-Fits fuel ts msg short in (l, ends, All-map l tell-Fits fits)
