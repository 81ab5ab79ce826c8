-- ===== src/Daemon/Newest.antt =====
-- Which dump load_newest_dump of cmd_server.c takes, and what no option of the server changes.
use ubervisor.Common.{
  ℕ, ◌≤◌, ◌≡◌, ◌⊎◌, refl, ◌∙◌, inl, inr, arith, true, List, [], ◌∷◌, some, ltb, ltb→lt, Bool-cases,
  Option-cases, Str, codes, suc, get_elem?, length, All,
}
use ubervisor.Daemon.{
  path_max, Found, Choice, is_dump, consider, newest, ServerOptions, Surroundings, from_environment,
  ServerSwitch, server_option, server_options, cmd_server_options, not_one,
}

-- A file that load_newest_dump can take: a dump with a time and a name that fits.
abbrev pub IsCandidate : Found → ℕ → Type 0
IsCandidate f m =
    (is_dump f.d_name ≡ true) × (f.st_mtime ≡ some m) × (ltb (length f.d_name) path_max ≡ true)

-- The time `t` is not before that of the file, where the file can be taken.
abbrev pub Covers : ℕ → Found → Type 0
Covers t f = (m : ℕ) → IsCandidate f m → m ≤ t

consider-Covers : (f : Found) (c : Choice) → Covers (consider f c).t f
unfolding consider
consider-Covers f c m candidate = ground (arith, ltb→lt c.t m)

consider-le : (f : Found) (c : Choice) → c.t ≤ (consider f c).t
unfolding consider
consider-le f c = ground (arith)

newest-le : (l : List Found) (c : Choice) → c.t ≤ (newest l c).t
unfolding newest
newest-le [] c = omega arith
newest-le (f ∷ l) c = omega (arith, newest-le l (consider f c), consider-le f c)

-- A choice is the one before, or a file of the list that can be taken, with its time.
abbrev pub IsFrom : List Found → Choice → Choice → Type 0
IsFrom l c d =
    (d ≡ c)
    ⊎ ((i : ℕ) × (f : Found) × (m : ℕ) × (get_elem? l i ≡ some f)
        × IsCandidate f m
        × (d ≡ record { t = m; name = f.d_name }))

consider-IsFrom :
    (f : Found) (c : Choice)
    → (consider f c ≡ c)
      ⊎ ((m : ℕ) × IsCandidate f m × (consider f c ≡ record { t = m; name = f.d_name }))
unfolding consider
consider-IsFrom f c = elim (Bool-cases (is_dump f.d_name)) [
  | inr another ↦ inl (ground arith)
  | inl dump ↦ elim (Option-cases f.st_mtime) [
    | inl unread ↦ inl (ground arith)
    | inr (m, read) ↦ elim (Bool-cases (ltb (length f.d_name) path_max)) [
      | inr long ↦ inl (ground arith)
      | inl fits ↦ elim (Bool-cases (ltb c.t m)) [
        | inr older ↦ inl (ground arith)
        | inl younger ↦ inr (m, (dump, read, fits), ground arith)
      ]
    ]
  ]
]

-- Of the dumps in the directory load_newest_dump takes a newest: what it ends with is the file that it was given or
-- a dump of the directory with its time, and no dump whose time can be read and whose name fits is newer.
pub newest-IsFrom :
    (l : List Found) (c : Choice)
    → IsFrom l c (newest l c) × All (Covers (newest l c).t) l × (c.t ≤ (newest l c).t)
unfolding newest
newest-IsFrom [] c = (inl refl, tt, omega arith)
newest-IsFrom (f ∷ l) c =
    let (from, covers, later) = newest-IsFrom l (consider f c) in
    (
      elim from [
        | inr (i, g, m, at, candidate, chosen) ↦ inr (suc i, g, m, at, candidate, chosen)
        | inl kept ↦ elim (consider-IsFrom f c) [
          | inl same ↦ inl (kept ∙ same)
          | inr (m, candidate, chosen) ↦ inr (0, f, m, refl, candidate, kept ∙ chosen)
        ]
      ],
      ((λ m candidate. omega (arith, consider-Covers f c m candidate, later)), covers),
      newest-le (f ∷ l) c,
    )

module _ (env : Surroundings) where
  server_option-allow_exit :
      (ch : ServerSwitch) (x : Str) (o p : ServerOptions)
      → server_option env ch x o ≡ some p
      → p.allow_exit ≡ o.allow_exit
  unfolding server_option
  server_option-allow_exit ServerSwitch.autodump x o p e = ground arith
  server_option-allow_exit ServerSwitch.config x o p e = ground arith
  server_option-allow_exit ServerSwitch.dir x o p e = ground arith
  server_option-allow_exit ServerSwitch.foreground x o p e = ground arith
  server_option-allow_exit ServerSwitch.help x o p e = ground arith
  server_option-allow_exit ServerSwitch.loadlatest x o p e = ground arith
  server_option-allow_exit ServerSwitch.noexit x o p e = ground arith
  server_option-allow_exit ServerSwitch.logfile x o p e = ground arith
  server_option-allow_exit ServerSwitch.perm x o p e = ground arith
  server_option-allow_exit ServerSwitch.silent x o p e = ground arith
  server_option-allow_exit ServerSwitch.other x o p e = ground arith

  server_options-allow_exit :
      (l : List (ServerSwitch × Str)) (o p : ServerOptions)
      → server_options env l o ≡ some p
      → p.allow_exit ≡ o.allow_exit
  unfolding server_options
  server_options-allow_exit [] o p e = ground arith
  server_options-allow_exit ((ch, x) ∷ l) o p e = elim (Option-cases (server_option env ch x o)) [
    | inl ends ↦ absurd (ground arith)
    | inr (q, goes_on) ↦
        server_options-allow_exit l q p (ground arith) ∙ server_option-allow_exit ch x o q goes_on
  ]

  -- A server that starts obeys EXIT unless the environment variable UBERVISOR_NOEXIT is set to 1: none of its options
  -- changes that.
  pub cmd_server_options-allow_exit :
      (opts : List (ServerSwitch × Str)) (args : List Str) (o : ServerOptions)
      → cmd_server_options env opts args ≡ some o
      → o.allow_exit ≡ not_one env (codes "UBERVISOR_NOEXIT") true
  unfolding cmd_server_options from_environment
  cmd_server_options-allow_exit opts [] o e =
      server_options-allow_exit opts (from_environment env) o e
  cmd_server_options-allow_exit opts (x ∷ args) o e = absurd (ground arith)
