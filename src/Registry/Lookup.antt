-- ===== src/Registry/Lookup.antt =====
-- child_config_find_by_name of cmd_server.c where the names agree with the groups.
use ubervisor.Common.{
  ℕ, ◌≡◌, ◌∙◌, ap, sym, inl, inr, arith, [], Option, none, some, Option-cases, Str, head?,
}
use ubervisor.Config.{ChildConfig}
use ubervisor.Uvhash.{uvstrhash_find}
use ubervisor.Uvhash.Text.{entries, values, uvstrhash_find-entries}
use ubervisor.Server.{Server}
use ubervisor.Command.{child_config_find_by_name}
use ubervisor.Registry.{titles, Keeps, IsNamed}
use ubervisor.Registry.Frames.{tag}

-- The abstract table: which group a name leads to.
abbrev pub registered : Server → Str → Option ℕ
registered s n = child_config_find_by_name n s

pub registered-Keeps : (s t : Server) → Keeps s t → (n : Str) → registered t n ≡ registered s n
unfolding child_config_find_by_name
registered-Keeps s t kept n = ap (λ b. uvstrhash_find b.0 b.1 n) kept.0

-- A name that leads nowhere has no entry.
pub absent :
    (s : Server) (n : Str)
    → IsNamed s
    → registered s n ≡ none
    → entries s.names s.child_config_hash n ≡ []
unfolding child_config_find_by_name
absent s n named nowhere = elim (named.found n) [
  | inl free ↦ free
  | inr (c, there, text, title) ↦
      let look : registered s n ≡ head? (values s.names (entries s.names s.child_config_hash n)) =
        unfold child_config_find_by_name in uvstrhash_find-entries s.names s.child_config_hash n in
      grind arith
]

-- A name that leads to a group is the group's own.
pub registered-there :
    (s : Server) (n : Str) (c : ℕ)
    → IsNamed s
    → registered s n ≡ some c
    → (s.names c ≡ n) × (titles s.configs c ≡ some (some n))
unfolding child_config_find_by_name
registered-there s n c named leads =
    let look : registered s n ≡ head? (values s.names (entries s.names s.child_config_hash n)) =
      unfold child_config_find_by_name in uvstrhash_find-entries s.names s.child_config_hash n in
    elim (named.found n) [
      | inl free ↦ absurd (grind arith)
      | inr (d, there, text, title) ↦
          let eq : d ≡ c = grind arith in
          (ap s.names (sym eq) ∙ text, ap (titles s.configs) (sym eq) ∙ title)
    ]

pub titles-there :
    (f : ℕ → Option ChildConfig) (c : ℕ) (t : Option Str)
    → titles f c ≡ some t
    → (cc : ChildConfig) × (f c ≡ some cc) × (cc.cc_name ≡ t)
unfolding titles
titles-there f c t title = elim (Option-cases (f c)) [
  | inl gone ↦ absurd (ground arith)
  | inr (cc, there) ↦ (cc, there, ground arith)
]

-- A group that is there stands under its own name.
pub registered-own :
    (s : Server) (c : ℕ) (cc : ChildConfig)
    → IsNamed s
    → s.configs c ≡ some cc
    → (cc.cc_name ≡ some (s.names c)) × (registered s (s.names c) ≡ some c)
registered-own s c cc named there =
    let filed = named.filed c cc.cc_name (tag c cc s there) in
    let look : registered s (s.names c)
        ≡ head? (values s.names (entries s.names s.child_config_hash (s.names c))) =
      unfold child_config_find_by_name in
      uvstrhash_find-entries s.names s.child_config_hash (s.names c) in
    (filed.0, look ∙ ap (λ l. head? (values s.names l)) filed.1)
