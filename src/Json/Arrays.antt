-- ===== src/Json/Arrays.antt =====
-- Arrays of json-c that are built by adding one value after the other.
use ubervisor.Common.{
  ℕ, zero, suc, ◌+◌, ◌<◌, ◌≡◌, refl, ap, ◌∙◌, arith, List, [], ◌∷◌, some, true, length,
}
use ubervisor.Json.{JsonType, JsonC, Documented}

-- `step` for each value, from the last to the first.
abbrev pub steps {ℓ κ} : {A : Type ℓ} {B : Type κ} → (A → B → B) → B → List A → B
steps step end [] = end
steps step end (v ∷ vs) = step v (steps step end vs)

module _ (lib : JsonC) (doc : Documented lib) where
  -- The array `a` with more values behind its own.
  abbrev pub add_all : lib.Json → List lib.Json → lib.Json
  add_all a [] = a
  add_all a (v ∷ vs) = add_all (lib.json_object_array_add a v) vs

  abbrev size : lib.Json → ℕ
  size a = lib.json_object_array_length a

  pub length-add_all :
      (a : lib.Json) (vs : List lib.Json) → size (add_all a vs) ≡ size a + length vs
  length-add_all a [] = omega arith
  length-add_all a (v ∷ vs) =
      omega (arith, length-add_all (lib.json_object_array_add a v) vs, doc.length-add a v)

  pub is_array-add_all :
      (a : lib.Json) (vs : List lib.Json)
      → lib.json_object_is_type a JsonType.array ≡ true
      → lib.json_object_is_type (add_all a vs) JsonType.array ≡ true
  is_array-add_all a [] array = array
  is_array-add_all a (v ∷ vs) array =
      is_array-add_all (lib.json_object_array_add a v) vs (doc.array-add a v ∙ array)

  front-add_all :
      (a : lib.Json) (vs : List lib.Json) (i : ℕ)
      → i < size a
      → lib.json_object_array_get_idx (add_all a vs) i ≡ lib.json_object_array_get_idx a i
  front-add_all a [] i h = refl
  front-add_all a (v ∷ vs) i h =
      front-add_all (lib.json_object_array_add a v) vs i (omega (arith, doc.length-add a v))
      ∙ ground (arith, doc.idx-add a v i)

  -- The first of the values that were added.
  pub idx-add_all :
      (a v : lib.Json) (vs : List lib.Json) (i : ℕ)
      → i ≡ size a
      → lib.json_object_array_get_idx (add_all (lib.json_object_array_add a v) vs) i ≡ some v
  idx-add_all a v vs i at =
      front-add_all (lib.json_object_array_add a v) vs i (omega (arith, doc.length-add a v))
      ∙ ground (arith, doc.idx-add a v i)

  -- A walk over the values behind the first of the array.
  pub walk-add_all {ℓ} :
      {B : Type ℓ} (walk : lib.Json → ℕ → ℕ → B) (end : B) (step : lib.Json → B → B)
      → ((a : lib.Json) (i : ℕ) → walk a i zero ≡ end)
      → ((a v : lib.Json) (i n : ℕ)
          → lib.json_object_array_get_idx a i ≡ some v
          → walk a i (suc n) ≡ step v (walk a (suc i) n))
      → (a : lib.Json) (vs : List lib.Json) (i n : ℕ) → i ≡ size a
      → n ≡ length vs
      → walk (add_all a vs) i n ≡ steps step end vs
  walk-add_all walk end step ends goes a [] i zero at many = ends a i
  walk-add_all walk end step ends goes a [] i (suc n) at many = absurd (omega arith)
  walk-add_all walk end step ends goes a (v ∷ vs) i zero at many = absurd (omega arith)
  walk-add_all walk end step ends goes a (v ∷ vs) i (suc n) at many =
      let b = lib.json_object_array_add a v in
      goes (add_all b vs) v i n (idx-add_all a v vs i at)
      ∙ ap (step v) (
          walk-add_all walk end step ends goes b vs (suc i) n (omega (arith, doc.length-add a v))
            (omega arith))
