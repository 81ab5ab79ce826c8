-- ===== src/Json.antt =====
-- json-c, as far as the program calls it: a library that is not part of the repository, so a
-- parameter. The laws are the documented behaviour of objects and arrays that are built by it.
pub mod Arrays
pub mod Model
use ubervisor.Common.{
  ℕ, suc, ◌≡◌, Bool, true, false, Option, none, some, ◌==◌, if◌then◌else◌, Str, str_eq,
}
use ubervisor.Common.Int.{ℤ}

-- The `json_type_…` constants that the program asks for.
pub data JsonType : Type 0 where
  boolean double int object array string : JsonType

-- A `double` stands as the `off_t` that the program casts it to or from.
pub record JsonC : Type 1 where
  pub Json : Type 0
  pub json_tokener_parse : Str → Option Json
  pub is_error : Json → Bool
  pub json_object_is_type : Json → JsonType → Bool
  pub json_object_object_get : Json → Str → Option Json
  pub json_object_get_string : Json → Option Str
  pub json_object_get_int : Json → ℤ
  pub json_object_get_double : Json → ℤ
  pub json_object_get_boolean : Json → Bool
  pub json_object_array_length : Json → ℕ
  pub json_object_array_get_idx : Json → ℕ → Option Json
  pub json_object_new_object : Json
  pub json_object_new_array : Json
  pub json_object_new_string : Str → Json
  pub json_object_new_int : ℤ → Json
  pub json_object_new_double : ℤ → Json
  pub json_object_new_boolean : Bool → Json
  pub json_object_object_add : Json → Str → Json → Json
  pub json_object_array_add : Json → Json → Json
  pub json_object_to_json_string : Json → Str

-- What a value that is put in comes out as.
pub record Documented (lib : JsonC) : Type 0 where
  pub get-new : (k : Str) → lib.json_object_object_get lib.json_object_new_object k ≡ none
  pub get-add :
      (o v : lib.Json) (j k : Str)
      → lib.json_object_object_get (lib.json_object_object_add o j v) k
        ≡ (if str_eq j k then some v else lib.json_object_object_get o k)
  pub object-new : lib.json_object_is_type lib.json_object_new_object JsonType.object ≡ true
  pub object-add :
      (o v : lib.Json) (k : Str)
      → lib.json_object_is_type (lib.json_object_object_add o k v) JsonType.object
        ≡ lib.json_object_is_type o JsonType.object
  pub is-string :
      (x : Str) → lib.json_object_is_type (lib.json_object_new_string x) JsonType.string ≡ true
  pub get-string : (x : Str) → lib.json_object_get_string (lib.json_object_new_string x) ≡ some x
  pub is-int : (n : ℤ) → lib.json_object_is_type (lib.json_object_new_int n) JsonType.int ≡ true
  pub get-int : (n : ℤ) → lib.json_object_get_int (lib.json_object_new_int n) ≡ n
  pub is-double :
      (n : ℤ) → lib.json_object_is_type (lib.json_object_new_double n) JsonType.double ≡ true
  pub get-double : (n : ℤ) → lib.json_object_get_double (lib.json_object_new_double n) ≡ n
  pub get-boolean : (b : Bool) → lib.json_object_get_boolean (lib.json_object_new_boolean b) ≡ b
  pub array-new : lib.json_object_is_type lib.json_object_new_array JsonType.array ≡ true
  pub array-add :
      (a v : lib.Json)
      → lib.json_object_is_type (lib.json_object_array_add a v) JsonType.array
        ≡ lib.json_object_is_type a JsonType.array
  pub length-new : lib.json_object_array_length lib.json_object_new_array ≡ 0
  pub length-add :
      (a v : lib.Json)
      → lib.json_object_array_length (lib.json_object_array_add a v)
        ≡ suc (lib.json_object_array_length a)
  pub idx-add :
      (a v : lib.Json) (i : ℕ)
      → lib.json_object_array_get_idx (lib.json_object_array_add a v) i ≡ (
          if i == lib.json_object_array_length a then some v else lib.json_object_array_get_idx a i)
