-- ===== src/Json/Model.antt =====
-- A json-c for the tests: values as they are built, a parser that knows one text.
use ubervisor.Common.{
  ℕ, suc, refl, [], Bool, true, false, Option, none, some, ◌==◌, if◌then◌else◌, Str, str_eq,
}
use ubervisor.Common.Int.{ℤ, pos}
use ubervisor.Json.{JsonType, JsonC, Documented}

pub data Value : Type 0 where
  new_object : Value
  object_add : Value → Str → Value → Value
  new_array : Value
  array_add : Value → Value → Value
  string : Str → Value
  int : ℤ → Value
  double : ℤ → Value
  boolean : Bool → Value

unfoldable pub kind : Value → JsonType
kind new_object = JsonType.object
kind (object_add o k v) = kind o
kind new_array = JsonType.array
kind (array_add a v) = kind a
kind (string x) = JsonType.string
kind (int n) = JsonType.int
kind (double n) = JsonType.double
kind (boolean b) = JsonType.boolean

unfoldable pub same : JsonType → JsonType → Bool
same JsonType.object JsonType.object = true
same JsonType.array JsonType.array = true
same JsonType.string JsonType.string = true
same JsonType.int JsonType.int = true
same JsonType.double JsonType.double = true
same JsonType.boolean JsonType.boolean = true
same _ _ = false

unfoldable pub member : Value → Str → Option Value
member (object_add o j v) k = if str_eq j k then some v else member o k
member _ k = none

unfoldable pub text : Value → Option Str
text (string x) = some x
text _ = none

unfoldable pub number : Value → ℤ
number (int n) = n
number _ = pos 0

unfoldable pub offset : Value → ℤ
offset (double n) = n
offset _ = pos 0

unfoldable pub truth : Value → Bool
truth (boolean b) = b
truth _ = false

unfoldable pub elements : Value → ℕ
elements (array_add a v) = suc (elements a)
elements _ = 0

unfoldable pub element : Value → ℕ → Option Value
element (array_add a v) i = if i == elements a then some v else element a i
element _ i = none

-- `buf` is the text of `v`; any value is printed as its string, or as nothing.
abbrev pub library : Str → Value → JsonC
library buf v = record {
  Json = Value;
  json_tokener_parse = λ x. if str_eq x buf then some v else none;
  is_error = λ o. false;
  json_object_is_type = λ o t. same (kind o) t;
  json_object_object_get = member;
  json_object_get_string = text;
  json_object_get_int = number;
  json_object_get_double = offset;
  json_object_get_boolean = truth;
  json_object_array_length = elements;
  json_object_array_get_idx = element;
  json_object_new_object = new_object;
  json_object_new_array = new_array;
  json_object_new_string = string;
  json_object_new_int = int;
  json_object_new_double = double;
  json_object_new_boolean = boolean;
  json_object_object_add = object_add;
  json_object_array_add = array_add;
  json_object_to_json_string = λ o. elim (text o) [ none ↦ [] | some x ↦ x ];
}

pub library-Documented : (buf : Str) (v : Value) → Documented (library buf v)
unfolding library kind same member text number offset truth elements element
library-Documented buf v = record {
  get-new = λ k. refl;
  get-add = λ o v j k. refl;
  object-new = refl;
  object-add = λ o v k. refl;
  is-string = λ x. refl;
  get-string = λ x. refl;
  is-int = λ n. refl;
  get-int = λ n. refl;
  is-double = λ n. refl;
  get-double = λ n. refl;
  get-boolean = λ b. refl;
  array-new = refl;
  array-add = λ a v. refl;
  length-new = refl;
  length-add = λ a v. refl;
  idx-add = λ a v i. refl;
}

-- The same, but any object is printed as `buf`.
abbrev pub printer : Str → Value → JsonC
printer buf v = record (library buf v) { json_object_to_json_string = λ o. buf }

pub printer-Documented : (buf : Str) (v : Value) → Documented (printer buf v)
unfolding library printer kind same member text number offset truth elements element
printer-Documented buf v = record {
  get-new = λ k. refl;
  get-add = λ o v j k. refl;
  object-new = refl;
  object-add = λ o v k. refl;
  is-string = λ x. refl;
  get-string = λ x. refl;
  is-int = λ n. refl;
  get-int = λ n. refl;
  is-double = λ n. refl;
  get-double = λ n. refl;
  get-boolean = λ b. refl;
  array-new = refl;
  array-add = λ a v. refl;
  length-new = refl;
  length-add = λ a v. refl;
  idx-add = λ a v i. refl;
}
