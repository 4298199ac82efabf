-- ===== src/Config/Validator.antt =====
-- What `jsonschema.validate` is documented to check, for the keywords that CONFIG_SCHEMA uses.
use scv_agent.Base.Int.{pos, negsuc}
use scv_agent.Json.{
  nan, minus_infinity, infinity, obj, arr, text, fin, exceeds, num, Num, boolean, get, has, json_eq,
  null, Fields, Items, Json,
}
use scv_agent.Base.{suc, ◌==◌, ◌%◌, some, ◌||◌, ◌&&◌, str_eq, ◌≡◌, true, false, Bool, String}

abbrev is_whole : Num → Bool
is_whole (fin (pos n)) = n % 1000000 == 0
is_whole (fin (negsuc n)) = suc n % 1000000 == 0
is_whole infinity = false
is_whole minus_infinity = false
is_whole nan = false

-- The test of `type`: a bool is no number, and an integer is a number without a fraction.
abbrev pub has_type : String → Json → Bool
has_type t v = elim v [
  | null ↦ str_eq t "null"
  | boolean b ↦ str_eq t "boolean"
  | num n ↦ str_eq t "number" || (str_eq t "integer" && is_whole n)
  | text s ↦ str_eq t "string"
  | arr xs ↦ str_eq t "array"
  | obj fs ↦ str_eq t "object"
]

abbrev pub is_member : Json → Items → Bool
is_member v Items.nil = false
is_member v (Items.cons w ws) = json_eq w v || is_member v ws

-- Every name of the list is a key.
abbrev pub has_all : Items → Fields → Bool
has_all Items.nil fs = true
has_all (Items.cons (Json.text s) ns) fs = has s fs && has_all ns fs
has_all (Items.cons n ns) fs = has_all ns fs

abbrev pub all_items : (Json → Bool) → Items → Bool
all_items f Items.nil = true
all_items f (Items.cons v vs) = f v && all_items f vs

-- A schema that is an object, and a value that it accepts.
pub record Validator : Type 0 where
  pub valid : Json → Json → Bool
  pub types :
      (ks : Fields) (v : Json) {t : String}
      → valid (Json.obj ks) v ≡ true
      → get "type" ks ≡ some (Json.text t)
      → has_type t v ≡ true
  pub requires :
      (ks fs : Fields) {ns : Items}
      → valid (Json.obj ks) (Json.obj fs) ≡ true
      → get "required" ks ≡ some (Json.arr ns)
      → has_all ns fs ≡ true
  pub property :
      (ks fs : Fields) (k : String) {ps : Fields} {s v : Json}
      → valid (Json.obj ks) (Json.obj fs) ≡ true
      → get "properties" ks ≡ some (Json.obj ps)
      → get k ps ≡ some s
      → get k fs ≡ some v
      → valid s v ≡ true
  pub elements :
      (ks : Fields) (vs : Items) {s : Json}
      → valid (Json.obj ks) (Json.arr vs) ≡ true
      → get "items" ks ≡ some s
      → all_items (valid s) vs ≡ true
  pub choices :
      (ks : Fields) (v : Json) {vs : Items}
      → valid (Json.obj ks) v ≡ true
      → get "enum" ks ≡ some (Json.arr vs)
      → is_member v vs ≡ true
  pub minimum :
      (ks : Fields) (n : Num) {m : Num}
      → valid (Json.obj ks) (Json.num n) ≡ true
      → get "minimum" ks ≡ some (Json.num m)
      → exceeds m n ≡ false
