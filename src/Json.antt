-- ===== src/Json.antt =====
-- What `json.loads` returns: the values that the downlink modules inspect, with the comparisons,
-- sums, hashes and equalities that Python applies to them.
use scv_agent.Base.Dict.{str_eq_trans, str_eq_symm, KeyEq}
use scv_agent.Base.Int.{◌+ℤ◌, eqb_ℤ, ltb_ℤ, leb_ℤ, pos, ℤ}
use scv_agent.Base.{
  inr, inl, Bool-cases, ◌&&◌, suc, ◌==◌, ℕ, not, eq_refl, refl, arith, some, none, ◌≡◌,
  if◌then◌else◌, Option, Bool, true, false, String, str_eq,
}

-- A Python number, in millionths of its unit, with the floats that are no numbers: `json.loads`
-- accepts `NaN`, `Infinity` and `-Infinity`.
pub data Num : Type 0 where
  fin : ℤ → Num
  infinity : Num
  minus_infinity : Num
  nan : Num

-- The number 1: `True` counts as 1.
abbrev pub one : Num
one = fin (pos 1000000)

-- x <= 0
abbrev pub at_most_zero : Num → Bool
at_most_zero (fin a) = leb_ℤ a (pos 0)
at_most_zero infinity = false
at_most_zero minus_infinity = true
at_most_zero nan = false

-- a > b
abbrev pub exceeds : Num → Num → Bool
exceeds (fin a) (fin b) = ltb_ℤ b a
exceeds (fin a) minus_infinity = true
exceeds (fin a) infinity = false
exceeds (fin a) nan = false
exceeds infinity (fin b) = true
exceeds infinity minus_infinity = true
exceeds infinity infinity = false
exceeds infinity nan = false
exceeds minus_infinity b = false
exceeds nan b = false

-- a + b
abbrev pub plus : Num → Num → Num
plus (fin a) (fin b) = fin (a +ℤ b)
plus (fin a) infinity = infinity
plus (fin a) minus_infinity = minus_infinity
plus (fin a) nan = nan
plus infinity (fin b) = infinity
plus infinity infinity = infinity
plus infinity minus_infinity = nan
plus infinity nan = nan
plus minus_infinity (fin b) = minus_infinity
plus minus_infinity infinity = nan
plus minus_infinity minus_infinity = minus_infinity
plus minus_infinity nan = nan
plus nan b = nan

-- a == b
abbrev pub num_eq : Num → Num → Bool
num_eq (fin a) (fin b) = eqb_ℤ a b
num_eq infinity infinity = true
num_eq minus_infinity minus_infinity = true
num_eq _ _ = false

mutual
  pub data Json : Type 0 where
    null : Json
    boolean : Bool → Json
    num : Num → Json
    text : String → Json
    arr : Items → Json
    obj : Fields → Json

  pub data Items : Type 0 where
    nil : Items
    cons : Json → Items → Items

  pub data Fields : Type 0 where
    end : Fields
    field : String → Json → Fields → Fields

-- d.get(k) and d[k]; `none` is a missing key.
abbrev pub get : String → Fields → Option Json
get k end = none
get k (field j v fs) = if str_eq j k then some v else get k fs

abbrev pub has : String → Fields → Bool
has k end = false
has k (field j v fs) = if str_eq j k then true else has k fs

pub has-get : (k : String) (fs : Fields) → has k fs ≡ true → (v : Json) × (get k fs ≡ some v)
has-get k end h = absurd (ground arith)
has-get k (field j v fs) h = elim (Bool-cases (str_eq j k)) [
  | inl same ↦ (v, ground (arith, same))
  | inr other ↦ let (w, g) = has-get k fs (ground (arith, other)) in (w, ground (arith, other, g))
]

-- isinstance(v, (int, float)), with the number; a bool is an int.
abbrev pub as_number : Json → Option Num
as_number (boolean true) = some one
as_number (boolean false) = some (fin (pos 0))
as_number (num n) = some n
as_number null = none
as_number (text s) = none
as_number (arr xs) = none
as_number (obj fs) = none

-- v == s, for a string s.
abbrev pub is_text : String → Json → Bool
is_text s (text t) = str_eq t s
is_text s null = false
is_text s (boolean b) = false
is_text s (num n) = false
is_text s (arr xs) = false
is_text s (obj fs) = false

-- What a dict finds a value by. Lists and dicts have no hash: their use as a key raises TypeError.
pub data Key : Type 0 where
  none_key : Key
  num_key : Num → Key
  text_key : String → Key

abbrev pub key_of : Json → Option Key
key_of null = some none_key
key_of (boolean true) = some (num_key one)
key_of (boolean false) = some (num_key (fin (pos 0)))
key_of (num n) = some (num_key n)
key_of (text s) = some (text_key s)
key_of (arr xs) = none
key_of (obj fs) = none

-- Whether a dict takes two keys for one: equal, or the same object, as the one NaN of the parser.
abbrev pub same_num : Num → Num → Bool
same_num nan nan = true
same_num a b = num_eq a b

abbrev pub key_eq : Key → Key → Bool
key_eq none_key none_key = true
key_eq (num_key a) (num_key b) = same_num a b
key_eq (text_key s) (text_key t) = str_eq s t
key_eq _ _ = false

same_num_symm : (a b : Num) → same_num a b ≡ true → same_num b a ≡ true
same_num_symm a b h = ground arith

same_num_trans : (a b c : Num) → same_num a b ≡ true → same_num b c ≡ true → same_num a c ≡ true
same_num_trans a b c h k = ground arith

pub key_eq_symm : (a b : Key) → key_eq a b ≡ true → key_eq b a ≡ true
key_eq_symm (num_key a) (num_key b) h = same_num_symm a b h
key_eq_symm (text_key s) (text_key t) h = str_eq_symm s t h
key_eq_symm none_key none_key h = refl
key_eq_symm none_key (num_key b) h = ground arith
key_eq_symm none_key (text_key b) h = ground arith
key_eq_symm (num_key a) none_key h = ground arith
key_eq_symm (num_key a) (text_key b) h = ground arith
key_eq_symm (text_key a) none_key h = ground arith
key_eq_symm (text_key a) (num_key b) h = ground arith

pub key_eq_trans : (a b c : Key) → key_eq a b ≡ true → key_eq b c ≡ true → key_eq a c ≡ true
key_eq_trans (num_key a) (num_key b) (num_key c) h k = same_num_trans a b c h k
key_eq_trans (text_key s) (text_key t) (text_key u) h k = str_eq_trans s t u h k
key_eq_trans none_key none_key c h k = k
key_eq_trans a b c h k = ground arith

instance abbrev pub json_keys : KeyEq Key
json_keys = record { beq = key_eq; beq_symm = key_eq_symm; beq_trans = key_eq_trans }

-- A key finds itself.
pub key_eq_refl : (k : Key) → key_eq k k ≡ true
key_eq_refl none_key = refl
key_eq_refl (num_key (fin a)) = ground arith
key_eq_refl (num_key infinity) = refl
key_eq_refl (num_key minus_infinity) = refl
key_eq_refl (num_key nan) = refl
key_eq_refl (text_key s) = eq_refl s

-- v is None, for the value of `env.get(k)`.
abbrev pub is_null : Json → Bool
is_null v = elim (key_of v) [ some none_key ↦ true | _ ↦ false ]

-- `bool(v)` of what `x or "unknown"` tests.
abbrev pub truthy : Json → Bool
truthy null = false
truthy (boolean b) = b
truthy (num n) = not (num_eq n (fin (pos 0)))
truthy (text s) = not (str_eq s "")
truthy (arr nil) = false
truthy (arr (cons x xs)) = true
truthy (obj end) = false
truthy (obj (field k v fs)) = true

-- Of scalars; NaN is not equal to itself.
abbrev value_eq : Key → Key → Bool
value_eq none_key none_key = true
value_eq (num_key a) (num_key b) = num_eq a b
value_eq (text_key s) (text_key t) = str_eq s t
value_eq _ _ = false

abbrev scalar_eq : Json → Json → Bool
scalar_eq a b = elim (key_of a) [
  | none ↦ false
  | some k ↦ elim (key_of b) [ none ↦ false | some j ↦ value_eq k j ]
]

abbrev count_fields : Fields → ℕ
count_fields end = 0
count_fields (field k v fs) = suc (count_fields fs)

-- a == b; dicts are equal in any order.
unfoldable mutual
  pub json_eq : Json → Json → Bool
  json_eq (arr xs) b = elim b [ arr ys ↦ items_eq xs ys | _ ↦ false ]
  json_eq (obj fs) b = elim b [
    | obj gs ↦ (count_fields fs == count_fields gs) && fields_in fs gs
    | _ ↦ false
  ]
  json_eq a b = scalar_eq a b

  items_eq : Items → Items → Bool
  items_eq nil ys = elim ys [ nil ↦ true | _ ↦ false ]
  items_eq (cons x xs) ys = elim ys [ nil ↦ false | cons y rest ↦ json_eq x y && items_eq xs rest ]

  fields_in : Fields → Fields → Bool
  fields_in end gs = true
  fields_in (field k v fs) gs = elim (get k gs) [
    | none ↦ false
    | some w ↦ json_eq v w && fields_in fs gs
  ]
