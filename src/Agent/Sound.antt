-- ===== src/Agent/Sound.antt =====
-- What an accepted configuration gives to the constructors: the rules for single values.
use scv_agent.Base.Dict.{str_eq_symm}
use mathlib.Core.List.{[]}
use scv_agent.Downlink.Registry.{is_one_of}
use scv_agent.Config.Schema.{one_of, texts}
use scv_agent.Agent.Start.{is_caught}
use scv_agent.Json.{Items, is_text, json_eq, has-get, has, text, get, Fields, Json}
use scv_agent.Config.Validator.{has_all, has_type, is_member, Validator}
use scv_agent.Base.{
  Bool-cases, inr, inl, Option-cases, ◌∷◌, refl, if◌then◌else◌, ◌⊎◌, subst, arith, some, false,
  true, String, ◌≡◌, List, Bool,
}
use scv_agent.Agent.{keywords, Failure, fails, get_or, index, no_options, gives, ◌>>=◌, Attempt}
pub mod Parts
pub mod Whole
pub mod Main

abbrev pub Yields : {A : Type 0} → (A → Type 0) → Attempt A → Type 0
Yields Q (gives a) = Q a
Yields Q (fails e) = is_caught e ≡ true

-- The value that an attempt gives has the property, and `main` catches what the attempt raises.
pub record Gets {A : Type 0} (Q : A → Type 0) (m : Attempt A) : Type 0 where
  pub holds : Yields Q m

abbrev pub Anything : {A : Type 0} → A → Type 0
Anything a = Unit

pub Gets-gives : {A : Type 0} (Q : A → Type 0) (a : A) → Q a → Gets Q (gives a)
Gets-gives Q a h = record { holds = h }

pub Gets-fails : {A : Type 0} (Q : A → Type 0) (e : Failure) → is_caught e ≡ true → Gets Q (fails e)
Gets-fails Q e h = record { holds = h }

pub Gets-bind :
    {A B : Type 0} (P : A → Type 0) (Q : B → Type 0) (m : Attempt A) (f : A → Attempt B)
    → Gets P m
    → ((a : A) → P a → Gets Q (f a))
    → Gets Q (m >>= f)
Gets-bind P Q (gives a) f h k = k a h.holds
Gets-bind P Q (fails e) f h k = record { holds = h.holds }

pub Gets-if :
    {A : Type 0} (Q : A → Type 0) (b : Bool) (m n : Attempt A)
    → (b ≡ true → Gets Q m)
    → (b ≡ false → Gets Q n)
    → Gets Q (if b then m else n)
Gets-if Q true m n km kn = km refl
Gets-if Q false m n km kn = kn refl

json_eq-is_text : (s : String) (v : Json) → json_eq (Json.text s) v ≡ true → is_text s v ≡ true
unfolding json_eq
json_eq-is_text s (Json.text t) e = str_eq_symm s t e
json_eq-is_text s Json.null e = absurd (ground arith)
json_eq-is_text s (Json.boolean true) e = absurd (ground arith)
json_eq-is_text s (Json.boolean false) e = absurd (ground arith)
json_eq-is_text s (Json.num n) e = absurd (ground arith)
json_eq-is_text s (Json.arr xs) e = absurd (ground arith)
json_eq-is_text s (Json.obj fs) e = absurd (ground arith)

pub member-is_one_of :
    (ss : List String) (v : Json) → is_member v (texts ss) ≡ true → is_one_of ss v ≡ true
member-is_one_of [] v h = absurd (ground arith)
member-is_one_of (s ∷ ss) v h = elim (Bool-cases (json_eq (Json.text s) v)) [
  | inl e ↦ rw (json_eq-is_text s v e) refl
  | inr e ↦ ground (arith, e, member-is_one_of ss v)
]

pub get_or-Anything :
    (k : String) (default v : Json) {fs : Fields}
    → v ≡ Json.obj fs
    → Gets Anything (get_or k default v)
unfolding get_or
get_or-Anything k default v {fs} e = elim (Option-cases (get k fs)) [
  | inl n ↦ rw (e, n, get_or) (record { holds = tt })
  | inr (w, n) ↦ rw (e, n, get_or) (record { holds = tt })
]

pub keywords-Anything : (v : Json) → Gets Anything (keywords v)
unfolding keywords
keywords-Anything (Json.obj fs) = record { holds = tt }
keywords-Anything Json.null = record { holds = refl }
keywords-Anything (Json.boolean b) = record { holds = refl }
keywords-Anything (Json.num n) = record { holds = refl }
keywords-Anything (Json.text s) = record { holds = refl }
keywords-Anything (Json.arr xs) = record { holds = refl }

module _ (V : Validator) where
  abbrev pub Accepts : Json → Json → Type 0
  Accepts s v = V.valid s v ≡ true

  -- An object, whose values the schemas of the properties accept.
  pub record Obeys (ps : Fields) (v : Json) : Type 0 where
    pub fields : Fields
    pub is_fields : v ≡ Json.obj fields
    pub accepted :
        (k : String) {s w : Json} → get k ps ≡ some s → get k fields ≡ some w → Accepts s w

  pub Obeys-nothing : (ps : Fields) → Obeys ps no_options
  Obeys-nothing ps = record {
    fields = Fields.end;
    is_fields = refl;
    accepted = λ k e f. absurd (ground (arith, f));
  }

  as_object : (v : Json) → has_type "object" v ≡ true → (fs : Fields) × (v ≡ Json.obj fs)
  as_object (Json.obj fs) h = (fs, refl)
  as_object Json.null h = absurd (ground arith)
  as_object (Json.boolean b) h = absurd (ground arith)
  as_object (Json.num n) h = absurd (ground arith)
  as_object (Json.text s) h = absurd (ground arith)
  as_object (Json.arr xs) h = absurd (ground arith)

  pub Accepts-Obeys :
      (ks : Fields) (v : Json) {ps : Fields}
      → Accepts (Json.obj ks) v
      → get "type" ks ≡ some (Json.text "object")
      → get "properties" ks ≡ some (Json.obj ps)
      → Obeys ps v
  Accepts-Obeys ks v h t p =
      let (fs, e) = as_object v (V.types ks v h t) in
      let h' : Accepts (Json.obj ks) (Json.obj fs) = subst (Accepts (Json.obj ks)) e h in
      record { fields = fs; is_fields = e; accepted = λ k g f. V.property ks fs k h' p g f }

  pub Accepts-has_all :
      (ks ps : Fields) (v : Json) {ns : Items}
      → Accepts (Json.obj ks) v
      → get "required" ks ≡ some (Json.arr ns)
      → (o : Obeys ps v) → has_all ns o.fields ≡ true
  Accepts-has_all ks ps v h r o =
      V.requires ks o.fields (subst (Accepts (Json.obj ks)) o.is_fields h) r

  module _ (ps : Fields) (v : Json) (o : Obeys ps v) where
    pub Gets-index :
        (k : String) {s : Json}
        → get k ps ≡ some s
        → has k o.fields ≡ true
        → Gets (Accepts s) (index k v)
    unfolding index
    Gets-index k {s} g h =
        let (w, e) = has-get k o.fields h in
        rw (o.is_fields, e, index) (record { holds = o.accepted k g e })

    pub Gets-get_or :
        (k : String) (default : Json) {s : Json}
        → get k ps ≡ some s
        → Gets (λ w. (w ≡ default) ⊎ Accepts s w) (get_or k default v)
    unfolding get_or
    Gets-get_or k default {s} g = elim (Option-cases (get k o.fields)) [
      | inl e ↦ rw (o.is_fields, e, get_or) (record { holds = inl refl })
      | inr (w, e) ↦ rw (o.is_fields, e, get_or) (record { holds = inr (o.accepted k g e) })
    ]
