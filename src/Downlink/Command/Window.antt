-- ===== src/Downlink/Command/Window.antt =====
-- `_seen` of CommandExecutor as a window: an answer is forgotten only after `_seen_max` others.
use Prim.Native.Nat.{zero}
use scv_agent.Base.Dict.{length-without-le, lookup, without}
use scv_agent.Downlink.Command.{Result}
use scv_agent.Downlink.Command.Checks.{touch, trim}
use scv_agent.Json.{key_eq_refl, key_eq_symm, key_eq_trans, json_keys, key_eq, Key}
use scv_agent.Base.{
  append-nil, sym, append_assoc, length-append, refl, inr, inl, ◌∙◌, [], ltb, ap, Bool-cases, arith,
  some, suc, true, ◌∷◌, ◌∷◌, ◌<◌, ◌≤◌, ◌++◌, ◌≡◌, length, ℕ, List,
}

abbrev Entries : Type 0
Entries = List (Key × Result)

-- An answer for the key stands among the last `n` entries.
pub record Recent (k : Key) (n : ℕ) (seen : List (Key × Result)) : Type 0 where
  pub before : List (Key × Result)
  pub found : Key
  pub result : Result
  pub later : List (Key × Result)
  pub split : seen ≡ before ++ (found, result) ∷ later
  pub same : key_eq found k ≡ true
  pub close : length later < n

without-append : (k : Key) (xs ys : Entries) → without k (xs ++ ys) ≡ without k xs ++ without k ys
without-append k [] ys = refl
without-append k ((j, w) ∷ xs) ys = ground (arith, without-append k xs ys)

trim-short : (m : ℕ) (xs : Entries) → length xs ≤ m → trim m xs ≡ xs
unfolding trim
trim-short m [] h = refl
trim-short m (x ∷ xs) h = ground (arith, h)

length-trim : (m : ℕ) (xs : Entries) → length (trim m xs) ≤ m
unfolding trim
length-trim m [] = omega arith
length-trim m (x ∷ xs) = elim (Bool-cases (ltb m (length (x ∷ xs)))) [
  | inl e ↦ rw (e, trim) (length-trim m xs)
  | inr e ↦ rw (e, trim) (ground (arith, e))
]

trim-snoc :
    (m : ℕ) (xs : Entries) (e : Key × Result) → trim (suc m) (xs ++ e ∷ []) ≡ trim m xs ++ e ∷ []
unfolding trim
trim-snoc m [] e = ground arith
trim-snoc m (x ∷ xs) e = ground (arith, trim-snoc m xs e, length-append xs (e ∷ []))

trim_zero : (xs : Entries) → trim 0 xs ≡ []
unfolding trim
trim_zero [] = refl
trim_zero (x ∷ xs) = ground (arith, trim_zero xs)

without_twice : (k : Key) (xs : Entries) → without k (without k xs) ≡ without k xs
without_twice k [] = refl
without_twice k ((j, w) ∷ xs) = elim (Bool-cases (key_eq j k)) [
  | inl e ↦ rw e (without_twice k xs)
  | inr e ↦ rw (e, e) (ap (◌∷◌ (j, w)) (without_twice k xs))
]

-- What `trim` leaves has no entry of the key either.
without-trim :
    (m : ℕ) (k : Key) (xs : Entries) → without k (trim m (without k xs)) ≡ trim m (without k xs)
unfolding trim
without-trim m k [] = refl
without-trim m k ((j, w) ∷ xs) = elim (Bool-cases (key_eq j k)) [
  | inl e ↦ rw e (without-trim m k xs)
  | inr e ↦ elim (Bool-cases (ltb m (length ((j, w) ∷ without k xs)))) [
    | inl full ↦ rw (e, full, trim) (without-trim m k xs)
    | inr room ↦ rw (e, room, trim) (rw e (ap (◌∷◌ (j, w)) (without_twice k xs)))
  ]
]

-- A second answer under the same key takes the place of the first.
pub touch_twice :
    (m : ℕ) (k : Key) (r r' : Result) (seen : List (Key × Result))
    → trim m (touch k r' (trim m (touch k r seen))) ≡ trim m (touch k r' seen)
touch_twice zero k r r' seen = trim_zero _ ∙ sym (trim_zero _)
touch_twice (suc m) k r r' seen =
    let ys = without k seen in
    let gone : without k ((k, r) ∷ []) ≡ [] = rw (key_eq_refl k) refl in
    let first : without k (trim (suc m) (touch k r seen)) ≡ trim m ys =
      ap (without k) (trim-snoc m ys (k, r))
      ∙ (without-append k (trim m ys) ((k, r) ∷ [])
          ∙ (ap (◌++◌ (without k (trim m ys))) gone ∙ (append-nil _ ∙ without-trim m k seen))) in
    ap (λ x. trim (suc m) (x ++ (k, r') ∷ [])) first
    ∙ (trim-snoc m (trim m ys) (k, r')
        ∙ (ap (λ x. x ++ (k, r') ∷ []) (trim-short m (trim m ys) (length-trim m ys))
            ∙ sym (trim-snoc m ys (k, r'))))

-- `trim` keeps what stands among the last entries.
trim-append :
    (m : ℕ) (before : Entries) (e : Key × Result) (later : Entries)
    → length later < m
    → (kept : List (Key × Result)) × (trim m (before ++ e ∷ later) ≡ kept ++ e ∷ later)
unfolding trim
trim-append m [] e later h = ([], trim-short m (e ∷ later) (omega arith))
trim-append m (x ∷ before) e later h =
    let (kept, t) = trim-append m before e later h in
    elim (Bool-cases (ltb m (length (x ∷ before ++ e ∷ later)))) [
      | inl full ↦ (kept, rw (full, trim) t)
      | inr room ↦ (x ∷ before, rw (room, trim) refl)
    ]

-- The answer that was stored last is the most recent one.
pub touched-Recent :
    (m : ℕ) (k : Key) (r : Result) (seen : List (Key × Result))
    → key_eq k k ≡ true
    → 0 < m
    → Recent k 1 (trim m (touch k r seen))
touched-Recent m k r seen same h =
    let (kept, t) = trim-append m (without k seen) (k, r) [] h in
    record {
      before = kept;
      found = k;
      result = r;
      later = [];
      split = t;
      same = same;
      close = omega arith;
    }

-- Another answer moves it back by one place at most.
pub touch-Recent :
    (m n : ℕ) (k j : Key) (r : Result) (seen : List (Key × Result))
    → Recent k n seen
    → n < m
    → Recent k (suc n) (trim m (touch j r seen))
touch-Recent m n k j r seen h f = elim (Bool-cases (key_eq h.found j)) [
  | inl hit ↦
      let (kept, t) = trim-append m (without j seen) (j, r) [] (omega arith) in
      record {
        before = kept;
        found = j;
        result = r;
        later = [];
        split = t;
        same = key_eq_trans j h.found k (key_eq_symm h.found j hit) h.same;
        close = omega arith;
      }
  | inr miss ↦
      let later = without j h.later ++ (j, r) ∷ [] in
      let short : length later < suc n = omega (
        arith,
        length-append (without j h.later) ((j, r) ∷ []),
        length-without-le j h.later,
        h.close,
      ) in
      let (kept, t) =
        trim-append m (without j h.before) (h.found, h.result) later (omega (arith, short, f)) in
      let stays : without j ((h.found, h.result) ∷ h.later)
          ≡ (h.found, h.result) ∷ without j h.later =
        rw miss refl in
      let moved : touch j r seen ≡ without j h.before ++ (h.found, h.result) ∷ later =
        ap (touch j r) h.split
        ∙ (ap (λ x. x ++ (j, r) ∷ [])
              (without-append j h.before _ ∙ ap (◌++◌ (without j h.before)) stays)
            ∙ append_assoc (without j h.before) _ ((j, r) ∷ [])) in
      record {
        before = kept;
        found = h.found;
        result = h.result;
        later = later;
        split = ap (trim m) moved ∙ t;
        same = h.same;
        close = short;
      }
]

lookup-append :
    (k j : Key) (r : Result) (before later : Entries)
    → key_eq j k ≡ true
    → (r' : Result) × (lookup k (before ++ (j, r) ∷ later) ≡ some r')
lookup-append k j r [] later h = (r, rw h refl)
lookup-append k j r ((i, w) ∷ before) later h = elim (Bool-cases (key_eq i k)) [
  | inl hit ↦ (w, rw hit refl)
  | inr miss ↦ let (r', e) = lookup-append k j r before later h in (r', rw miss e)
]

pub lookup-Recent :
    (k : Key) (n : ℕ) (seen : List (Key × Result))
    → Recent k n seen
    → (r : Result) × (lookup k seen ≡ some r)
lookup-Recent k n seen h =
    let (r, e) = lookup-append k h.found h.result h.before h.later h.same in
    (r, ap (lookup k) h.split ∙ e)
