-- ===== src/Disk/Frame.antt =====
-- The record format of disk_buffer.py: `_pack` and `_read_records`, over lists of bytes.
-- `cbor2` is the parameter `Cbor`. `struct.pack(">I", n)` raises from 2 ^ 32 on.
use scv_agent.Base.{
  length-take-le, inr, inl, sym, append_assoc, drop-append, append-nil, length-append, All,
  take-append, Option-cases, take, ltb, refl, drop, if◌then◌else◌, ℕ, zero, suc, ◌+◌, ◌*◌, ◌/◌, ◌%◌,
  ◌≤◌, ◌<◌, ◌≡◌, Option, none, some, List, [], ◌∷◌, ◌++◌, arith, length,
}

-- `cbor2.dumps` and `cbor2.loads`, on records of the buffer.
pub record Cbor {ℓ} (R : Type ℓ) : Type ℓ where
  pub dumps : R → List ℕ
  -- `none` is an exception.
  pub loads : List ℕ → Option R

abbrev pub len_limit : ℕ
len_limit = 4294967296

-- `_LEN.pack(n)`, four bytes, the highest first.
unfoldable pub pack_len : ℕ → List ℕ
pack_len n = n / 16777216 % 256 ∷ n / 65536 % 256 ∷ n / 256 % 256 ∷ n % 256 ∷ []

-- `_LEN.unpack_from`, and the bytes behind it; `none` if there are fewer than four bytes.
unfoldable pub unpack_len : List ℕ → Option (ℕ × List ℕ)
unpack_len (a ∷ b ∷ c ∷ d ∷ rest) = some (((a * 256 + b) * 256 + c) * 256 + d, rest)
unpack_len _ = none

module _ {ℓ} {R : Type ℓ} (cbor : Cbor R) where
  -- `_pack`; `none` is `struct.error`.
  unfoldable pub pack : R → Option (List ℕ)
  pack r =
      let body = cbor.dumps r in
      if ltb (length body) len_limit then some (pack_len (length body) ++ body) else none

  -- The loop of `_read_records`, on the bytes from `offset` on; `none` is an exception.
  unfoldable pub read_loop : ℕ → List ℕ → Option (List R)
  read_loop zero raw = some []
  read_loop (suc fuel) raw = elim (unpack_len raw) [
    | none ↦ some []
    | some (n, rest) ↦
        let more = read_loop fuel (drop n rest) in
        if ltb (length rest) n then some [] else elim (cbor.loads (take n rest)) [
          | none ↦ none
          | some r ↦ elim more [ none ↦ none | some rs ↦ some (r ∷ rs) ]
        ]
  ]

  -- Each round takes at least four bytes, so there are fewer rounds than bytes.
  unfoldable pub read_records : List ℕ → Option (List R)
  read_records raw = read_loop (suc (length raw)) raw

  -- A file of whole records.
  unfoldable pub frame : R → List ℕ
  frame r = pack_len (length (cbor.dumps r)) ++ cbor.dumps r

  unfoldable pub frames : List R → List ℕ
  frames [] = []
  frames (r ∷ rs) = frame r ++ frames rs

  abbrev pub Fits : R → Type 0
  Fits r = length (cbor.dumps r) < len_limit

  -- The decoder reads the record back.
  abbrev pub IsWhole : R → Type ℓ
  IsWhole r = Fits r × (cbor.loads (cbor.dumps r) ≡ some r)

  unpack-pack :
      (r : R) (rest : List ℕ)
      → Fits r
      → unpack_len (frame r ++ rest) ≡ some (length (cbor.dumps r), cbor.dumps r ++ rest)
  unfolding frame unpack_len pack_len
  unpack-pack r rest h = ground arith

  -- The bytes end before a whole record: what a crash leaves behind the last whole one.
  abbrev pub IsTorn : List ℕ → Type 0
  IsTorn raw = elim (unpack_len raw) [ none ↦ Unit {0} | some (n, rest) ↦ length rest < n ]

  read_torn : (fuel : ℕ) (raw : List ℕ) → IsTorn raw → read_loop fuel raw ≡ some []
  unfolding read_loop
  read_torn zero raw h = refl
  read_torn (suc fuel) raw h = elim (Option-cases (unpack_len raw)) [
    | inl e ↦ ground (arith, e)
    | inr ((n, rest), e) ↦ ground (arith, e)
  ]

  read-frame :
      (fuel : ℕ) (r : R) (rest : List ℕ) {rs : List R}
      → IsWhole r
      → read_loop fuel rest ≡ some rs
      → read_loop (suc fuel) (frame r ++ rest) ≡ some (r ∷ rs)
  unfolding read_loop
  read-frame fuel r rest h e = ground (
    arith,
    unpack-pack r rest h.0,
    take-append (cbor.dumps r) rest,
    drop-append (cbor.dumps r) rest,
    length-append (cbor.dumps r) rest,
    h.1,
    e,
  )

  -- Whole records, then whatever a crash left: the whole records are read, in order.
  read-frames :
      (rs : List R) (torn : List ℕ) (fuel : ℕ)
      → All IsWhole rs
      → IsTorn torn
      → length rs < fuel
      → read_loop fuel (frames rs ++ torn) ≡ some rs
  unfolding frames
  read-frames [] torn fuel fit h f = read_torn fuel torn h
  read-frames (r ∷ rs) torn zero fit h f = absurd (omega arith)
  read-frames (r ∷ rs) torn (suc fuel) fit h f =
      rw (append_assoc (frame r) (frames rs) torn) (
        read-frame fuel r (frames rs ++ torn) fit.0
          (read-frames rs torn fuel fit.1 h (omega arith)))

  length-frame : (r : R) → length (frame r) ≡ length (cbor.dumps r) + 4
  unfolding frame pack_len
  length-frame r = omega arith

  length-frames-ge : (rs : List R) → length rs ≤ length (frames rs)
  unfolding frames
  length-frames-ge [] = omega arith
  length-frames-ge (r ∷ rs) =
      omega (arith, length-append (frame r) (frames rs), length-frame r, length-frames-ge rs)

  -- A file of whole records with a torn one behind them is read back as those records.
  pub read_records-frames :
      (rs : List R) (torn : List ℕ)
      → All IsWhole rs
      → IsTorn torn
      → read_records (frames rs ++ torn) ≡ some rs
  unfolding read_records
  read_records-frames rs torn fit h =
      read-frames rs torn (suc (length (frames rs ++ torn))) fit h
        (omega (arith, length-append (frames rs) torn, length-frames-ge rs))

  pub frames-append : (rs : List R) (r : R) → frames (rs ++ r ∷ []) ≡ frames rs ++ frame r
  unfolding frames
  frames-append [] r = append-nil (frame r)
  frames-append (q ∷ rs) r =
      rw (frames-append rs r) (sym (append_assoc (frame q) (frames rs) (frame r)))

  -- A strict prefix of a record is torn.
  take-IsTorn : (r : R) (k : ℕ) → Fits r → k < length (frame r) → IsTorn (take k (frame r))
  unfolding frame pack_len unpack_len
  take-IsTorn r zero h f = tt
  take-IsTorn r (suc zero) h f = tt
  take-IsTorn r (suc (suc zero)) h f = tt
  take-IsTorn r (suc (suc (suc zero))) h f = tt
  take-IsTorn r (suc (suc (suc (suc k)))) h f =
      omega (arith, length-frame r, length-take-le k (cbor.dumps r))

  -- A file of whole records followed by any strict prefix of one more is read back as the whole
  -- records, in order.
  pub read_records_crash :
      (rs : List R) (r : R) (k : ℕ)
      → All IsWhole rs
      → Fits r
      → k < length (frame r)
      → read_records (frames rs ++ take k (frame r)) ≡ some rs
  read_records_crash rs r k fit h f =
      read_records-frames rs (take k (frame r)) fit (take-IsTorn r k h f)

  -- `pack` fails only where the length does not fit in four bytes.
  pub pack-eq-frame : (r : R) → Fits r → pack r ≡ some (frame r)
  unfolding pack frame
  pack-eq-frame r h = ground arith
