-- ===== src/Codecs/Pictures.antt =====
-- The pictures of the jpeg codec.
use scv_agent.Codecs.{conversion, encoded, plain, Conversion, jpeg_encode, resized, finish, Jpeg}
use scv_agent.Base.{subst, inr, inl, Option-cases, true, arith, ◌≤◌, ◌≡◌, String, ◌<◌, Bool, ℕ}

module _ (scaled : ℕ → ℕ → ℕ → ℕ) (imencode : ℕ × ℕ → Bool) (j : Jpeg) where
  finish-resized :
      (k : Conversion) (s : ℕ × ℕ) {c : Conversion} {size : ℕ × ℕ}
      → finish scaled imencode j k s ≡ encoded (c, size)
      → resized scaled j s ≡ size
  unfolding finish
  finish-resized k s h = ground (arith, h)

  resized-fits :
      (width height : ℕ)
      → 0 < j.max_width
      → ((resized scaled j (width, height)).0 ≤ j.max_width)
        × (width ≤ j.max_width → resized scaled j (width, height) ≡ (width, height))
  unfolding resized
  resized-fits width height h = (ground (arith, h), λ f. ground (arith, f))

  -- A picture that the jpeg codec encodes with a limit of the width is never wider than the limit,
  -- and it is of its own size where it was not wider.
  pub jpeg_encode-fits :
      (e : String) (width height : ℕ) {c : Conversion} {size : ℕ × ℕ}
      → 0 < j.max_width
      → jpeg_encode scaled imencode j (plain e (width, height) true) ≡ encoded (c, size)
      → (size.0 ≤ j.max_width) × (width ≤ j.max_width → size ≡ (width, height))
  unfolding jpeg_encode
  jpeg_encode-fits e width height {c} {size} h f = elim (Option-cases (conversion e)) [
    | inl n ↦ absurd (ground (arith, f, n))
    | inr (k, n) ↦
        let same : resized scaled j (width, height) ≡ size =
          finish-resized k (width, height) {c = c} (ground (arith, f, n)) in
        subst (λ x. (x.0 ≤ j.max_width) × (width ≤ j.max_width → x ≡ (width, height))) same
          (resized-fits width height h)
  ]
