-- ===== src/Codecs/Examples.antt =====
-- A run of the codecs.
use scv_agent.Base.Int.{pos}
use scv_agent.Codecs.Voxels.{downsample-IsSample, IsSample}
use scv_agent.Codecs.{
  rgb, encoded, plain, conversion, resized, finish, jpeg_encode, Jpeg, first_points, Index,
  downsample,
}
use scv_agent.Base.{true, ◌*◌, refl, ◌≡◌, ◌/◌, [], ◌∷◌, ℕ}

-- Points on a line, in voxels of ten units.
abbrev tens : ℕ → Index
tens n = (pos (n / 10), pos 0, pos 0)

one_point_each : downsample tens (3 ∷ 12 ∷ 7 ∷ 25 ∷ 19 ∷ []) ≡ 3 ∷ 12 ∷ 25 ∷ []
unfolding downsample first_points
one_point_each = refl

downsample-IsSample_example :
    IsSample tens (downsample tens (3 ∷ 12 ∷ 7 ∷ 25 ∷ 19 ∷ [])) (3 ∷ 12 ∷ 7 ∷ 25 ∷ 19 ∷ [])
downsample-IsSample_example = downsample-IsSample tens (3 ∷ 12 ∷ 7 ∷ 25 ∷ 19 ∷ [])

abbrev small : Jpeg
small = record { quality = 60; max_width = 640 }

abbrev half_size : ℕ × ℕ
half_size = (640, 360)

-- Of a picture twice as wide as the limit, the height is halved.
wide_picture :
    jpeg_encode
      (λ limit width height. height * limit / width)
      (λ s. true)
      small
      (plain "rgb8" (1280, 720) true)
    ≡ encoded (rgb, half_size)
unfolding jpeg_encode finish resized conversion
wide_picture = refl
