-- ===== src/Codecs.antt =====
-- fta_agent/fta_agent/codecs: what the codecs compute themselves.
-- zstandard, cbor2, numpy's rounding, the floats of a scale and OpenCV are parameters; the pixels of
-- a picture are left out.
use scv_agent.Base.Int.{pos, negsuc}
use scv_agent.Base.Int.{eqb_ℤ, ℤ}
use scv_agent.Base.{
  ◌/◌, ◌*◌, ◌-◌, none, str_eq, ltb, ◌||◌, ◌&&◌, leb, some, length, [], ◌∷◌, false, if◌then◌else◌,
  String, Option, Bool, ℕ, List,
}
pub mod Voxels
pub mod Pictures
mod Examples

-- codecs/base.py
pub record EncodedPayload : Type 0 where
  pub body : List ℕ
  pub encoding : String

-- What leaves a codec: bytes, or ValueError.
pub data Encoded {ℓ} (A : Type ℓ) : Type ℓ where
  encoded : A → Encoded A
  value_error : Encoded A

-- cdr_zstd.py: the level of `__init__`, and `encode`.
unfoldable pub cdr_level : ℕ → Encoded ℕ
cdr_level level = if leb 1 level && leb level 22 then encoded level else value_error

unfoldable pub cdr_encode : (List ℕ → List ℕ) → List ℕ → EncodedPayload
cdr_encode compress raw = record { body = compress raw; encoding = "cdr_zstd" }

-- A point, and the index of its voxel: `np.floor(pts / self._voxel)` is a parameter.
abbrev pub Index : Type 0
Index = ℤ × ℤ × ℤ

abbrev pub same_index : Index → Index → Bool
same_index (a, b, c) (d, e, f) = eqb_ℤ a d && eqb_ℤ b e && eqb_ℤ c f

abbrev pub seen : Index → List Index → Bool
seen i [] = false
seen i (j ∷ js) = same_index j i || seen i js

module _ {ℓ} {P : Type ℓ} (index_of : P → Index) where
  -- The first point of each voxel, in the order in which the points came: `np.unique` gives the
  -- first row of each index, and the rows are sorted.
  unfoldable pub first_points : List Index → List P → List P
  first_points before [] = []
  first_points before (p ∷ ps) =
      let rest = first_points (index_of p ∷ before) ps in
      if seen (index_of p) before then rest else p ∷ rest

  unfoldable pub downsample : List P → List P
  downsample ps = first_points [] ps

-- The document of the voxel codec.
pub record Cloud {ℓ} (P : Type ℓ) : Type ℓ where
  pub voxel_size : ℕ
  pub count : ℕ
  pub format : String
  pub points : List P

unfoldable pub voxel_cloud {ℓ} : {P : Type ℓ} → (P → Index) → ℕ → List P → Cloud P
voxel_cloud index_of voxel points =
    let kept = downsample index_of points in
    record { voxel_size = voxel; count = length kept; format = "xyz_f32"; points = kept }

unfoldable pub voxel_encode {ℓ} :
    {P : Type ℓ}
    → (P → Index)
    → (Cloud P → List ℕ)
    → (List ℕ → List ℕ)
    → ℕ
    → List P
    → EncodedPayload
voxel_encode index_of dumps compress voxel points = record {
  body = compress (dumps (voxel_cloud index_of voxel points));
  encoding = "voxel_zstd";
}

-- jpeg.py: `__init__`.
pub record Jpeg : Type 0 where
  pub quality : ℕ
  pub max_width : ℕ

unfoldable pub init_jpeg : ℤ → ℤ → Encoded Jpeg
init_jpeg (pos quality) (pos max_width) =
    if leb 1 quality && leb quality 100
    then encoded (record { quality = quality; max_width = max_width })
    else value_error
init_jpeg (negsuc n) max_width = value_error
init_jpeg (pos quality) (negsuc n) = value_error

-- The size to which `_finish` brings an image, width first. The new height is a parameter:
-- int(height * (limit / width)), of Python's floats.
unfoldable pub resized : (ℕ → ℕ → ℕ → ℕ) → Jpeg → ℕ × ℕ → ℕ × ℕ
resized scaled j (width, height) =
    if ltb 0 j.max_width && ltb j.max_width width
    then (j.max_width, scaled j.max_width width height)
    else (width, height)

-- The image messages that `encode` tells apart.
pub data Image : Type 0 where
  -- CompressedImage; `none` is an image that cannot be read.
  compressed : Option (ℕ × ℕ) → Image
  -- Image: its encoding, its width and height, and whether its data is of that size.
  plain : String → ℕ × ℕ → Bool → Image

-- How the pixels are brought to the encoder: `keep`, one channel of them, or converted.
pub data Conversion : Type 0 where
  keep one_channel depth rgb rgba bgra : Conversion

-- `_CONVERSIONS`, and the two encodings of depths.
unfoldable pub conversion : String → Option Conversion
conversion e =
    if str_eq e "16UC1" || str_eq e "32FC1"
    then some depth
    else if str_eq e "rgb8"
    then some rgb
    else if str_eq e "bgr8"
    then some keep
    else if str_eq e "rgba8"
    then some rgba
    else if str_eq e "bgra8"
    then some bgra
    else if str_eq e "mono8"
    then some one_channel
    else none

module _ (scaled : ℕ → ℕ → ℕ → ℕ) (imencode : ℕ × ℕ → Bool) where
  -- `_finish`; whether OpenCV encodes a picture of a size is a parameter.
  unfoldable pub finish : Jpeg → Conversion → ℕ × ℕ → Encoded (Conversion × (ℕ × ℕ))
  finish j c size =
      let new_size = resized scaled j size in
      if imencode new_size then encoded (c, new_size) else value_error

  -- `encode`: the conversion and the size of the picture that is encoded, or ValueError.
  unfoldable pub jpeg_encode : Jpeg → Image → Encoded (Conversion × (ℕ × ℕ))
  jpeg_encode j (compressed none) = value_error
  jpeg_encode j (compressed (some size)) = finish j keep size
  jpeg_encode j (plain e size fits) = elim (conversion e) [
    | none ↦ value_error
    | some c ↦ if fits then finish j c size else value_error
  ]
