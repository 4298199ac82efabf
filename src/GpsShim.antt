-- ===== src/GpsShim.antt =====
-- fta_tools/fta_tools/gps_shim.py, class GpsShim: a position for each odometry message, thinned out.
-- The projection's trigonometry is a parameter; times are in nanoseconds.
use mathlib.Core.List.{[], ◌∷◌}
use scv_agent.Base.{suc, some, ◌-◌, ◌/◌, none, ◌&&◌, Option, ltb, if◌then◌else◌, List, ℕ, Bool}
pub mod Thinning
mod Examples

-- The numbers of the shim's parameters and messages.
pub record Projection {ℓ} (R : Type ℓ) : Type ℓ where
  pub plus : R → R → R
  -- (x * cos + y * sin, y * cos - x * sin), of the heading in degrees
  pub rotate : R → R × R → R × R
  pub is_zero : R → Bool
  -- math.degrees(north / _EARTH_R)
  pub lat_of : R → R
  -- math.degrees(east / (_EARTH_R * math.cos(math.radians(origin_lat))))
  pub lon_of : R → R → R

pub record Place {ℓ} (R : Type ℓ) : Type ℓ where
  pub origin : R × R
  -- East and north.
  pub offset : R × R
  pub heading : R

pub record Shim {ℓ} (R : Type ℓ) : Type ℓ where
  pub place : Place R
  -- `_min_interval_ns`; 0 is no limit.
  pub min_interval : ℕ
  pub last : ℕ
  pub count : ℕ

-- The published message: the time of the odometry message, latitude, longitude and altitude.
pub record Fix {ℓ} (R : Type ℓ) : Type ℓ where
  pub stamp : ℕ
  pub latitude : R
  pub longitude : R
  pub altitude : R

pub record Odometry {ℓ} (R : Type ℓ) : Type ℓ where
  pub stamp : ℕ
  pub x : R
  pub y : R
  pub z : R

-- A message that comes within the interval is dropped.
unfoldable pub too_soon {ℓ} : {R : Type ℓ} → ℕ → Shim R → Bool
too_soon now s = ltb 0 s.min_interval && ltb (now - s.last) s.min_interval

module _ {ℓ} {R : Type ℓ} (m : Projection R) where
  -- `project`
  unfoldable pub project : Place R → R × R → R × R
  project p at =
      let (x, y) = if m.is_zero p.heading then at else m.rotate p.heading at in
      let east = m.plus x p.offset.0 in
      let north = m.plus y p.offset.1 in
      (m.plus p.origin.0 (m.lat_of north), m.plus p.origin.1 (m.lon_of p.origin.0 east))

  -- `_on_odom`, at a time of the clock.
  unfoldable pub on_odom : ℕ → Odometry R → Shim R → Option (Fix R) × Shim R
  on_odom now o s =
      if too_soon now s
      then (none, s)
      else (let (lat, lon) = project s.place (o.x, o.y) in
          (
            some (record { stamp = o.stamp; latitude = lat; longitude = lon; altitude = o.z }),
            record s { last = now; count = suc s.count },
          ))

  -- The messages that come, with their times, the oldest first.
  unfoldable pub run : List (ℕ × Odometry R) → Shim R → Shim R
  run [] s = s
  run ((now, o) ∷ os) s = run os (on_odom now o s).1

-- `__init__`: the interval is 10 ** 9 / hz, without its fraction, for a rate in millionths.
unfoldable pub init {ℓ} : {R : Type ℓ} → Place R → ℕ → Shim R
init place hz = record {
  place = place;
  min_interval = if ltb 0 hz then 1000000000000000 / hz else 0;
  last = 0;
  count = 0;
}
