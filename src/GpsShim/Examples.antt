-- ===== src/GpsShim/Examples.antt =====
-- A run of the shim, on a plane.
use scv_agent.Base.{refl, [], ◌≡◌, ◌∷◌, ◌==◌, ◌+◌, List, ℕ}
use scv_agent.GpsShim.{too_soon, on_odom, run, Odometry, Shim, Projection}

abbrev plane : Projection ℕ
plane = record {
  plus = λ a b. a + b;
  rotate = λ h p. p;
  is_zero = λ h. h == 0;
  lat_of = λ n. n;
  lon_of = λ o e. e;
}

-- Five positions a second.
abbrev five_hz : Shim ℕ
five_hz = record {
  place = record { origin = (10, 20); offset = (0, 0); heading = 0 };
  min_interval = 200000000;
  last = 1000000000;
  count = 1;
}

abbrev at_x : ℕ → Odometry ℕ
at_x x = record { stamp = 0; x = x; y = 0; z = 0 }

abbrev three_messages : List (ℕ × Odometry ℕ)
three_messages = (1100000000, at_x 1) ∷ (1200000000, at_x 2) ∷ (1300000000, at_x 3) ∷ []

one_of_three : (run plane three_messages five_hz).count ≡ 2
unfolding run on_odom too_soon
one_of_three = refl
