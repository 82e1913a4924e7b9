-- ===== src/AscDesc/Points.antt =====
-- The bounds of latitudes and longitudes (milli/src/asc_desc.rs and milli/src/search/facet/filter.rs)
-- as the 64 bits of a globally ordered f64: -90.0, 90.0, -180.0 and 180.0. A NaN lies outside of them.
use milli.Base.{ℕ, ◌+◌, ◌-◌, ◌^◌}

abbrev pub lat_min : ℕ
lat_min = 2 ^ 64 - 1 - (2 ^ 63 + 0x4056800000000000)

abbrev pub lat_max : ℕ
lat_max = 2 ^ 63 + 0x4056800000000000

abbrev pub lng_min : ℕ
lng_min = 2 ^ 64 - 1 - (2 ^ 63 + 0x4066800000000000)

abbrev pub lng_max : ℕ
lng_max = 2 ^ 63 + 0x4066800000000000
