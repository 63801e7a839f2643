-- ===== src/Morton/Coordinates.antt =====
-- server/zorder_Morton_code.go: coordinates, their codes and their distance.
use tiny_red.Base.{ℕ, ◌+◌, ◌%◌, ◌^◌, Bool, ◌&&◌, ℤ, pos, negsuc}
use tiny_red.Morton.{interleave, grid_latitude_number, grid_longitude_number}

-- What the code uses of float64 and of the package math; `literal m d` is m / 10^d.
pub record Floats (F : Type 0) : Type 0 where
  pub literal : ℤ → ℕ → F
  pub pi : F
  pub plus : F → F → F
  pub minus : F → F → F
  pub times : F → F → F
  pub over : F → F → F
  pub at_most : F → F → Bool
  pub pow : F → F → F
  pub cos : F → F
  pub asin : F → F
  pub sqrt : F → F
  -- float64(n) of an unsigned integer, uint32(x) and uint64(x).
  pub of_uint : ℕ → F
  pub to_uint32 : F → ℕ
  pub to_uint64 : F → ℕ

pub record Coordinates (F : Type 0) : Type 0 where
  pub latitude : F
  pub longitude : F

pub record CoordinatedInRadian (F : Type 0) : Type 0 where
  pub phi : F
  pub lambda : F

module _ {F : Type 0} (floats : Floats F) where
  min_latitude : F
  min_latitude = floats.literal (negsuc 8505112877) 8

  max_latitude : F
  max_latitude = floats.literal (pos 8505112878) 8

  min_longitude : F
  min_longitude = floats.literal (negsuc 179) 0

  max_longitude : F
  max_longitude = floats.literal (pos 180) 0

  -- The constants are exact: 85.05112878 + 85.05112878 and 180 + 180.
  latitude_range : F
  latitude_range = floats.literal (pos 17010225756) 8

  longitude_range : F
  longitude_range = floats.literal (pos 360) 0

  earth_radius : F
  earth_radius = floats.literal (pos 6372797560856) 6

  two : F
  two = floats.literal (pos 2) 0

  grid_size : F
  unfolding two
  grid_size = floats.pow two (floats.literal (pos 26) 0)

  unfoldable pub validate_coordinates : F → F → Bool
  unfolding min_latitude max_latitude min_longitude max_longitude
  validate_coordinates longitude latitude =
      floats.at_most longitude max_longitude
      && floats.at_most min_longitude longitude
      && floats.at_most latitude max_latitude
      && floats.at_most min_latitude latitude

  -- The place of a coordinate on the grid, before it is truncated.
  normalized : F → F → F → F
  unfolding grid_size
  normalized low range x = floats.over (floats.times grid_size (floats.minus x low)) range

  unfoldable pub encode : Coordinates F → ℕ
  unfolding normalized min_latitude latitude_range min_longitude longitude_range
  encode coordinates =
      let lat_int =
        floats.to_uint32 (normalized min_latitude latitude_range coordinates.latitude) in
      let lon_int =
        floats.to_uint32 (normalized min_longitude longitude_range coordinates.longitude) in
      interleave lat_int lon_int

  -- The coordinate at which a cell of the grid begins.
  grid_line : F → F → ℕ → F
  unfolding grid_size
  grid_line low range n =
      floats.plus low (floats.times range (floats.over (floats.of_uint n) grid_size))

  -- The middle between a cell's line and the next; the sum of uint32 wraps around.
  cell_center : F → F → ℕ → F
  unfolding grid_line two
  cell_center low range n =
      floats.over (floats.plus (grid_line low range n) (grid_line low range ((n + 1) % 2 ^ 32))) two

  unfoldable pub convert_grid_numbers_to_coordinates : ℕ → ℕ → Coordinates F
  unfolding cell_center min_latitude latitude_range min_longitude longitude_range
  convert_grid_numbers_to_coordinates grid_latitude grid_longitude = record {
    latitude = cell_center min_latitude latitude_range grid_latitude;
    longitude = cell_center min_longitude longitude_range grid_longitude;
  }

  unfoldable pub decode : ℕ → Coordinates F
  unfolding convert_grid_numbers_to_coordinates
  decode geo_code =
      convert_grid_numbers_to_coordinates (grid_latitude_number geo_code)
        (grid_longitude_number geo_code)

  radians : F → F
  radians x = floats.over (floats.times x floats.pi) (floats.literal (pos 180) 0)

  get_radian : Coordinates F → CoordinatedInRadian F
  unfolding radians
  get_radian p = record { phi = radians p.latitude; lambda = radians p.longitude }

  haversine : F → F
  haversine theta =
      floats.times (floats.literal (pos 5) 1)
        (floats.minus (floats.literal (pos 1) 0) (floats.cos theta))

  distance : CoordinatedInRadian F → CoordinatedInRadian F → F
  unfolding haversine two earth_radius
  distance p1 p2 =
      let haversine_theta = floats.plus (haversine (floats.minus p2.phi p1.phi)) (
        floats.times (floats.times (floats.cos p1.phi) (floats.cos p2.phi))
          (haversine (floats.minus p2.lambda p1.lambda))) in
      floats.times (floats.times two earth_radius) (floats.asin (floats.sqrt haversine_theta))

  unfoldable pub get_distance : Coordinates F → Coordinates F → F
  unfolding get_radian distance
  get_distance p1 p2 = distance (get_radian p1) (get_radian p2)
