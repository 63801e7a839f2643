-- ===== src/Server/Commands/Geospatial.antt =====
-- server/commad_handlers.go: GEOADD, GEOPOS, GEODIST and GEOSEARCH.
use tiny_red.Base.{
  ℕ, none, some, List, [], ◌∷◌, ◌++◌, map, Bytes, codes, bytes_eq, to_lower, drop, pos,
  if◌then◌else◌,
}
use tiny_red.Base.Map
use tiny_red.Base.Map.{Map}
use tiny_red.Resp.Types.{err_type}
use tiny_red.Resp.Marshal.{
  marshal_bulk_string, marshal_null_bulk_string, marshal_null_array, marshal_array,
}
use tiny_red.Store.Types.{Store}
use tiny_red.Store.SortedSets.{ZSet, ZSetEntry, z_add}
use tiny_red.Morton.Coordinates.{
  Floats, Coordinates, validate_coordinates, encode, decode, get_distance,
}
use tiny_red.Server.Types.{Request, Reply, replied, Handler}
use tiny_red.Server.Commands.Arguments.{
  with_argument, client_err, not_integer_err, bulk_array, with_store,
}
use tiny_red.Server.Commands.SortedSets.{
  ScoreTexts, added_reply, read_zset, not_float_err, wrong_kind_err, wrong_kind_code_err,
}

-- `format_fixed` is `%f` of fmt.
module _ {F : Type 0} (texts : ScoreTexts F) (floats : Floats F) (format_fixed : F → Bytes) where
  -- A score that an argument spells; without one the reply is the error.
  with_float : {S : Type 0} → ℕ → Request → Reply → (F → Reply × S) → S → Reply × S
  unfolding with_argument
  with_float i req refusal f s =
      with_argument i req
        (λ text. elim (texts.parse_float text) [ none ↦ (refusal, s) | some x ↦ f x ]) s

  invalid_pair : F → F → Reply
  invalid_pair longitude latitude = client_err err_type (
      codes "invalid longitude,latitude pair "
      ++ (format_fixed longitude ++ (codes " " ++ format_fixed latitude)))

  geo_add : (ℕ → ℕ) → Bytes → F → F → Bytes → Store (ZSet F) → Reply × Store (ZSet F)
  unfolding invalid_pair
  geo_add random key longitude latitude member st =
      let coordinates : Coordinates F = record { latitude = latitude; longitude = longitude } in
      let morton_code = encode floats coordinates in
      let pair : ZSetEntry F = record { member = member; score = floats.of_uint morton_code } in
      let (r, st') = z_add texts.scores random key (pair ∷ []) st in
      if validate_coordinates floats longitude latitude
      then (added_reply r, st')
      else (invalid_pair longitude latitude, st)

  unfoldable pub handle_geo_add : (ℕ → ℕ) → Handler (ZSet F)
  unfolding with_float geo_add with_argument with_store
  handle_geo_add random req c s =
      with_store
        (with_argument 0 req
          (λ key.
            with_float 1 req not_float_err
              (λ longitude.
                with_float 2 req not_float_err
                  (λ latitude.
                    with_argument 3 req
                      (λ member. geo_add random key longitude latitude member s.store) s.store)
                  s.store)
              s.store)
          s.store)
        s

  coordinates_of : F → Coordinates F
  coordinates_of score = decode floats (floats.to_uint64 score)

  -- What GEOPOS has for one place.
  position : Map F → Bytes → Bytes
  unfolding coordinates_of
  position scores member = elim (Map.lookup member scores) [
    | none ↦ marshal_null_array
    | some score ↦
        let coordinates = coordinates_of score in
        marshal_array (
          marshal_bulk_string (texts.format_float coordinates.longitude)
          ∷ marshal_bulk_string (texts.format_float coordinates.latitude)
          ∷ [])
  ]

  unfoldable pub handle_geo_pos : Handler (ZSet F)
  unfolding position with_argument with_store read_zset
  handle_geo_pos req c s =
      with_store
        (with_argument 0 req
          (λ key.
            let places = drop 1 req.arguments in
            read_zset texts key
              (replied (marshal_array (map (λ member. marshal_null_array) places))) wrong_kind_err
              (λ z. replied (marshal_array (map (position z.hash_map) places))) s.store)
          s.store)
        s

  geo_dist : Bytes → Bytes → ZSet F → Reply
  unfolding coordinates_of
  geo_dist p1 p2 z = elim (Map.lookup p1 z.hash_map) [
    | none ↦ replied marshal_null_bulk_string
    | some score1 ↦ elim (Map.lookup p2 z.hash_map) [
      | none ↦ replied marshal_null_bulk_string
      | some score2 ↦ replied (
          marshal_bulk_string (
            texts.format_float
              (get_distance floats (coordinates_of score1) (coordinates_of score2))))
    ]
  ]

  unfoldable pub handle_geo_dist : Handler (ZSet F)
  unfolding geo_dist with_argument with_store read_zset
  handle_geo_dist req c s =
      with_store
        (with_argument 0 req
          (λ key.
            with_argument 1 req
              (λ p1.
                with_argument 2 req
                  (λ p2.
                    read_zset texts key (replied marshal_null_bulk_string) wrong_kind_err
                      (geo_dist p1 p2) s.store)
                  s.store)
              s.store)
          s.store)
        s

  get_search_range_in_meter : F → Bytes → F
  get_search_range_in_meter search_range unit =
      if bytes_eq unit (codes "m")
      then search_range
      else if bytes_eq unit (codes "km")
      then floats.times search_range (floats.literal (pos 1000) 0)
      else if bytes_eq unit (codes "mi")
      then floats.times search_range (floats.literal (pos 1609344) 3)
      else if bytes_eq unit (codes "ft")
      then floats.times search_range (floats.literal (pos 3048) 4)
      else search_range

  -- The members within the radius, in the order in which the map is run through.
  within : Coordinates F → F → Map F → List Bytes
  unfolding coordinates_of
  within center radius [] = []
  within center radius ((member, score) ∷ rest) =
      let others = within center radius rest in
      if floats.at_most (get_distance floats (coordinates_of score) center) radius
      then member ∷ others
      else others

  no_source : Reply
  no_source = client_err err_type (codes "we only support fromlonlat sourceType iin search queries")

  no_search : Reply
  no_search = client_err err_type (codes "we only support byradius search type in search queries")

  geo_search : Bytes → Bytes → F → F → Bytes → F → Bytes → Store (ZSet F) → Reply × Store (ZSet F)
  unfolding within get_search_range_in_meter no_source no_search read_zset
  geo_search key source longitude latitude search search_range unit st =
      let center : Coordinates F = record { latitude = latitude; longitude = longitude } in
      if bytes_eq source (codes "fromlonlat")
      then (if bytes_eq search (codes "byradius")
          then read_zset texts key (replied (marshal_array [])) wrong_kind_code_err
              (λ z. replied (
                bulk_array
                  (within center (get_search_range_in_meter search_range unit) z.hash_map)))
              st
          else (no_search, st))
      else (no_source, st)

  unfoldable pub handle_geo_search : Handler (ZSet F)
  unfolding geo_search with_float with_argument with_store
  handle_geo_search req c s =
      with_store
        (with_argument 0 req
          (λ key.
            with_argument 1 req
              (λ source.
                with_float 2 req not_float_err
                  (λ longitude.
                    with_float 3 req not_float_err
                      (λ latitude.
                        with_argument 4 req
                          (λ search.
                            with_float 5 req not_integer_err
                              (λ search_range.
                                with_argument 6 req
                                  (λ unit.
                                    geo_search key (to_lower source) longitude latitude
                                      (to_lower search) search_range (to_lower unit) s.store)
                                  s.store)
                              s.store)
                          s.store)
                      s.store)
                  s.store)
              s.store)
          s.store)
        s
