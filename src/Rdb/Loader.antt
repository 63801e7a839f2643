-- ===== src/Rdb/Loader.antt =====
-- rdb/rdb.go: the key records, and the loop of `Load`.
use tiny_red.Base.{
  ℕ, zero, suc, ◌^◌, Bool, true, false, ◌||◌, Option, none, some, List, [], ◌∷◌, Bytes, codes, ℤ,
  pos, ◌+ℤ◌, scale, signed_64, quotient, remainder, floor_quotient, leb_ℤ, bytes_eq, ◌==◌,
  if◌then◌else◌,
}
use tiny_red.Resp.Reader.{Reader}
use tiny_red.Store.Types.{Entry, string_entry, text, Store}
use tiny_red.Store.Entries.{set}
use tiny_red.Rdb.{
  RdbError, invalid_magic, unknown_expire_unit, unsupported_value_type, unknown_value_type, Parsed,
  parsed, failed, ◌>>=◌, read_byte, fill, little_endian, parse_string, handle_aux,
  parse_db_meta_data, parse_resize_metadata,
}

abbrev pub magic_string : Bytes
magic_string = codes "REDIS"

abbrev pub op_aux : ℕ
op_aux = 0xfa

abbrev pub op_select_db : ℕ
op_select_db = 0xfe

abbrev pub op_resize_db : ℕ
op_resize_db = 0xfb

abbrev pub op_expiry_sec : ℕ
op_expiry_sec = 0xfd

abbrev pub op_expiry_ms : ℕ
op_expiry_ms = 0xfc

abbrev pub op_eof : ℕ
op_eof = 0xff

abbrev pub expire_time_sec : ℕ
expire_time_sec = 1

abbrev pub expire_time_milli_sec : ℕ
expire_time_milli_sec = 2

abbrev pub val_type_string : ℕ
val_type_string = 0

-- The value types of the format that are not read: list, set, sorted set, hash, zipmap, ziplist,
-- intset, sorted set ziplist, hash ziplist and list quicklist.
abbrev pub unsupported_types : List ℕ
unsupported_types = 1 ∷ 2 ∷ 3 ∷ 4 ∷ 9 ∷ 10 ∷ 11 ∷ 12 ∷ 13 ∷ 14 ∷ []

unfoldable pub one_of : ℕ → List ℕ → Bool
one_of n [] = false
one_of n (m ∷ ms) = n == m || one_of n ms

-- `none` is the zero time.
pub record ParsedKeyPair : Type 0 where
  pub expire_type : ℕ
  pub value_type : ℕ
  pub key : Bytes
  pub value : Bytes
  pub expire_at : Option ℤ

unfoldable pub parse_key_with_type : ℕ → Reader → Parsed (ParsedKeyPair × Reader)
unfolding one_of
parse_key_with_type value_type r = do
  (key, r) ← parse_string r
  if value_type == val_type_string
      then (do
        (value, r) ← parse_string r
        let pair : ParsedKeyPair = record {
          expire_type = 0;
          value_type = value_type;
          key = key;
          value = value;
          expire_at = none;
        } in
            parsed (pair, r))
      else if one_of value_type unsupported_types
      then failed unsupported_value_type
      else failed unknown_value_type

unfoldable pub parse_key : Reader → Parsed (ParsedKeyPair × Reader)
parse_key r = do (value_type, r) ← read_byte r; parse_key_with_type value_type r

-- time.Unix(sec, nsec)
unfoldable pub unix_time : ℤ → ℤ → ℤ
unix_time sec nsec = scale (10 ^ 9) sec +ℤ nsec

-- t.Unix()
unfoldable pub unix_seconds : ℤ → ℤ
unix_seconds t = floor_quotient t (10 ^ 9)

unfoldable pub parse_expire_time : ℕ → Reader → Parsed (ℤ × Reader)
unfolding unix_time
parse_expire_time expire_unit r =
    if expire_unit == expire_time_sec
    then (do (buffer, r) ← fill 4 r; parsed (unix_time (pos (little_endian buffer)) (pos 0), r))
    else if expire_unit == expire_time_milli_sec
    then (do
      (buffer, r) ← fill 8 r
      let ms = signed_64 (little_endian buffer) in
          parsed (unix_time (quotient ms 1000) (scale (10 ^ 6) (remainder ms 1000)), r))
    else failed unknown_expire_unit

unfoldable pub parse_expire_key : ℕ → Reader → Parsed (ParsedKeyPair × Reader)
parse_expire_key expire_unit r = do
  (expire_at, r) ← parse_expire_time expire_unit r
  (pair, r) ← parse_key r
  parsed (record pair { expire_at = some expire_at }, r)

-- parsedData.ExpireAt.Unix() <= time.Now().Unix(); the zero time, which `ParseExpireKey` does not
-- return, is long past.
unfoldable pub is_past : ℤ → Option ℤ → Bool
unfolding unix_seconds
is_past now none = true
is_past now (some t) = leb_ℤ (unix_seconds t) (unix_seconds now)

-- The magic string and the version, which is not used.
unfoldable pub load_header : Reader → Parsed Reader
load_header r = do
  (magic, r) ← fill 5 r
  if bytes_eq magic magic_string
      then (do (version, r) ← fill 4 r; parsed r)
      else failed invalid_magic

-- What `Load` comes to: its error, if any, and the store, in which the keys read before an error
-- stay; `unfinished` is a lack of fuel.
pub data Loading (Z : Type 0) : Type 0 where
  loading_ends : Option RdbError → Store Z → Loading Z
  loading_unfinished : Loading Z

module _ {Z : Type 0} where
  unfoldable pub string_value : ParsedKeyPair → Option ℤ → Entry Z
  string_value pair expire_at = record {
    entry_type = string_entry;
    value = text pair.value;
    expire_at = expire_at;
  }

  unfoldable pub store_unless_past : ℤ → ParsedKeyPair → Store Z → Store Z
  unfolding is_past string_value
  store_unless_past now pair s =
      if is_past now pair.expire_at then s else set pair.key (string_value pair pair.expire_at) s

  -- The switch of the loop of `Load`; `none` is the end of the file's records.
  unfoldable pub load_operation : ℤ → ℕ → Reader → Store Z → Parsed (Option (Reader × Store Z))
  unfolding store_unless_past string_value
  load_operation now op_code r s =
      if op_code == op_aux
      then (do (meta_data, r) ← handle_aux r; parsed (some (r, s)))
      else if op_code == op_select_db
      then (do (db_meta_data, r) ← parse_db_meta_data r; parsed (some (r, s)))
      else if op_code == op_resize_db
      then (do (resize_metadata, r) ← parse_resize_metadata r; parsed (some (r, s)))
      else if op_code == op_expiry_sec
      then (do
        (pair, r) ← parse_expire_key expire_time_sec r
        parsed (some (r, store_unless_past now pair s)))
      else if op_code == op_expiry_ms
      then (do
        (pair, r) ← parse_expire_key expire_time_milli_sec r
        parsed (some (r, store_unless_past now pair s)))
      else if op_code == op_eof
      then parsed none
      else do
        (pair, r) ← parse_key_with_type op_code r
        parsed (some (r, set pair.key (string_value pair none) s))

  unfoldable pub load_round : ℤ → Reader → Store Z → Parsed (Option (Reader × Store Z))
  load_round now r s = do (op_code, r) ← read_byte r; load_operation now op_code r s

  -- Each round takes a byte at least, so that one round more than there are bytes is enough.
  unfoldable pub load_records : ℤ → ℕ → Reader → Store Z → Loading Z
  load_records now zero r s = loading_unfinished
  load_records now (suc fuel) r s = elim (load_round now r s) [
    | failed e ↦ loading_ends (some e) s
    | parsed none ↦ loading_ends none s
    | parsed (some (rest, t)) ↦ load_records now fuel rest t
  ]

  -- `Load`. `none` is a file that can not be opened, and `now` the clock while the file is read.
  unfoldable pub load : ℤ → ℕ → Option Reader → Store Z → Loading Z
  load now fuel none s = loading_ends none s
  load now fuel (some r) s = elim (load_header r) [
    | failed e ↦ loading_ends (some e) s
    | parsed rest ↦ load_records now fuel rest s
  ]
