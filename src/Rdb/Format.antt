-- ===== src/Rdb/Format.antt =====
-- The format that rdb/rdb.go reads: records, how they are written, and what they mean for the store.
use tiny_red.Base.{
  ℕ, ◌*◌, ◌^◌, ◌<◌, Option, none, some, List, [], ◌∷◌, ◌++◌, Bytes, ℤ, pos, Fits, scale, unsigned,
  floor_quotient, leb_ℤ, if◌then◌else◌,
}
use tiny_red.Store.Types.{Entry, string_entry, text, Store}
use tiny_red.Store.Entries.{set}
use tiny_red.Rdb.Words.{le_bytes}
use tiny_red.Rdb.Strings.{
  LengthFormat, write_length, length_bound, StringForm, write_string, form_text, FormFits,
}
use tiny_red.Rdb.Loader.{
  magic_string, op_aux, op_select_db, op_resize_db, op_expiry_sec, op_expiry_ms,
}

-- The kinds of record: metadata, the number of a database, the sizes of its tables, and a string key
-- with an expiry in seconds or in milliseconds, or with none.
pub data RdbRecord : Type 0 where
  aux : StringForm → StringForm → RdbRecord
  select_db : LengthFormat → ℕ → RdbRecord
  resize_db : LengthFormat → ℕ → LengthFormat → ℕ → RdbRecord
  expires_in_seconds : ℕ → StringForm → StringForm → RdbRecord
  expires_in_milliseconds : ℤ → StringForm → StringForm → RdbRecord
  persistent : StringForm → StringForm → RdbRecord

unfoldable pub write_key : StringForm → StringForm → Bytes
write_key key value = write_string key ++ write_string value

unfoldable pub write_record : RdbRecord → Bytes
unfolding write_key
write_record (aux key value) = op_aux ∷ write_key key value
write_record (select_db format n) = op_select_db ∷ write_length format n
write_record (resize_db f n g m) = op_resize_db ∷ write_length f n ++ write_length g m
write_record (expires_in_seconds t key value) =
    op_expiry_sec ∷ le_bytes 4 t ++ 0 ∷ write_key key value
write_record (expires_in_milliseconds t key value) =
    op_expiry_ms ∷ le_bytes 8 (unsigned (2 ^ 63) t) ++ 0 ∷ write_key key value
write_record (persistent key value) = 0 ∷ write_key key value

unfoldable pub RecordFits : RdbRecord → Type 0
RecordFits (aux key value) = FormFits key × FormFits value
RecordFits (select_db format n) = n < length_bound format
RecordFits (resize_db f n g m) = (n < length_bound f) × (m < length_bound g)
RecordFits (expires_in_seconds t key value) = (t < 2 ^ 32) × FormFits key × FormFits value
RecordFits (expires_in_milliseconds t key value) = Fits (2 ^ 63) t × FormFits key × FormFits value
RecordFits (persistent key value) = FormFits key × FormFits value

module _ {Z : Type 0} where
  unfoldable pub string_at : StringForm → Option ℤ → Entry Z
  string_at value t = record {
    entry_type = string_entry;
    value = text (form_text value);
    expire_at = t;
  }

  -- What a record means for the store: a key whose second of expiry is past, or is now, is left out.
  unfoldable pub apply_record : ℤ → RdbRecord → Store Z → Store Z
  unfolding string_at
  apply_record now (aux key value) s = s
  apply_record now (select_db format n) s = s
  apply_record now (resize_db f n g m) s = s
  apply_record now (expires_in_seconds t key value) s =
      if leb_ℤ (pos t) (floor_quotient now (10 ^ 9))
      then s
      else set (form_text key) (string_at value (some (pos (10 ^ 9 * t)))) s
  apply_record now (expires_in_milliseconds t key value) s =
      if leb_ℤ (floor_quotient t 1000) (floor_quotient now (10 ^ 9))
      then s
      else set (form_text key) (string_at value (some (scale (10 ^ 6) t))) s
  apply_record now (persistent key value) s = set (form_text key) (string_at value none) s

  -- What a list of records means for the store, from the first to the last.
  unfoldable pub apply_records : ℤ → List RdbRecord → Store Z → Store Z
  apply_records now [] s = s
  apply_records now (rec ∷ recs) s = apply_records now recs (apply_record now rec s)

unfoldable pub write_records : List RdbRecord → Bytes
write_records [] = []
write_records (rec ∷ recs) = write_record rec ++ write_records recs

-- The magic string, a version of four bytes, and the records.
unfoldable pub write_file : Bytes → List RdbRecord → Bytes
write_file version recs = magic_string ++ version ++ write_records recs
