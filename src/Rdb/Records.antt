-- ===== src/Rdb/Records.antt =====
-- rdb/rdb.go: files of records, as the format has them, are loaded.
use tiny_red.Base.{
  ℕ, zero, suc, ◌+◌, ◌-◌, ◌*◌, ◌^◌, ◌≤◌, ◌<◌, ◌≡◌, refl, ap, none, some, List, [], ◌∷◌, ◌++◌,
  append_assoc, append-nil, arith, Bytes, length, All, ℤ, pos, negsuc, Fits, scale, unsigned,
  quotient, remainder, floor_quotient, leb_ℤ, bytes_eq,
}
use tiny_red.Resp.Types.{eof}
use tiny_red.Resp.Reader.{Reader}
use tiny_red.Store.Types.{Store}
use tiny_red.Rdb.{io, parsed, read_byte, handle_aux, parse_db_meta_data, parse_resize_metadata}
use tiny_red.Rdb.Words.{
  le_bytes, length-le_bytes, little_endian-le_bytes, fill_exact, signed-unsigned, unsigned_below,
}
use tiny_red.Rdb.Strings.{
  write_length, StringForm, write_string, form_text, FormFits, parse_string-write_string,
  parse_length_encoding-write_length,
}
use tiny_red.Rdb.Loader.{
  magic_string, load_header, op_eof, parse_key_with_type, parse_key, unix_time, unix_seconds,
  parse_expire_time, parse_expire_key, expire_time_sec, expire_time_milli_sec, loading_ends,
  is_past, string_value, store_unless_past, load_operation, load_round, load_records, load,
}
use tiny_red.Rdb.Format.{
  RdbRecord, aux, select_db, resize_db, expires_in_seconds, expires_in_milliseconds, persistent,
  write_key, write_record, RecordFits, string_at, apply_record, apply_records, write_records,
  write_file,
}

-- The instants, and their seconds.
seconds_time :
    (t : ℕ)
    → (unix_time (pos t) (pos 0) ≡ pos (10 ^ 9 * t)) × (unix_seconds (pos (10 ^ 9 * t)) ≡ pos t)
unfolding unix_time unix_seconds
seconds_time t = (ground arith, ground arith)

milliseconds_time :
    (t : ℤ)
    → (unix_time (quotient t 1000) (scale (10 ^ 6) (remainder t 1000)) ≡ scale (10 ^ 6) t)
      × (unix_seconds (scale (10 ^ 6) t) ≡ floor_quotient t 1000)
unfolding unix_time unix_seconds
milliseconds_time (pos n) = (ground arith, ground arith)
milliseconds_time (negsuc n) = (ground arith, ground arith)

-- The form of a value type of strings.
write_key_lem :
    (key value : StringForm) (r : Reader)
    → FormFits key
    → FormFits value
    → parse_key_with_type 0 (write_key key value ++ r)
      ≡ parsed (
        record {
          expire_type = 0;
          value_type = 0;
          key = form_text key;
          value = form_text value;
          expire_at = none;
        },
        r,
      )
unfolding parse_key_with_type write_key
write_key_lem key value r hk hv =
    rw
      (
        append_assoc,
        parse_string-write_string key (write_string value ++ r) hk,
        parse_key_with_type,
        parse_string-write_string value r hv,
      )
      refl

expire_seconds_lem :
    (t : ℕ) (key value : StringForm) (r : Reader)
    → t < 2 ^ 32
    → FormFits key
    → FormFits value
    → parse_expire_key expire_time_sec (le_bytes 4 t ++ (0 ∷ (write_key key value ++ r)))
      ≡ parsed (
        record {
          expire_type = 0;
          value_type = 0;
          key = form_text key;
          value = form_text value;
          expire_at = some (pos (10 ^ 9 * t));
        },
        r,
      )
unfolding parse_expire_key parse_expire_time parse_key read_byte
expire_seconds_lem t key value r h hk hv =
    rw
      (
        fill_exact (le_bytes 4 t) (0 ∷ (write_key key value ++ r)) 4 (length-le_bytes 4 t),
        little_endian-le_bytes 4 t h,
        (seconds_time t).0,
      )
      (rw (write_key_lem key value r hk hv, parse_expire_key) refl)

expire_milliseconds_lem :
    (t : ℤ) (key value : StringForm) (r : Reader)
    → Fits (2 ^ 63) t
    → FormFits key
    → FormFits value
    → parse_expire_key expire_time_milli_sec
        (le_bytes 8 (unsigned (2 ^ 63) t) ++ (0 ∷ (write_key key value ++ r)))
      ≡ parsed (
        record {
          expire_type = 0;
          value_type = 0;
          key = form_text key;
          value = form_text value;
          expire_at = some (scale (10 ^ 6) t);
        },
        r,
      )
unfolding parse_expire_key parse_expire_time parse_key read_byte
expire_milliseconds_lem t key value r h hk hv =
    let u = unsigned (2 ^ 63) t in
    rw
      (
        fill_exact (le_bytes 8 u) (0 ∷ (write_key key value ++ r)) 8 (length-le_bytes 8 u),
        little_endian-le_bytes 8 u (omega (arith, unsigned_below (2 ^ 63) t h)),
        signed-unsigned (2 ^ 63) t h,
        (milliseconds_time t).0,
      )
      (rw (write_key_lem key value r hk hv) refl)

handle_aux_lem :
    (key value : StringForm) (r : Reader)
    → FormFits key
    → FormFits value
    → handle_aux (write_key key value ++ r)
      ≡ parsed (record { key = form_text key; value = form_text value }, r)
unfolding handle_aux write_key
handle_aux_lem key value r hk hv =
    rw
      (
        append_assoc,
        parse_string-write_string key (write_string value ++ r) hk,
        handle_aux,
        parse_string-write_string value r hv,
      )
      refl

is_past_lem :
    (now : ℤ)
    → ((t : ℕ)
        → is_past now (some (pos (10 ^ 9 * t))) ≡ leb_ℤ (pos t) (floor_quotient now (10 ^ 9)))
      × ((t : ℤ)
          → is_past now (some (scale (10 ^ 6) t))
            ≡ leb_ℤ (floor_quotient t 1000) (floor_quotient now (10 ^ 9)))
unfolding is_past unix_seconds
is_past_lem now = (
  λ t. ap (λ u. leb_ℤ u (floor_quotient now (10 ^ 9))) (seconds_time t).1,
  λ t. ap (λ u. leb_ℤ u (floor_quotient now (10 ^ 9))) (milliseconds_time t).1,
)

module _ {Z : Type 0} where
  load_round_lem :
      (now : ℤ) (rec : RdbRecord) (r : Reader) (s : Store Z)
      → RecordFits rec
      → load_round now (write_record rec ++ r) s ≡ parsed (some (r, apply_record now rec s))
  unfolding load_round write_record apply_record RecordFits load_operation read_byte
      parse_db_meta_data parse_resize_metadata store_unless_past string_value string_at
  load_round_lem now (aux key value) r s (hk, hv) = rw (handle_aux_lem key value r hk hv) refl
  load_round_lem now (select_db format n) r s h =
      rw (parse_length_encoding-write_length format n r h) refl
  load_round_lem now (resize_db f n g m) r s (hf, hg) =
      rw (append_assoc, parse_length_encoding-write_length f n (write_length g m ++ r) hf)
        (rw (parse_length_encoding-write_length g m r hg) refl)
  load_round_lem now (expires_in_seconds t key value) r s (ht, hk, hv) =
      rw (append_assoc, expire_seconds_lem t key value r ht hk hv)
        (rw (load_round, (is_past_lem now).0 t) refl)
  load_round_lem now (expires_in_milliseconds t key value) r s (ht, hk, hv) =
      rw (append_assoc, expire_milliseconds_lem t key value r ht hk hv)
        (rw (load_round, (is_past_lem now).1 t) refl)
  load_round_lem now (persistent key value) r s (hk, hv) = rw (write_key_lem key value r hk hv) refl

load_records_lem :
    {Z : Type 0} (now : ℤ) (recs : List RdbRecord) (n fuel : ℕ) (r : Reader) (s : Store Z)
    → All RecordFits recs
    → n ≡ length recs + fuel
    → load_records now n (write_records recs ++ r) s
      ≡ load_records now fuel r (apply_records now recs s)
unfolding write_records apply_records load_records
load_records_lem now [] n fuel r s h e = let f : n ≡ fuel = omega arith in rw f refl
load_records_lem now (rec ∷ recs) zero fuel r s h e = absurd (omega arith)
load_records_lem now (rec ∷ recs) (suc n) fuel r s (hr, h) e =
    rw (append_assoc, load_records, load_round_lem now rec (write_records recs ++ r) s hr)
      (load_records_lem now recs n fuel r (apply_record now rec s) h (omega arith))

load_header_lem :
    (version r : Bytes)
    → length version ≡ 4
    → load_header (magic_string ++ (version ++ r)) ≡ parsed r
unfolding load_header bytes_eq
load_header_lem version r h =
    rw (fill_exact magic_string (version ++ r) 5 refl, load_header, fill_exact version r 4 h) refl

file_lem :
    {Z : Type 0} (now : ℤ) (version : Bytes) (recs : List RdbRecord) (rest : Reader) (n : ℕ)
    (s : Store Z)
    → length version ≡ 4
    → All RecordFits recs
    → length recs ≤ n
    → load now (suc n) (some (write_file version recs ++ rest)) s
      ≡ load_records now (suc (n - length recs)) rest (apply_records now recs s)
unfolding load write_file
file_lem now version recs rest n s hv h enough =
    rw (append_assoc, load, load_header_lem version (write_records recs ++ rest) hv)
      (load_records_lem now recs (suc n) (suc (n - length recs)) rest s h (omega arith))

-- Load of a file of records in the format, with the expiries, metadata and table sizes that the format
-- has, whose strings stand in any of the encodings but LZF and fit them, ends at its end mark without
-- an error, with more rounds than records, and the store then has, of the file's keys in their order,
-- exactly those set whose second of expiry is after the clock's or that have none; without an end mark
-- Load returns io.EOF and has made the same change.
pub load-write_file :
    {Z : Type 0} (now : ℤ) (version : Bytes) (recs : List RdbRecord) (rest : Reader) (fuel : ℕ)
    (s : Store Z)
    → length version ≡ 4
    → All RecordFits recs
    → length recs < fuel
    → (load now fuel (some (write_file version recs ++ op_eof ∷ rest)) s
        ≡ loading_ends none (apply_records now recs s))
      × (load now fuel (some (write_file version recs)) s
          ≡ loading_ends (some (io eof)) (apply_records now recs s))
unfolding load_records load_round load_operation read_byte
load-write_file now version recs rest zero s hv h enough = absurd (omega arith)
load-write_file now version recs rest (suc n) s hv h enough = (
  file_lem now version recs (op_eof ∷ rest) n s hv h (omega arith),
  let e : write_file version recs ++ [] ≡ write_file version recs = append-nil _ in
      rw (← e) (file_lem now version recs [] n s hv h (omega arith)),
)
