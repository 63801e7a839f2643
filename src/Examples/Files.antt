-- ===== src/Examples/Files.antt =====
-- The theorems on RDB files at a concrete file.
use tiny_red.Base.{
  ℕ, ◌≡◌, All, List, Option, none, some, [], ◌∷◌, ◌++◌, arith, Bytes, codes, length, ℤ, pos, negsuc,
  refl,
}
use tiny_red.Base.Map
use tiny_red.Resp.Types.{eof}
use tiny_red.Store.Types.{string_entry, text, new_store}
use tiny_red.Rdb.{io, parsed, parse_string}
use tiny_red.Rdb.Strings.{
  FormFits, length_bound, six_bits, fourteen_bits, plain, int8, write_string, form_text,
  parse_string-write_string,
}
use tiny_red.Rdb.Loader.{op_eof, loading_ends, load}
use tiny_red.Rdb.Format.{
  RdbRecord, RecordFits, aux, select_db, resize_db, expires_in_seconds, expires_in_milliseconds,
  persistent, write_file, apply_records,
}
use tiny_red.Rdb.Records.{load-write_file}
use tiny_red.Rdb.Rounds.{EndSame, load-EndSame}

-- Second 1000 of the epoch.
abbrev clock : ℤ
clock = pos 1000000000000

abbrev file_records : List RdbRecord
file_records =
    aux (plain six_bits (codes "redis-bits")) (int8 (pos 64))
    ∷ select_db six_bits 0
    ∷ resize_db six_bits 3 fourteen_bits 300
    ∷ persistent (plain six_bits (codes "n")) (int8 (negsuc 4))
    ∷ expires_in_seconds 1000 (plain six_bits (codes "old")) (int8 (pos 1))
    ∷ expires_in_milliseconds (pos 1002500) (plain six_bits (codes "new")) (int8 (pos 2))
    ∷ []

loaded_entries :
    (apply_records clock file_records (new_store {Z = ℕ})).entries
    ≡ (codes "n", record { entry_type = string_entry; value = text (codes "-5"); expire_at = none })
      ∷ (
        codes "new",
        record {
          entry_type = string_entry;
          value = text (codes "2");
          expire_at = some (pos 1002500000000);
        },
      )
      ∷ []
unfolding apply_records new_store Map.insert form_text tiny_red.Rdb.Format.apply_record
    tiny_red.Store.Entries.set tiny_red.Base.bytes_eq tiny_red.Strconv.itoa
loaded_entries = refl

file_records-RecordFits : All RecordFits file_records
unfolding RecordFits FormFits length_bound
file_records-RecordFits = (
  (omega arith, omega arith),
  (
    omega arith,
    (
      (omega arith, omega arith),
      (
        (omega arith, omega arith),
        ((omega arith, omega arith, omega arith), ((omega arith, omega arith, omega arith), tt)),
      ),
    ),
  ),
)

load-write_file_example :
    (load clock 7 (some (write_file (codes "0011") file_records ++ op_eof ∷ [])) (new_store {Z = ℕ})
      ≡ loading_ends none (apply_records clock file_records new_store))
    × (load clock 7 (some (write_file (codes "0011") file_records)) (new_store {Z = ℕ})
        ≡ loading_ends (some (io eof)) (apply_records clock file_records new_store))
load-write_file_example =
    load-write_file clock (codes "0011") file_records [] 7 new_store refl file_records-RecordFits
      (omega arith)

load-EndSame_example :
    EndSame
      (load clock 10 (some (codes "REDIS0011")) (new_store {Z = ℕ}))
      (load clock 20 (some (codes "REDIS0011")) (new_store {Z = ℕ}))
load-EndSame_example =
    load-EndSame clock 10 20 (codes "REDIS0011") new_store (omega arith) (omega arith)

parse_string-write_string_example :
    parse_string (write_string (int8 (negsuc 4)) ++ codes "rest")
    ≡ parsed (codes "-5", codes "rest")
unfolding form_text tiny_red.Rdb.Strings.FormFits tiny_red.Strconv.itoa
parse_string-write_string_example =
    parse_string-write_string (int8 (negsuc 4)) (codes "rest") (omega arith)
