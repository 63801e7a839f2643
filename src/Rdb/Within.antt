-- ===== src/Rdb/Within.antt =====
-- rdb/rdb.go: no part of the parser gives input back.
use tiny_red.Base.{
  ℕ, suc, ◌%◌, ◌≤◌, Bool, true, false, Option, none, some, [], ◌∷◌, arith, length, length-drop, ℤ,
  if◌then◌else◌,
}
use tiny_red.Resp.Reader.{Reader, read_full}
use tiny_red.Store.Types.{Store}
use tiny_red.Rdb.{
  RdbError, Parsed, parsed, failed, ◌>>=◌, read_byte, fill, length_of_format, parse_length,
  integer_string, special_string, string_of, parse_string, handle_aux, length_encoding,
  parse_length_encoding, parse_db_meta_data, parse_resize_metadata,
}
use tiny_red.Rdb.Loader.{
  parse_key_with_type, parse_key, parse_expire_time, parse_expire_key, load_operation, load_round,
}

-- The result, if there is one, leaves at most `n` bytes to be read.
unfoldable pub Within {ℓ} : {A : Type ℓ} → (A → Reader) → ℕ → Parsed A → Type 0
Within rest n (parsed a) = length (rest a) ≤ n
Within rest n (failed e) = Unit

Within-bind :
    {A B : Type 0} (n : ℕ) (left : A → Reader) (rest : B → Reader) (m : Parsed A) (f : A → Parsed B)
    → Within left n m
    → ((a : A) → length (left a) ≤ n → Within rest n (f a))
    → Within rest n (m >>= f)
unfolding Within
Within-bind n left rest (parsed a) f h k = k a h
Within-bind n left rest (failed e) f h k = tt

pub Within-if :
    {A : Type 0} (rest : A → Reader) (n : ℕ) (b : Bool) (x y : Parsed A)
    → Within rest n x
    → Within rest n y
    → Within rest n (if b then x else y)
Within-if rest n true x y h k = h
Within-if rest n false x y h k = k

-- What is left behind a value, and behind a flag and a value.
abbrev behind {ℓ} : {A : Type ℓ} → A × Reader → Reader
behind p = p.1

abbrev behind_two : Bool × ℕ × Reader → Reader
behind_two p = p.2

pub read_byte-Within : (n : ℕ) (r : Reader) → length r ≤ n → Within behind n (read_byte r)
unfolding Within read_byte
read_byte-Within n [] h = tt
read_byte-Within n (b ∷ r) h = omega arith

pub fill-Within : (k n : ℕ) (r : Reader) → length r ≤ n → Within behind n (fill k r)
unfolding Within fill read_full
fill-Within k n r h = ground (arith, length-drop k r)

pub Within-value :
    {A : Type 0} (rest : A → Reader) (n : ℕ) (a : A)
    → length (rest a) ≤ n
    → Within rest n (parsed a)
unfolding Within
Within-value rest n a h = h

pub Within-error :
    {A : Type 0} (rest : A → Reader) (n : ℕ) (e : RdbError) → Within rest n (failed e)
unfolding Within
Within-error rest n e = tt

pub Within-then :
    {A B : Type 0} (n : ℕ) (rest : B → Reader) (m : Parsed (A × Reader)) (f : A × Reader → Parsed B)
    → Within behind n m
    → ((b : A) (t : Reader) → length t ≤ n → Within rest n (f (b, t)))
    → Within rest n (m >>= f)
Within-then n rest m f h g = Within-bind n behind rest m f h (λ a l. g a.0 a.1 l)

pub Within-then_two :
    {B : Type 0} (n : ℕ) (rest : B → Reader) (m : Parsed (Bool × ℕ × Reader))
    (f : Bool × ℕ × Reader → Parsed B)
    → Within behind_two n m
    → ((b : Bool) (k : ℕ) (t : Reader) → length t ≤ n → Within rest n (f (b, k, t)))
    → Within rest n (m >>= f)
Within-then_two n rest m f h g = Within-bind n behind_two rest m f h (λ a l. g a.0 a.1 a.2 l)

pub ruleset within_rules = (
  Within-then, Within-then_two, Within-if, Within-value, Within-error, read_byte-Within,
  fill-Within,
)

length_of_format-Within :
    (format bits n : ℕ) (r : Reader)
    → length r ≤ n
    → Within behind_two n (length_of_format format bits r)
unfolding length_of_format
length_of_format-Within format bits n r h = search (within_rules)

parse_length-Within : (n : ℕ) (r : Reader) → length r ≤ n → Within behind_two n (parse_length r)
unfolding parse_length
parse_length-Within n r h = search (within_rules, length_of_format-Within)

integer_string-Within : (k n : ℕ) (r : Reader) → length r ≤ n → Within behind n (integer_string k r)
unfolding integer_string
integer_string-Within k n r h = search (within_rules)

special_string-Within :
    (format n : ℕ) (r : Reader) → length r ≤ n → Within behind n (special_string format r)
unfolding special_string
special_string-Within format n r h = search (within_rules, integer_string-Within)

string_of-Within :
    (b : Bool) (size n : ℕ) (r : Reader) → length r ≤ n → Within behind n (string_of b size r)
unfolding string_of
string_of-Within false size n r h = fill-Within size n r h
string_of-Within true size n r h = special_string-Within (size % 256) n r h

parse_string-Within : (n : ℕ) (r : Reader) → length r ≤ n → Within behind n (parse_string r)
unfolding parse_string
parse_string-Within n r h = search (within_rules, parse_length-Within, string_of-Within)

length_encoding-Within :
    (b : Bool) (size n : ℕ) (r : Reader) → length r ≤ n → Within behind n (length_encoding b size r)
unfolding length_encoding Within
length_encoding-Within true size n r h = tt
length_encoding-Within false size n r h = h

parse_length_encoding-Within :
    (n : ℕ) (r : Reader) → length r ≤ n → Within behind n (parse_length_encoding r)
unfolding parse_length_encoding
parse_length_encoding-Within n r h =
    search (within_rules, parse_length-Within, length_encoding-Within)

handle_aux-Within : (n : ℕ) (r : Reader) → length r ≤ n → Within behind n (handle_aux r)
unfolding handle_aux
handle_aux-Within n r h = search (within_rules, parse_string-Within)

parse_db_meta_data-Within :
    (n : ℕ) (r : Reader) → length r ≤ n → Within behind n (parse_db_meta_data r)
unfolding parse_db_meta_data
parse_db_meta_data-Within n r h = search (within_rules, parse_length_encoding-Within)

parse_resize_metadata-Within :
    (n : ℕ) (r : Reader) → length r ≤ n → Within behind n (parse_resize_metadata r)
unfolding parse_resize_metadata
parse_resize_metadata-Within n r h = search (within_rules, parse_length_encoding-Within)

parse_key_with_type-Within :
    (value_type n : ℕ) (r : Reader)
    → length r ≤ n
    → Within behind n (parse_key_with_type value_type r)
unfolding parse_key_with_type
parse_key_with_type-Within value_type n r h = search (within_rules, parse_string-Within)

parse_key-Within : (n : ℕ) (r : Reader) → length r ≤ n → Within behind n (parse_key r)
unfolding parse_key
parse_key-Within n r h = search (within_rules, parse_key_with_type-Within)

parse_expire_time-Within :
    (unit n : ℕ) (r : Reader) → length r ≤ n → Within behind n (parse_expire_time unit r)
unfolding parse_expire_time
parse_expire_time-Within unit n r h = search (within_rules)

parse_expire_key-Within :
    (unit n : ℕ) (r : Reader) → length r ≤ n → Within behind n (parse_expire_key unit r)
unfolding parse_expire_key
parse_expire_key-Within unit n r h =
    search (within_rules, parse_expire_time-Within, parse_key-Within)

nothing_left : (n : ℕ) → 0 ≤ n
nothing_left n = omega arith

module _ {Z : Type 0} where
  unfoldable pub after : Option (Reader × Store Z) → Reader
  after none = []
  after (some (r, s)) = r

  load_operation-Within :
      (now : ℤ) (op_code n : ℕ) (r : Reader) (s : Store Z)
      → length r ≤ n
      → Within after n (load_operation now op_code r s)
  unfolding load_operation after
  load_operation-Within now op_code n r s h =
      search
        (
          within_rules, nothing_left, handle_aux-Within, parse_db_meta_data-Within,
          parse_resize_metadata-Within, parse_expire_key-Within, parse_key_with_type-Within,
        )
        depth 14

  -- Each round that goes on has taken a byte at least.
  pub load_round-Within :
      (now : ℤ) (n : ℕ) (r : Reader) (s : Store Z)
      → length r ≤ suc n
      → Within after n (load_round now r s)
  unfolding load_round Within read_byte
  load_round-Within now n [] s h = tt
  load_round-Within now n (op_code ∷ r) s h = load_operation-Within now op_code n r s (omega arith)
