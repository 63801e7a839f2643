-- ===== src/Server/Commands/Lists.antt =====
-- server/commad_handlers.go: RPUSH, LPUSH, LRANGE, LPOP, LLEN and BLPOP.
use tiny_red.Base.{
  ℕ, ◌+◌, ◌-◌, ◌&&◌, Bool, true, false, Option, none, some, List, [], ◌∷◌, Bytes, bytes_eq, length,
  take, drop, ℤ, pos, negsuc, ltb_ℤ, leb_ℤ, ◌+ℤ◌, ◌-ℤ◌, ltb, if◌then◌else◌,
}
use tiny_red.Strconv.{atoi}
use tiny_red.Resp.Types.{wrong_type_code, error_message_not_number}
use tiny_red.Resp.Marshal.{
  marshal_bulk_string, marshal_null_bulk_string, marshal_null_array, marshal_integer, marshal_array,
  err_not_integer, err_wrong_type,
}
use tiny_red.Store.Types.{
  EntryType, string_entry, list_entry, sorted_set_entry, Value, text, elements, sorted, Entry,
  BlPopData, Direction, right, left, Store,
}
use tiny_red.Store.Entries
use tiny_red.Store.Entries.{Updated, fails, absent, becomes, Outcome, done, failed}
use tiny_red.Store.Lists.{list_push, Popped, popped, waiting, wrong_value, blpop}
use tiny_red.Server.Types.{Reply, replied, internal_error, panics, blocks, Handler}
use tiny_red.Server.Commands.Arguments.{
  with_argument, client_err, wrong_type_err, bulk_array, with_store,
}

-- `list.Value.([]string)` of the entry that `ListPush` returned, whose failure panics.
unfoldable pub length_reply : {Z : Type 0} → Value Z → Reply
length_reply (elements xs) = replied (marshal_integer (pos (length xs)))
length_reply (text v) = panics
length_reply (sorted z) = panics

unfoldable pub pushed_reply : {Z : Type 0} → Option (Entry Z) → Reply
unfolding length_reply
pushed_reply none = internal_error
pushed_reply (some e) = length_reply e.value

-- The elements of a value with the type of a list: a wrong type, a value of another kind, or them.
pub data AsList : Type 0 where
  wrong_type not_elements : AsList
  list_of : List Bytes → AsList

unfoldable pub value_as_list : {Z : Type 0} → Value Z → AsList
value_as_list (elements xs) = list_of xs
value_as_list (text v) = not_elements
value_as_list (sorted z) = not_elements

unfoldable pub as_list : {Z : Type 0} → EntryType → Value Z → AsList
unfolding value_as_list
as_list list_entry v = value_as_list v
as_list string_entry v = wrong_type
as_list sorted_set_entry v = wrong_type

unfoldable pub normalize_index : ℤ → ℕ → ℤ
normalize_index idx n =
    let from_start = if ltb_ℤ idx (pos 0) then pos n +ℤ idx else idx in
    let idx' = if ltb_ℤ from_start (pos 0) then pos 0 else from_start in
    if ltb_ℤ (pos n -ℤ pos 1) idx' then pos n -ℤ pos 1 else idx'

-- `for i := start; i <= end; i++` over existing[i]: an index below 0 panics.
unfoldable pub elements_between : ℤ → ℤ → List Bytes → Reply
elements_between (negsuc a) end existing = panics
elements_between (pos a) (negsuc b) existing = replied (bulk_array [])
elements_between (pos a) (pos b) existing =
    replied (bulk_array (take (b + 1 - a) (drop a existing)))

unfoldable pub range_reply : ℤ → ℤ → List Bytes → Reply
unfolding elements_between normalize_index
range_reply start end existing =
    let n = length existing in
    let first = normalize_index start n in
    let last = normalize_index end n in
    if leb_ℤ (pos n) start
    then replied (marshal_array [])
    else if ltb_ℤ last first
    then replied (marshal_array [])
    else elements_between first last existing

unfoldable pub range_of : ℤ → ℤ → AsList → Reply
unfolding range_reply
range_of start end wrong_type = replied err_wrong_type
range_of start end not_elements = internal_error
range_of start end (list_of xs) = range_reply start end xs

-- Why the function that LPOP hands to `Update` fails: the value is no list, or a slice bound is negative.
pub data PopFailure : Type 0 where
  no_list negative_count : PopFailure

module _ {Z : Type 0} where
  unfoldable pub pop_elements : ℤ → Entry Z → List Bytes → Updated Z PopFailure (List Bytes)
  pop_elements count e [] = becomes e []
  pop_elements (negsuc n) e (x ∷ xs) = fails negative_count
  pop_elements (pos n) e (x ∷ xs) =
      let values = x ∷ xs in
      let count = if ltb (length values) n then length values else n in
      becomes (record e { value = elements (drop count values) }) (take count values)

  unfoldable pub pop_of : ℤ → Entry Z → Value Z → Updated Z PopFailure (List Bytes)
  unfolding pop_elements
  pop_of count e (elements xs) = pop_elements count e xs
  pop_of count e (text v) = fails no_list
  pop_of count e (sorted z) = fails no_list

  unfoldable pub pop_update : ℤ → Option (Entry Z) → Updated Z PopFailure (List Bytes)
  unfolding pop_of
  pop_update count none = absent []
  pop_update count (some e) = pop_of count e e.value

-- One element alone if no count was given, and an array if one was.
unfoldable pub popped_reply : Bool → Outcome PopFailure (List Bytes) → Reply
popped_reply counted (failed no_list) = internal_error
popped_reply counted (failed negative_count) = panics
popped_reply counted (done []) = replied marshal_null_bulk_string
popped_reply counted (done (x ∷ xs)) =
    if counted then replied (bulk_array (x ∷ xs)) else replied (marshal_bulk_string x)

-- The reply of BLPOP, with or without having waited: the zero value is a timeout.
unfoldable pub blpop_reply : BlPopData → Bytes
blpop_reply d =
    if bytes_eq d.key [] && bytes_eq d.value []
    then marshal_null_array
    else bulk_array (d.key ∷ d.value ∷ [])

unfoldable pub reply_popped : Option ℤ → Popped → Reply
unfolding blpop_reply
reply_popped limit (popped d) = replied (blpop_reply d)
reply_popped limit (waiting w) = blocks w limit
reply_popped limit wrong_value = internal_error

-- The numbers that `strconv.ParseFloat` reads, of which BLPOP asks whether they are zero, and how many
-- nanoseconds they are as seconds: `time.Duration(timeout * float64(time.Second))`.
pub record Floats : Type 1 where
  pub Float : Type 0
  pub parse_float : Bytes → Option Float
  pub is_zero : Float → Bool
  pub duration : Float → ℤ

module _ {Z : Type 0} where
  unfoldable pub push_arguments : Direction → List Bytes → Store Z → Reply × Store Z
  unfolding pushed_reply
  push_arguments direction [] st = (panics, st)
  push_arguments direction (key ∷ values) st =
      let (e, st') = list_push key values direction st in (pushed_reply e, st')

  unfoldable pub handle_rpush : Handler Z
  unfolding push_arguments with_store
  handle_rpush req c s = with_store (push_arguments right req.arguments s.store) s

  unfoldable pub handle_lpush : Handler Z
  unfolding push_arguments with_store
  handle_lpush req c s = with_store (push_arguments left req.arguments s.store) s

  unfoldable pub range_entry : ℤ → ℤ → Option (Entry Z) → Reply
  unfolding range_of as_list
  range_entry start end none = replied (marshal_array [])
  range_entry start end (some e) = range_of start end (as_list e.entry_type e.value)

  -- The bounds are parsed before the key is looked up.
  unfoldable pub range_bounds : Bytes → Option ℤ → Option ℤ → Store Z → Reply
  unfolding range_entry
  range_bounds key none end st = replied err_not_integer
  range_bounds key (some start) none st = replied err_not_integer
  range_bounds key (some start) (some end) st = range_entry start end (Entries.get key st)

  unfoldable pub handle_lrange : Handler Z
  unfolding range_bounds with_argument with_store
  handle_lrange req c s =
      let st = s.store in
      with_store
        (with_argument 0 req
          (λ key.
            with_argument 1 req
              (λ start.
                with_argument 2 req (λ end. (range_bounds key (atoi start) (atoi end) st, st)) st)
              st)
          st)
        s

  unfoldable pub pop_count : Bytes → Bool → Option ℤ → Store Z → Reply × Store Z
  unfolding popped_reply
  pop_count key counted none st = (client_err [] [], st)
  pop_count key counted (some n) st =
      let (r, st') = Entries.update key (pop_update n) st in (popped_reply counted r, st')

  unfoldable pub pop_arguments : List Bytes → Store Z → Reply × Store Z
  unfolding pop_count
  pop_arguments [] st = (panics, st)
  pop_arguments (key ∷ []) st = pop_count key false (some (pos 1)) st
  pop_arguments (key ∷ count ∷ rest) st = pop_count key true (atoi count) st

  unfoldable pub handle_lpop : Handler Z
  unfolding pop_arguments with_store
  handle_lpop req c s = with_store (pop_arguments req.arguments s.store) s

  unfoldable pub length_of : Option (Entry Z) → Reply
  unfolding as_list
  length_of none = replied (marshal_integer (pos 0))
  length_of (some e) = elim (as_list e.entry_type e.value) [
    | wrong_type ↦ wrong_type_err
    | not_elements ↦ internal_error
    | list_of xs ↦ replied (marshal_integer (pos (length xs)))
  ]

  unfoldable pub handle_llen : Handler Z
  unfolding length_of with_argument with_store
  handle_llen req c s =
      with_store
        (with_argument 0 req (λ key. (length_of (Entries.get key s.store), s.store)) s.store) s

module _ (F : Floats) where
  open F use {Float, is_zero, duration}

  -- The time that BLPOP waits at most; none for a timeout of zero.
  unfoldable pub wait_limit : Float → Option ℤ
  wait_limit t = if is_zero t then none else some (duration t)

module _ (F : Floats) {Z : Type 0} where
  open F use {Float, parse_float}

  unfoldable pub pop_or_wait : Bytes → Option Float → Store Z → Reply × Store Z
  unfolding reply_popped wait_limit
  pop_or_wait key none st = (client_err wrong_type_code error_message_not_number, st)
  pop_or_wait key (some t) st =
      let (r, st') = blpop key st in (reply_popped (wait_limit F t) r, st')

  unfoldable pub handle_blpop : Handler Z
  unfolding pop_or_wait with_argument with_store
  handle_blpop req c s =
      with_store
        (with_argument 0 req
          (λ key. with_argument 1 req (λ t. pop_or_wait key (parse_float t) s.store) s.store)
          s.store)
        s
