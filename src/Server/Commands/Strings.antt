-- ===== src/Server/Commands/Strings.antt =====
-- server/commad_handlers.go: ECHO, PING, SET, GET, INCR, KEYS and CONFIG.
use tiny_red.Base.{
  ℕ, ◌^◌, Bool, true, false, Option, none, some, List, [], ◌∷◌, ◌++◌, Bytes, codes, bytes_eq,
  to_lower, ℤ, pos, ◌+ℤ◌, ltb_ℤ, scale, wrap_64, if◌then◌else◌,
}
use tiny_red.Base.Map
use tiny_red.Strconv.{itoa, atoi}
use tiny_red.Resp.Types.{err_type}
use tiny_red.Resp.Marshal.{
  marshal_simple_string, marshal_bulk_string, marshal_null_bulk_string, marshal_integer,
  marshal_array,
}
use tiny_red.Store.Types.{
  EntryType, string_entry, list_entry, sorted_set_entry, Value, text, elements, sorted, Entry,
  Store,
}
use tiny_red.Store.Entries
use tiny_red.Store.Entries.{Updated, fails, absent, becomes, Outcome, done, failed}
use tiny_red.Server.Types.{
  subscribed, ClientMode, Config, Reply, replied, internal_error, panics, Handler,
}
use tiny_red.Server.Commands.Arguments.{
  with_argument, client_err, not_integer_err, bulk_array, with_store,
}

-- What the optional arguments of SET come to.
pub data Options : Type 0 where
  expires : Option ℤ → Options
  refused : Reply → Options

-- The duration that an option stands for, in nanoseconds, computed in int64.
unfoldable pub unit : Bytes → Option ℕ
unit option =
    if bytes_eq option (codes "px")
    then some (10 ^ 6)
    else if bytes_eq option (codes "ex")
    then some (10 ^ 9)
    else none

unknown_option : Bytes → Options
unknown_option option =
    refused (client_err err_type (codes "unknown Optional parameter  '" ++ (option ++ codes "'")))

expecting_integer : Bytes → Options
expecting_integer arg =
    refused (client_err err_type (codes "Expecting a integer for expire got " ++ arg))

-- The loop over `req.Arguments[2:]`. An option that is the last argument reads behind the end.
unfoldable pub set_options : ℤ → Option ℤ → List Bytes → Options
unfolding unknown_option expecting_integer
set_options now expire_at [] = expires expire_at
set_options now expire_at (option ∷ []) = elim (unit (to_lower option)) [
  | none ↦ unknown_option option
  | some u ↦ refused panics
]
set_options now expire_at (option ∷ arg ∷ rest) = elim (unit (to_lower option)) [
  | none ↦ unknown_option option
  | some u ↦ elim (atoi arg) [
    | none ↦ expecting_integer arg
    | some t ↦ set_options now (some (now +ℤ wrap_64 (scale u t))) rest
  ]
]

-- `entry.Value.(string)` with the check dropped: another kind of value reads as the empty string.
unfoldable pub text_of : {Z : Type 0} → Value Z → Bytes
text_of (text v) = v
text_of (elements xs) = []
text_of (sorted z) = []

-- `!entry.ExpireAt.IsZero() && time.Now().After(entry.ExpireAt)`
unfoldable pub expired : ℤ → Option ℤ → Bool
expired now none = false
expired now (some t) = ltb_ℤ t now

-- The `Type` and the `Value` of an entry that INCR accepts.
unfoldable pub number_text : {Z : Type 0} → EntryType → Value Z → Option Bytes
number_text string_entry (text v) = some v
number_text string_entry (elements xs) = none
number_text string_entry (sorted z) = none
number_text list_entry v = none
number_text sorted_set_entry v = none

unfoldable pub pong : ClientMode → Bytes
pong subscribed = bulk_array (codes "pong" ∷ [] ∷ [])
pong _ = marshal_simple_string (codes "PONG")

-- `val, _ := strconv.Atoi(value)`: a text that is no number counts as 0.
unfoldable pub integer_of : Option ℤ → ℤ
integer_of none = pos 0
integer_of (some n) = n

unfoldable pub reply_incr : Outcome Reply Bytes → Reply
unfolding integer_of
reply_incr (failed r) = r
reply_incr (done v) = replied (marshal_integer (integer_of (atoi v)))

module _ {Z : Type 0} where
  unfoldable pub handle_echo : Handler Z
  unfolding with_argument with_store
  handle_echo req c s =
      with_store (with_argument 0 req (λ a. (replied (marshal_bulk_string a), s.store)) s.store) s

  unfoldable pub handle_ping : Handler Z
  unfolding pong with_store
  handle_ping req c s = with_store (replied (pong (s.object c).mode), s.store) s

  unfoldable pub set_entry : Bytes → Bytes → Options → Store Z → Reply × Store Z
  set_entry key value (refused r) st = (r, st)
  set_entry key value (expires t) st =
      let entry : Entry Z = record {
        entry_type = string_entry;
        value = text value;
        expire_at = t;
      } in
      (replied (marshal_simple_string (codes "OK")), Entries.set key entry st)

  unfoldable pub set_arguments : List Bytes → ℤ → Store Z → Reply × Store Z
  unfolding set_entry
  set_arguments [] now st = (panics, st)
  set_arguments (key ∷ []) now st = (panics, st)
  set_arguments (key ∷ value ∷ options) now st =
      set_entry key value (set_options now none options) st

  unfoldable pub handle_set : Handler Z
  unfolding set_arguments with_store
  handle_set req c s = with_store (set_arguments req.arguments s.now s.store) s

  unfoldable pub get_entry : Bytes → Option (Entry Z) → ℤ → Store Z → Reply × Store Z
  get_entry key none now st = (replied marshal_null_bulk_string, st)
  get_entry key (some e) now st =
      if expired now e.expire_at
      then (replied marshal_null_bulk_string, Entries.delete key st)
      else (replied (marshal_bulk_string (text_of e.value)), st)

  unfoldable pub handle_get : Handler Z
  unfolding get_entry with_argument with_store
  handle_get req c s =
      with_store
        (with_argument 0 req (λ key. get_entry key (Entries.get key s.store) s.now s.store) s.store)
        s

  unfoldable pub incremented : Entry Z → Option ℤ → Updated Z Reply Bytes
  incremented e none = fails not_integer_err
  incremented e (some n) =
      let v = itoa (wrap_64 (n +ℤ pos 1)) in becomes (record e { value = text v }) v

  -- The function that INCR hands to `Update`, with the text that the entry holds afterwards.
  unfoldable pub increment : Option (Entry Z) → Updated Z Reply Bytes
  unfolding incremented
  increment none =
      becomes (record { entry_type = string_entry; value = text (codes "1"); expire_at = none })
        (codes "1")
  increment (some e) = elim (number_text e.entry_type e.value) [
    | none ↦ fails not_integer_err
    | some v ↦ incremented e (atoi v)
  ]

  unfoldable pub handle_incr : Handler Z
  unfolding reply_incr with_argument with_store
  handle_incr req c s =
      with_store
        (with_argument 0 req
          (λ key. let (r, st) = Entries.update key increment s.store in (reply_incr r, st)) s.store)
        s

  unfoldable pub handle_keys : Handler Z
  unfolding with_argument with_store
  handle_keys req c s =
      with_store
        (with_argument 0 req
          (λ pattern.
            if bytes_eq pattern (codes "*")
            then (replied (bulk_array (Entries.keys s.store)), s.store)
            else (internal_error, s.store))
          s.store)
        s

boolean_text : Bool → Bytes
boolean_text true = codes "true"
boolean_text false = codes "false"

-- The fields of `Config` by their tags, in order; the first field with a tag answers for it.
unfoldable pub config_fields : Config → Map.Map Bytes
unfolding boolean_text
config_fields config =
    (codes "port", itoa config.port)
    ∷ (codes "bind", config.bind)
    ∷ (codes "timeout", itoa config.timeout)
    ∷ (codes "-", boolean_text config.keep_alive)
    ∷ (codes "tcp-keepalive", itoa config.keep_alive_timeout)
    ∷ (codes "dir", config.dir)
    ∷ (codes "dbfilename", config.dbfilename)
    ∷ (codes "appendonly", config.appendonly)
    ∷ (codes "appenddirname", config.appenddirname)
    ∷ (codes "appendfilename", config.appendfilename)
    ∷ (codes "appendfsync", config.appendfsync)
    ∷ (codes "-", config.replicaof)
    ∷ []

unfoldable pub get_config : Bytes → Config → Option Bytes
get_config key config = Map.lookup (to_lower key) (config_fields config)

unfoldable pub reply_config : Bytes → Option Bytes → Reply
reply_config key none = replied (marshal_array [])
reply_config key (some value) = replied (bulk_array (key ∷ value ∷ []))

module _ {Z : Type 0} where
  unfoldable pub handle_config : Handler Z
  unfolding reply_config with_argument with_store
  handle_config req c s =
      with_store
        (with_argument 0 req
          (λ verb.
            if bytes_eq (to_lower verb) (codes "get")
            then with_argument 1 req
                (λ name.
                  (reply_config (to_lower name) (get_config (to_lower name) s.config), s.store))
                s.store
            else (internal_error, s.store))
          s.store)
        s
