-- ===== src/Server/Commands/Arguments.antt =====
-- server/commad_handlers.go: the arguments of a request, and the common errors.
use tiny_red.Base.{ℕ, none, some, Bytes, List, get_elem?, map}
use tiny_red.Resp.Types.{
  err_type, wrong_type_code, error_message_wrong_type, error_message_not_integer,
}
use tiny_red.Resp.Marshal.{marshal_array, marshal_bulk_string}
use tiny_red.Store.Types.{Store}
use tiny_red.Server.Types.{Request, Server, Reply, client_error, panics}

-- req.Arguments[i], which panics out of range and then leaves the state as it is.
unfoldable pub with_argument : {S : Type 0} → ℕ → Request → (Bytes → Reply × S) → S → Reply × S
with_argument i req f s = elim (get_elem? req.arguments i) [ none ↦ (panics, s) | some a ↦ f a ]

abbrev pub client_err : Bytes → Bytes → Reply
client_err t m = client_error (record { error_type = t; message = m })

abbrev pub wrong_type_err : Reply
wrong_type_err = client_err wrong_type_code error_message_wrong_type

abbrev pub not_integer_err : Reply
not_integer_err = client_err err_type error_message_not_integer

-- An array of bulk strings.
abbrev pub bulk_array : List Bytes → Bytes
bulk_array values = marshal_array (map marshal_bulk_string values)

abbrev pub put_store : {Z : Type 0} → Store Z → Server Z → Server Z
put_store st s = record s { store = st }

-- A handler that changes only the store.
unfoldable pub with_store : {Z : Type 0} → Reply × Store Z → Server Z → Reply × Server Z
with_store r s = (r.0, put_store r.1 s)
