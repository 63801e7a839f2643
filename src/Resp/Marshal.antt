-- ===== src/Resp/Marshal.antt =====
-- resp/resp.go: the `Marshal` methods, the error replies and the fixed requests.
use tiny_red.Base.{List, [], ◌∷◌, ◌++◌, Bytes, codes, crlf, length, ℤ, pos}
use tiny_red.Strconv.{itoa}
use tiny_red.Resp.Types.{
  SimpleError, err_type, wrong_type_code, error_message_wrong_type, error_message_not_integer,
}

unfoldable pub concat : List Bytes → Bytes
concat [] = []
concat (v ∷ vs) = v ++ concat vs

-- The elements of an `Array` are encoded already.
unfoldable pub marshal_array : List Bytes → Bytes
unfolding concat
marshal_array values = b'*' ∷ (itoa (pos (length values)) ++ (crlf ++ concat values))

unfoldable pub marshal_null_array : Bytes
marshal_null_array = codes "*-1" ++ crlf

unfoldable pub marshal_simple_string : Bytes → Bytes
marshal_simple_string value = b'+' ∷ (value ++ crlf)

unfoldable pub marshal_bulk_string : Bytes → Bytes
marshal_bulk_string value = b'$' ∷ (itoa (pos (length value)) ++ (crlf ++ (value ++ crlf)))

unfoldable pub marshal_simple_error : SimpleError → Bytes
marshal_simple_error e = b'-' ∷ (e.error_type ++ b' ' ∷ (e.message ++ crlf))

unfoldable pub marshal_null_bulk_string : Bytes
marshal_null_bulk_string = codes "$-1" ++ crlf

unfoldable pub marshal_integer : ℤ → Bytes
marshal_integer value = b':' ∷ (itoa value ++ crlf)

unfoldable pub marshal_bulk_error : Bytes
marshal_bulk_error = b'1' ∷ []

-- The error replies.
unfoldable pub err_wrong_arg_count : Bytes → Bytes
unfolding marshal_simple_error
err_wrong_arg_count cmd = marshal_simple_error (record {
  error_type = err_type;
  message = codes "wrong number of arguments for '" ++ (cmd ++ codes "' command");
})

unfoldable pub err_unknown_command : Bytes → Bytes
unfolding marshal_simple_error
err_unknown_command cmd =
    marshal_simple_error
      (record { error_type = err_type; message = codes "unknown command '" ++ (cmd ++ codes "'") })

unfoldable pub err_generic : Bytes
err_generic = codes "internal error occured"

unfoldable pub err_wrong_type : Bytes
unfolding marshal_simple_error
err_wrong_type =
    marshal_simple_error
      (record { error_type = wrong_type_code; message = error_message_wrong_type })

unfoldable pub err_syntax : Bytes
unfolding marshal_simple_error
err_syntax = marshal_simple_error (record { error_type = err_type; message = codes "syntax error" })

unfoldable pub err_not_integer : Bytes
unfolding marshal_simple_error
err_not_integer =
    marshal_simple_error (record { error_type = err_type; message = error_message_not_integer })

-- The requests of a replica's handshake, encoded in advance.
abbrev pub static_request_ping : Bytes
static_request_ping = codes "*1\r\n$4\r\nPING\r\n"

abbrev pub static_request_psync2 : Bytes
static_request_psync2 = codes "*3\r\n$5\r\nPSYNC\r\n$1\r\n?\r\n$2\r\n-1\r\n"

abbrev pub static_request_repl_conf_capa : Bytes
static_request_repl_conf_capa = codes "*3\r\n$8\r\nREPLCONF\r\n$4\r\ncapa\r\n$6\r\npsync2\r\n"

-- The format, filled in with the port and its length.
unfoldable pub static_request_repl_conf_port : Bytes → Bytes
static_request_repl_conf_port port =
    codes "*3\r\n$8\r\nREPLCONF\r\n$14\r\nlistening-port\r\n$"
    ++ (itoa (pos (length port)) ++ (crlf ++ (port ++ crlf)))
