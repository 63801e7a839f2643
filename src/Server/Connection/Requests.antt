-- ===== src/Server/Connection/Requests.antt =====
-- server/server.go: `ParseRequest` and `getRequestinResp`; aof/aof.go: the encoding of `AppendCmd`.
use tiny_red.Base.{
  ℕ, ◌<◌, ◌≡◌, List, [], ◌∷◌, ◌++◌, map, Bytes, to_lower, to_upper, to_lower-to_upper, length, All,
  ◌==◌, if◌then◌else◌, suc,
}
use tiny_red.Strconv.{half_32, half_64}
use tiny_red.Resp.Types.{Kind, symbol, IoError, eof, Error, Result, ok, err, panic}
use tiny_red.Resp.Reader.{Reader}
use tiny_red.Resp.Marshal.{marshal_array, marshal_bulk_string}
use tiny_red.Resp.Unmarshal.{unmarshal_array}
use tiny_red.Resp.RoundTrip.{unmarshal-marshal_array}
use tiny_red.Server.Types.{Request}

-- A command and its arguments, as an array of bulk strings.
unfoldable pub command_in_resp : Bytes → List Bytes → Bytes
command_in_resp command arguments = marshal_array (map marshal_bulk_string (command ∷ arguments))

unfoldable pub get_request_in_resp : Request → Bytes
get_request_in_resp req = command_in_resp (to_upper req.command) req.arguments

-- What `ParseRequest` returns: a request, an error of the connection, or a protocol error.
pub data Parsed : Type 0 where
  request : Request → Reader → Parsed
  connection_error : IoError → Parsed
  expected_array : ℕ → Parsed
  protocol_error : Error → Parsed
  empty_command : Parsed
  parse_panics : Parsed

unfoldable pub parsed : Result (List Bytes × Reader) → Parsed
parsed (ok ([], rest)) = empty_command
parsed (ok (command ∷ arguments, rest)) =
    request (record { command = to_lower command; arguments = arguments }) rest
parsed (err e) = protocol_error e
parsed panic = parse_panics

unfoldable pub parse_request : Reader → Parsed
parse_request [] = connection_error eof
parse_request (c ∷ r) =
    if c == symbol Kind.array then parsed (unmarshal_array (c ∷ r)) else expected_array c

-- A request that is written for a replica is parsed as the same command in lower case with the same
-- arguments, and what follows it stays to be read; the command and each argument are shorter than 2^31
-- bytes, and their number is below 2^63.
pub parse_request-get_request_in_resp :
    (req : Request) (rest : Bytes)
    → All (λ v. length v < half_32) (to_upper req.command ∷ req.arguments)
    → suc (length req.arguments) < half_64
    → parse_request (get_request_in_resp req ++ rest)
      ≡ request (record { command = to_lower req.command; arguments = req.arguments }) rest
unfolding parse_request get_request_in_resp command_in_resp parsed
parse_request-get_request_in_resp req rest h n =
    let e = unmarshal-marshal_array (to_upper req.command ∷ req.arguments) rest h n in
    unfold marshal_array symbol in rw (e, parse_request, to_lower-to_upper)
