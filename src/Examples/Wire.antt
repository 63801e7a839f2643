-- ===== src/Examples/Wire.antt =====
-- The theorems on the protocol at concrete texts.
use tiny_red.Base.{
  ℕ, ◌≡◌, ◌≢◌, refl, List, [], ◌∷◌, ◌++◌, map, arith, Bytes, codes, crlf, negsuc, pos, to_upper,
}
use tiny_red.Strconv.{itoa}
use tiny_red.Resp.Types.{Response, ok, panic}
use tiny_red.Resp.Marshal.{marshal_bulk_string, marshal_array}
use tiny_red.Resp.Unmarshal.{unmarshal_array, unmarshal_bulk_string, read_response}
use tiny_red.Resp.RoundTrip.{
  unmarshal-marshal_array, marshal_response, read_response-marshal_response,
}
use tiny_red.Resp.Faults.{negative_bulk_length_panics}
use tiny_red.Server.Connection.Requests.{
  get_request_in_resp, request, parse_request, parse_request-get_request_in_resp,
}

abbrev words : List Bytes
words = codes "echo" ∷ codes "a\r\nb" ∷ [] ∷ []

unmarshal-marshal_array_example :
    unmarshal_array (marshal_array (map marshal_bulk_string words) ++ codes "*1")
    ≡ ok (words, codes "*1")
unmarshal-marshal_array_example =
    unmarshal-marshal_array words (codes "*1") (omega arith, (omega arith, (omega arith, _)))
      (omega arith)

read_response-marshal_response_example :
    read_response (marshal_response (Response.integer (negsuc 41)) ++ codes "+")
    ≡ ok (Response.integer (negsuc 41), codes "+")
read_response-marshal_response_example =
    read_response-marshal_response (Response.integer (negsuc 41)) (codes "+")
      (omega arith, omega arith)

parse_request-get_request_in_resp_example :
    parse_request (
      get_request_in_resp (record { command = codes "set"; arguments = codes "k" ∷ codes "v" ∷ [] })
      ++ [])
    ≡ request (record { command = codes "set"; arguments = codes "k" ∷ codes "v" ∷ [] }) []
unfolding to_upper tiny_red.Base.to_lower
parse_request-get_request_in_resp_example =
    parse_request-get_request_in_resp
      (record { command = codes "set"; arguments = codes "k" ∷ codes "v" ∷ [] }) []
      (omega arith, (omega arith, (omega arith, _))) (omega arith)

negative_bulk_length_panics_example :
    unmarshal_bulk_string (b'$' ∷ (itoa (negsuc 0) ++ (crlf ++ b'*' ∷ []))) ≡ panic
negative_bulk_length_panics_example =
    negative_bulk_length_panics 0 b'*' [] (omega arith, omega arith)
