-- ===== src/Replica/Stream.antt =====
-- server/server.go: what a replica makes of the requests that its master sent.
use tiny_red.Base.{ℕ, suc, ◌<◌, List, [], ◌∷◌, ◌++◌, Bytes, to_upper, to_lower, length, All}
use tiny_red.Strconv.{half_32, half_64}
use tiny_red.Server.Types.{Request, Server}
use tiny_red.Server.Execute.{Handlers}
use tiny_red.Server.Connection.Requests.{get_request_in_resp}
use tiny_red.Replica.{Ended, unreadable, next, follow_one}

-- The bytes that a master sends for requests.
unfoldable pub stream_of : List Request → Bytes
stream_of [] = []
stream_of (req ∷ reqs) = get_request_in_resp req ++ stream_of reqs

-- The lengths that the protocol can carry.
abbrev pub IsSendable : Request → Type 0
IsSendable req =
    All (λ v. length v < half_32) (to_upper req.command ∷ req.arguments)
    × (suc (length req.arguments) < half_64)

-- Requests followed one after another, until one ends the loop or the stream ends.
unfoldable pub follow_all :
    {Z : Type 0} → Handlers Z → List Request → ℕ → Server Z → Ended × Server Z
follow_all handlers [] c s = (unreadable, s)
follow_all handlers (req ∷ reqs) c s =
    next
      (follow_one handlers (record { command = to_lower req.command; arguments = req.arguments }) c
        s)
      (λ t. follow_all handlers reqs c t)
