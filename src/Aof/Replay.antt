-- ===== src/Aof/Replay.antt =====
-- aof/aof.go: what is read back from a log that `AppendCmd` wrote.
use tiny_red.Base.{
  ℕ, suc, ◌<◌, ◌≡◌, refl, List, [], ◌∷◌, ◌++◌, Bytes, length, All, to_upper, to_lower,
  to_lower-to_upper,
}
use tiny_red.Strconv.{half_32, half_64}
use tiny_red.Resp.RoundTrip.{unmarshal-marshal_array}
use tiny_red.Server.Types.{Request, Server}
use tiny_red.Server.Execute.{Handlers}
use tiny_red.Server.Connection.Requests.{command_in_resp}
use tiny_red.Aof.{Loaded, loaded, go_on, replay_array, load, replay_command, replay}

-- The log of requests, one behind the other.
unfoldable pub log_of : List Request → Bytes
log_of [] = []
log_of (req ∷ reqs) = command_in_resp (to_upper req.command) req.arguments ++ log_of reqs

-- The lengths that the protocol can carry.
abbrev pub IsLoggable : Request → Type 0
IsLoggable req =
    All (λ v. length v < half_32) (to_upper req.command ∷ req.arguments)
    × (suc (length req.arguments) < half_64)

-- Requests replayed one after another, until one fails.
unfoldable pub replay_all : {Z : Type 0} → Handlers Z → List Request → Server Z → Loaded (Server Z)
replay_all handlers [] s = loaded s
replay_all handlers (req ∷ reqs) s =
    go_on
      (replay_command handlers
        (record { command = to_lower req.command; arguments = req.arguments }) s)
      (λ t. replay_all handlers reqs t)

-- One round reads one command of the log.
load_round :
    {Z : Type 0} (handlers : Handlers Z) (req : Request) (rest : Bytes) (fuel : ℕ) (s : Server Z)
    → IsLoggable req
    → load
        (replay handlers)
        (suc fuel)
        (command_in_resp (to_upper req.command) req.arguments ++ rest)
        s
      ≡ go_on
          (replay_command handlers
            (record { command = to_lower req.command; arguments = req.arguments })
            s)
          (λ t. load (replay handlers) fuel rest t)
unfolding load command_in_resp replay_array replay
load_round handlers req rest fuel s (fit, few) =
    let e = unmarshal-marshal_array (to_upper req.command ∷ req.arguments) rest fit few in
    rw (e, load, to_lower-to_upper) refl
