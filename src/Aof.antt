-- ===== src/Aof.antt =====
-- aof/aof.go: `Load`; server/server.go: the function that `StartMaster` replays a log with.
pub mod Replay
pub mod Manifest
pub mod Fields
use tiny_red.Base.{
  ℕ, zero, suc, ◌+◌, Bool, true, false, Option, none, some, List, [], ◌∷◌, Bytes, to_lower,
}
use tiny_red.Resp.Types.{eof, unexpected_eof, Error, unwrapped, reading, Result, ok, err, panic}
use tiny_red.Resp.Reader.{Reader}
use tiny_red.Resp.Unmarshal.{unmarshal_array}
use tiny_red.Server.Types.{
  Request, internal, normal, Client, Server, Reply, replied, client_error, internal_error, panics,
  blocks,
}
use tiny_red.Server.Clients.{put_client}
use tiny_red.Server.Execute.{Handlers, execute}

-- What the replay of one command comes to.
pub data Replayed (S : Type 0) : Type 0 where
  replayed : S → Replayed S
  refused crashed hangs : Replayed S

-- What `Load` comes to; `unfinished` is a lack of fuel.
pub data Loaded (S : Type 0) : Type 0 where
  loaded : S → Loaded S
  parse_error : Error → Loaded S
  empty_array replay_error load_crashes load_hangs unfinished : Loaded S

-- errors.Is(err, io.EOF)
unfoldable pub is_eof : Error → Bool
is_eof (unwrapped eof) = true
is_eof (reading eof) = true
is_eof _ = false

module _ {S : Type 0} where
  unfoldable pub go_on : Replayed S → (S → Loaded S) → Loaded S
  go_on (replayed s) next = next s
  go_on refused next = replay_error
  go_on crashed next = load_crashes
  go_on hangs next = load_hangs

  unfoldable pub replay_array :
      (List Bytes → S → Replayed S) → List Bytes → S → (S → Loaded S) → Loaded S
  unfolding go_on
  replay_array replay [] s next = empty_array
  replay_array replay (command ∷ arguments) s next = go_on (replay (command ∷ arguments) s) next

  unfoldable pub end_of_log : Bool → Error → S → Loaded S
  end_of_log true e s = loaded s
  end_of_log false e s = parse_error e

  -- Each round reads one command, so that the number of commands and one more rounds are enough.
  unfoldable pub load : (List Bytes → S → Replayed S) → ℕ → Reader → S → Loaded S
  unfolding replay_array end_of_log is_eof
  load replay zero r s = unfinished
  load replay (suc fuel) r s = elim (unmarshal_array r) [
    | ok (args, rest) ↦ replay_array replay args s (λ t. load replay fuel rest t)
    | err e ↦ end_of_log (is_eof e) e s
    | panic ↦ load_crashes
  ]

module _ {Z : Type 0} where
  unfoldable pub replay_reply : Reply → Server Z → Replayed (Server Z)
  replay_reply (replied data') s = replayed s
  replay_reply (client_error e) s = refused
  replay_reply internal_error s = refused
  replay_reply panics s = crashed
  replay_reply (blocks w limit) s = hangs

  -- The client of one replayed command, which no map of the server holds.
  unfoldable pub internal_client : Server Z → Server Z
  unfolding put_client
  internal_client s =
      let id = s.client_id_counter + 1 in
      let client : Client = record {
        client_type = internal;
        mode = normal;
        conn = record { writable = false; written = [] };
        command_queue = [];
        watched_keys = [];
        dirty_compare_and_set = false;
        subscribed_channels = [];
      } in
      record (put_client id client s) { client_id_counter = id }

  unfoldable pub replay_command : Handlers Z → Request → Server Z → Replayed (Server Z)
  unfolding replay_reply
  replay_command handlers req s =
      let t = internal_client s in
      let (reply, t') = execute handlers req t.client_id_counter t in replay_reply reply t'

  unfoldable pub replay : Handlers Z → List Bytes → Server Z → Replayed (Server Z)
  replay handlers [] s = crashed
  replay handlers (command ∷ arguments) s =
      replay_command handlers (record { command = to_lower command; arguments = arguments }) s
