-- ===== src/Replica.antt =====
-- server/server.go: `processMasterCommands`, the loop of a replica over its master's stream.
pub mod Stream
use tiny_red.Base.{
  ℕ, zero, suc, ◌+◌, ◌&&◌, Bool, true, false, List, [], ◌∷◌, Bytes, codes, bytes_eq, to_lower,
  length, get_or, ℤ, pos, ◌+ℤ◌, wrap_64, ◌==◌, if◌then◌else◌,
}
use tiny_red.Strconv.{itoa}
use tiny_red.Resp.Reader.{Reader}
use tiny_red.Server.Types.{
  Request, internal, normal, Conn, Client, Server, Reply, replied, client_error, internal_error,
  panics, blocks,
}
use tiny_red.Server.Clients.{put_client, write_to}
use tiny_red.Server.Execute.{Handlers, execute}
use tiny_red.Server.Connection.Requests.{
  get_request_in_resp, Parsed, request, connection_error, expected_array, protocol_error,
  empty_command, parse_panics, parse_request,
}

-- Why the loop ends: no request can be read, a write fails, an execution returns an error or panics,
-- or BLPOP blocks. `unfinished` is a lack of fuel.
pub data Ended : Type 0 where
  unreadable unwritable refused crashes hangs unfinished : Ended

-- A round goes on or ends the loop.
pub data Round (S : Type 0) : Type 0 where
  goes : S → Round S
  ends : Ended → S → Round S

abbrev pub next : {S : Type 0} → Round S → (S → Ended × S) → Ended × S
next (goes s) f = f s
next (ends e s) f = (e, s)

-- `REPLCONF GETACK`, in any case, with one more argument.
unfoldable pub asks_offset : Request → Bool
asks_offset req =
    bytes_eq req.command (codes "replconf")
    && (length req.arguments == 2
        && bytes_eq (to_lower (get_or req.arguments 0 [])) (codes "getack"))

module _ {Z : Type 0} where
  -- The offset, an int64, moves by the length of the request.
  unfoldable pub advance : Request → Server Z → Server Z
  advance req s =
      let node = s.node_config in
      let offset = wrap_64 (node.replication_offset +ℤ pos (length (get_request_in_resp req))) in
      record s { node_config = record node { replication_offset = offset } }

  unfoldable pub acknowledgement : Server Z → Bytes
  acknowledgement s = get_request_in_resp (record {
    command = codes "replconf";
    arguments = codes "ACK" ∷ itoa s.node_config.replication_offset ∷ [];
  })

  unfoldable pub after_execution : Request → Reply → Server Z → Round (Server Z)
  after_execution req (replied data') s = goes (advance req s)
  after_execution req (client_error e) s = ends refused s
  after_execution req internal_error s = ends refused s
  after_execution req panics s = ends crashes s
  after_execution req (blocks w limit) s = ends hangs s

  unfoldable pub follow_one : Handlers Z → Request → ℕ → Server Z → Round (Server Z)
  unfolding after_execution
  follow_one handlers req c s =
      let (reply, s') = execute handlers req c s in
      if asks_offset req
      then (if (s.object c).conn.writable
          then goes (advance req (write_to c (acknowledgement s) s))
          else ends unwritable s)
      else after_execution req reply s'

  -- Each round reads one request: one round more than there are requests is enough.
  unfoldable pub follow : Handlers Z → ℕ → Reader → ℕ → Server Z → Ended × Server Z
  follow handlers zero r c s = (unfinished, s)
  follow handlers (suc fuel) r c s = elim (parse_request r) [
    | request req rest ↦ next (follow_one handlers req c s) (λ t. follow handlers fuel rest c t)
    | connection_error e ↦ (unreadable, s)
    | expected_array n ↦ (unreadable, s)
    | protocol_error e ↦ (unreadable, s)
    | empty_command ↦ (unreadable, s)
    | parse_panics ↦ (crashes, s)
  ]

  -- The client of the master's connection, which is not in the map of clients.
  unfoldable pub master_client : Conn → Server Z → Server Z
  unfolding put_client
  master_client conn s =
      let id = s.client_id_counter + 1 in
      let client : Client = record {
        client_type = internal;
        mode = normal;
        conn = conn;
        command_queue = [];
        watched_keys = [];
        dirty_compare_and_set = false;
        subscribed_channels = [];
      } in
      record (put_client id client s) { client_id_counter = id }

  unfoldable pub process_master_commands :
      Handlers Z → ℕ → Conn → Reader → Server Z → Ended × Server Z
  process_master_commands handlers fuel conn r s =
      let t = master_client conn s in follow handlers fuel r t.client_id_counter t
