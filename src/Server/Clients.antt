-- ===== src/Server/Clients.antt =====
-- server/server.go: the client objects, `AddClient`, `CloseConnection`, `UnwatchAll` and
-- `ResetTransactionState`.
use tiny_red.Base.{ℕ, ◌+◌, Bool, true, false, List, [], ◌∷◌, ◌++◌, Bytes, ◌==◌, if◌then◌else◌}
use tiny_red.Base.Map
use tiny_red.Base.Map.{Map}
use tiny_red.Store.Types.{slice_of}
use tiny_red.Server.Types.{external, normal, Conn, Client, Server}

-- slices.Contains
unfoldable pub contains : ℕ → List ℕ → Bool
contains id [] = false
contains id (x ∷ xs) = let rest = contains id xs in if x == id then true else rest

-- slices.Index and slices.Delete at that index; the list as it is where the index is -1.
unfoldable pub delete_first : ℕ → List ℕ → List ℕ
delete_first id [] = []
delete_first id (x ∷ xs) = let rest = delete_first id xs in if x == id then xs else x ∷ rest

-- delete(m, id) of the map of clients.
unfoldable pub delete_all : ℕ → List ℕ → List ℕ
delete_all id [] = []
delete_all id (x ∷ xs) = let rest = delete_all id xs in if x == id then rest else x ∷ rest

-- A list of identifiers is kept under its key, and an empty one is deleted from the map.
unfoldable pub put_ids : Bytes → List ℕ → Map (List ℕ) → Map (List ℕ)
put_ids key [] m = Map.erase key m
put_ids key (x ∷ xs) m = Map.insert key (x ∷ xs) m

unfoldable pub ids_at : Bytes → Map (List ℕ) → List ℕ
ids_at key m = slice_of (Map.lookup key m)

-- The removal of an identifier from the list of a key, as `UnwatchAll` and `HandleUnsubscribe` do it.
unfoldable pub forget_id : ℕ → Bytes → Map (List ℕ) → Map (List ℕ)
forget_id id key m =
    let ids = ids_at key m in
    let rest = put_ids key (delete_first id ids) m in if contains id ids then rest else m

-- The loop of `UnwatchAll` over the watched keys.
unfoldable pub forget_keys : ℕ → List Bytes → Map (List ℕ) → Map (List ℕ)
forget_keys id [] m = m
forget_keys id (key ∷ keys) m = forget_keys id keys (forget_id id key m)

-- conn.Write(data)
unfoldable pub write : Bytes → Conn → Conn
write bytes conn = if conn.writable then (record conn { written = conn.written ++ bytes }) else conn

module _ {Z : Type 0} where
  -- The object behind a pointer gets new fields.
  unfoldable pub put_client : ℕ → Client → Server Z → Server Z
  put_client id c s = record s { object = λ j. if j == id then c else s.object j }

  unfoldable pub add_client : Conn → Server Z → ℕ × Server Z
  unfolding put_client
  add_client conn s =
      let id = s.client_id_counter + 1 in
      let client : Client = record {
        client_type = external;
        mode = normal;
        conn = conn;
        command_queue = [];
        watched_keys = [];
        dirty_compare_and_set = false;
        subscribed_channels = [];
      } in
      (
        id,
        record (put_client id client s) { clients = s.clients ++ id ∷ []; client_id_counter = id },
      )

  unfoldable pub close_connection : ℕ → Server Z → Server Z
  unfolding put_client delete_all
  close_connection id s =
      let c = s.object id in
      let closed =
        put_client id (record c { conn = record { writable = false; written = c.conn.written } })
          s in
      record closed { clients = delete_all id s.clients }

  unfoldable pub write_to : ℕ → Bytes → Server Z → Server Z
  unfolding put_client write
  write_to id bytes s =
      let c = s.object id in put_client id (record c { conn = write bytes c.conn }) s

  unfoldable pub unwatch_all : ℕ → Server Z → Server Z
  unwatch_all id s =
      let c = s.object id in
      put_client id (record c { watched_keys = []; dirty_compare_and_set = false })
        (record s { watcher_clients = forget_keys id (Map.keys c.watched_keys) s.watcher_clients })

  unfoldable pub reset_transaction_state : ℕ → Server Z → Server Z
  reset_transaction_state id s =
      let s' = unwatch_all id s in
      put_client id (record (s'.object id) { command_queue = []; mode = normal }) s'
