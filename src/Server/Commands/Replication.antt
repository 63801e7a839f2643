-- ===== src/Server/Commands/Replication.antt =====
-- server/commad_handlers.go: PSYNC, REPLCONF, WAIT and INFO.
use tiny_red.Base.{
  ℕ, Option, none, some, ◌++◌, Bytes, codes, length, ℤ, pos, negsuc, ltb, if◌then◌else◌,
}
use tiny_red.Strconv.{itoa, atoi}
use tiny_red.Resp.Marshal.{marshal_simple_string, marshal_bulk_string, marshal_integer}
use tiny_red.Server.Types.{Role, master, replica, Reply, replied, Handler}
use tiny_red.Server.Commands.Arguments.{with_argument, not_integer_err, with_store}
use tiny_red.Server.Commands.Sessions.{ok_reply}

role_text : Role → Bytes
role_text master = codes "master"
role_text replica = codes "slave"

wait_for : ℕ → Option ℤ → Reply
wait_for available none = not_integer_err
wait_for available (some (negsuc n)) = not_integer_err
wait_for available (some (pos n)) =
    replied (marshal_integer (pos (if ltb available n then available else n)))

module _ {Z : Type 0} where
  unfoldable pub handle_psync : Handler Z
  unfolding with_store
  handle_psync req c s =
      let offset = itoa s.node_config.replication_offset in
      let text = codes "FULLRESYNC " ++ (s.node_config.replication_id ++ (codes " " ++ offset)) in
      with_store (replied (marshal_simple_string text), s.store) s

  unfoldable pub handle_repl_conf : Handler Z
  unfolding with_store
  handle_repl_conf req c s = with_store (ok_reply, s.store) s

  unfoldable pub handle_wait : Handler Z
  unfolding wait_for with_argument with_store
  handle_wait req c s =
      with_store
        (with_argument 0 req
          (λ replicas. (wait_for (length s.node_config.replica_nodes) (atoi replicas), s.store))
          s.store)
        s

  unfoldable pub handle_info : Handler Z
  unfolding role_text with_store
  handle_info req c s =
      let offset = itoa s.node_config.replication_offset in
      let role = codes "role:" ++ (role_text s.node_config.role ++ codes "\n") in
      let id = codes "master_replid:" ++ (s.node_config.replication_id ++ codes "\n") in
      let text = role ++ (id ++ (codes "master_repl_offset:" ++ (offset ++ codes "\n"))) in
      with_store (replied (marshal_bulk_string text), s.store) s
