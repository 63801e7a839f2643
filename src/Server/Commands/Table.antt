-- ===== src/Server/Commands/Table.antt =====
-- server/server.go: the table `CommandHandlers` that `NewServer` builds.
use tiny_red.Base.{ℕ, Bool, true, false, Option, none, some, ◌∷◌, codes}
use tiny_red.Base.Map
use tiny_red.Base.Map.{Map}
use tiny_red.Server.Types.{Handler, CommandEntry}
use tiny_red.Server.Execute.{Handlers}
use tiny_red.Server.Commands.Strings.{
  handle_echo, handle_ping, handle_set, handle_get, handle_incr, handle_keys, handle_config,
}
use tiny_red.Server.Commands.Lists.{
  Floats, handle_rpush, handle_lpush, handle_lrange, handle_lpop, handle_llen, handle_blpop,
}
use tiny_red.Server.Commands.Sessions.{
  handle_multi, handle_discard, handle_watch, handle_unwatch, handle_subscribe, handle_unsubscribe,
  handle_publish,
}
use tiny_red.Server.Commands.Replication.{handle_psync, handle_repl_conf, handle_wait, handle_info}

entry_for : {Z : Type 0} → Handler Z → ℕ → Option ℕ → Bool → CommandEntry Z
entry_for handler min_args max_args is_write = record {
  handler = handler;
  min_args = min_args;
  max_args = max_args;
  is_write = is_write;
}

-- The entries of the commands that are no sorted-set or geospatial commands; `more` stands for those.
unfoldable pub command_table :
    (F : Floats) {Z : Type 0} → Map (CommandEntry Z) → Map (CommandEntry Z)
unfolding entry_for
command_table F more =
    (codes "echo", entry_for handle_echo 1 (some 1) false)
    ∷ (codes "set", entry_for handle_set 2 none true)
    ∷ (codes "get", entry_for handle_get 1 none false)
    ∷ (codes "ping", entry_for handle_ping 0 none false)
    ∷ (codes "config", entry_for handle_config 2 none false)
    ∷ (codes "keys", entry_for handle_keys 1 none false)
    ∷ (codes "rpush", entry_for handle_rpush 2 none true)
    ∷ (codes "lpush", entry_for handle_lpush 2 none true)
    ∷ (codes "lrange", entry_for handle_lrange 3 none false)
    ∷ (codes "lpop", entry_for handle_lpop 1 (some 2) true)
    ∷ (codes "llen", entry_for handle_llen 1 none false)
    ∷ (codes "blpop", entry_for (handle_blpop F) 2 none true)
    ∷ (codes "incr", entry_for handle_incr 1 (some 1) true)
    ∷ (codes "multi", entry_for handle_multi 0 (some 0) false)
    ∷ (codes "discard", entry_for handle_discard 0 (some 0) false)
    ∷ (codes "watch", entry_for handle_watch 1 none false)
    ∷ (codes "unwatch", entry_for handle_unwatch 0 (some 0) false)
    ∷ (codes "subscribe", entry_for handle_subscribe 1 (some 1) false)
    ∷ (codes "publish", entry_for handle_publish 1 (some 2) false)
    ∷ (codes "unsubscribe", entry_for handle_unsubscribe 1 (some 1) false)
    ∷ (codes "info", entry_for handle_info 0 none false)
    ∷ (codes "replconf", entry_for handle_repl_conf 2 (some 2) false)
    ∷ (codes "psync", entry_for handle_psync 2 (some 2) false)
    ∷ (codes "wait", entry_for handle_wait 2 (some 2) false)
    ∷ more

unfoldable pub command_handlers : (F : Floats) {Z : Type 0} → Map (CommandEntry Z) → Handlers Z
command_handlers F more name = Map.lookup name (command_table F more)
