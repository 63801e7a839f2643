-- ===== src/Examples/SortedSets.antt =====
-- The theorems on sorted sets at a set with numbers as scores.
use tiny_red.Base.{
  ℕ, suc, ◌+◌, ◌%◌, ◌≡◌, refl, none, some, List, [], ◌∷◌, arith, codes, Bytes, bytes_eq, length,
  if◌then◌else◌, pos,
}
use tiny_red.Base.Map
use tiny_red.Store.Types.{Entry, sorted, sorted_set_entry, Store, new_store}
use tiny_red.Store.Entries.{get, set, done}
use tiny_red.Store.SkipList.Order.{Scored}
use tiny_red.Store.SortedSets.{ZSet, ZSetEntry, new_zset, as_zset, z_add}
use tiny_red.Store.SortedSets.InStep.{Consistent, score_after}
use tiny_red.Store.SortedSets.Adding.{z_add-Consistent, new_zset-Consistent}
use tiny_red.Store.SortedSets.Members.{score_of}
use tiny_red.Store.SortedSets.InStep.{is_new}
use tiny_red.Resp.Marshal.{marshal_integer}
use tiny_red.Server.Types.{Server, replied}
use tiny_red.Server.Commands.Arguments.{put_store}
use tiny_red.Server.Commands.SortedSets.{ScoreTexts, handle_zrem}
use tiny_red.Server.Commands.Removal.{handle_zrem_lem}
use tiny_red.Examples.Fixtures.{stranger, server}
use tiny_red.Examples.SkipLists.{points, points_laws, with_one, one_entry, with_one-Represents}

-- Two members, the first of which gets a second score.
abbrev pairs : List (ZSetEntry ℕ)
pairs =
    record { member = codes "ann"; score = 7 }
    ∷ record { member = codes "bob"; score = 5 }
    ∷ record { member = codes "ann"; score = 3 }
    ∷ []

abbrev empty_entry : Entry (ZSet ℕ)
empty_entry = record {
  entry_type = sorted_set_entry;
  value = sorted (new_zset points);
  expire_at = none;
}

abbrev board : Store (ZSet ℕ)
board = set (codes "board") empty_entry new_store

abbrev levels : ℕ → ℕ
levels j = suc (j % 2)

z_add-Consistent_example :
    (n : ℕ) × (t : ZSet ℕ) × (fs : List (Scored ℕ)) × (z_add points levels
        (codes "board")
        pairs
        board
      ≡ (done (pos n), set (codes "board") (record empty_entry { value = sorted t }) board))
    × Consistent points points_laws t fs
    × ((m : Bytes)
        → Map.lookup m t.hash_map ≡ score_after m pairs (Map.lookup m (new_zset points).hash_map))
    × (n + length (let r : List (Scored ℕ) = [] in r) ≡ length fs)
unfolding get set new_store Map.lookup Map.insert bytes_eq as_zset
z_add-Consistent_example =
    z_add-Consistent points points_laws levels (codes "board") pairs board empty_entry
      (new_zset points) [] (λ j. (omega arith, omega arith)) (tt, (tt, (tt, tt))) refl refl
      (new_zset-Consistent points points_laws)

last_score_counts : score_after (codes "ann") pairs none ≡ some 3
unfolding score_after bytes_eq
last_score_counts = refl

-- A set of one member, under the key "board".
abbrev one_member : ZSet ℕ
one_member = record { hash_map = (codes "bob", 7) ∷ []; z_skip_list = with_one }

abbrev one_entry_there : Entry (ZSet ℕ)
one_entry_there = record {
  entry_type = sorted_set_entry;
  value = sorted one_member;
  expire_at = none;
}

abbrev points_texts : ScoreTexts ℕ
points_texts = record { scores = points; parse_float = λ text. none; format_float = λ score. [] }

abbrev board_server : Server (ZSet ℕ)
board_server = record {
  store = set (codes "board") one_entry_there new_store;
  object = λ id. stranger;
  clients = [];
  watcher_clients = [];
  subscribers = [];
  client_id_counter = 0;
  config = server.config;
  node_config = server.node_config;
  aof = none;
  readers = 0;
  now = pos 1000;
}

one_member-Consistent : Consistent points points_laws one_member one_entry
unfolding Map.lookup score_of
one_member-Consistent = record {
  ranked = record { order = (tt, tt); numbers = (tt, tt); unique = (refl, tt) };
  represents = with_one-Represents;
  in_step = λ m. refl;
}

handle_zrem_lem_example :
    (n : ℕ) × (t : ZSet ℕ) × (ds : List (Scored ℕ)) × (handle_zrem points_texts
        (record { command = codes "zrem"; arguments = codes "board" ∷ codes "bob" ∷ [] })
        0
        board_server
      ≡ (
        replied (marshal_integer (pos n)),
        put_store
            (set (codes "board") (record one_entry_there { value = sorted t }) board_server.store)
            board_server,
      ))
    × Consistent points points_laws t ds
    × ((j : Bytes)
        → score_of j ds ≡ (if bytes_eq (codes "bob") j then none else score_of j one_entry))
    × (n + is_new (score_of (codes "bob") one_entry) ≡ 1)
    × (n + length ds ≡ length one_entry)
unfolding get set new_store Map.lookup Map.insert bytes_eq as_zset
handle_zrem_lem_example =
    handle_zrem_lem points_texts points_laws (codes "zrem") (codes "board") (codes "bob") 0
      board_server one_entry_there one_member one_entry refl refl one_member-Consistent
