-- ===== src/Server/Commands/SortedSets.antt =====
-- server/commad_handlers.go: ZADD, ZCARD, ZRANGE, ZRANK, ZSCORE and ZREM.
use tiny_red.Base.{
  ℕ, ◌%◌, Bool, Option, none, some, List, [], ◌∷◌, map, Bytes, length, drop, ℤ, pos, ◌+ℤ◌, ◌-ℤ◌,
  ltb_ℤ, ◌==◌, if◌then◌else◌,
}
use tiny_red.Base.Map
use tiny_red.Base.Map.{Map}
use tiny_red.Strconv.{atoi}
use tiny_red.Resp.Types.{
  err_type, wrong_type_code, error_message_wrong_type, error_message_not_float,
}
use tiny_red.Resp.Marshal.{
  marshal_bulk_string, marshal_null_bulk_string, marshal_integer, marshal_array,
  err_wrong_arg_count,
}
use tiny_red.Store.Types.{sorted, Entry, Store}
use tiny_red.Store.Entries
use tiny_red.Store.Entries.{Updated, fails, absent, becomes, Outcome, done, failed}
use tiny_red.Store.SkipList.{Scores, SkipList}
use tiny_red.Store.SkipList.Queries
use tiny_red.Store.SortedSets.{
  ZSet, ZSetEntry, ZAddFailure, wrong_kind, no_zset, add_panics, AsZSet, wrong_type, not_zset,
  zset_of, as_zset, z_add,
}
use tiny_red.Server.Types.{Reply, replied, internal_error, panics, Handler}
use tiny_red.Server.Commands.Arguments.{
  with_argument, client_err, not_integer_err, bulk_array, with_store,
}
use tiny_red.Server.Commands.Lists.{normalize_index}

-- Scores with `strconv.ParseFloat` and `strconv.FormatFloat(score, 'f', -1, 64)`.
pub record ScoreTexts (F : Type 0) : Type 0 where
  pub scores : Scores F
  pub parse_float : Bytes → Option F
  pub format_float : F → Bytes

pub not_float_err : Reply
not_float_err = client_err err_type error_message_not_float

pub wrong_kind_err : Reply
wrong_kind_err = client_err err_type error_message_wrong_type

pub wrong_kind_code_err : Reply
wrong_kind_code_err = client_err wrong_type_code error_message_wrong_type

unfoldable pub added_reply : Outcome ZAddFailure ℤ → Reply
unfolding wrong_kind_err
added_reply (done n) = replied (marshal_integer n)
added_reply (failed wrong_kind) = wrong_kind_err
added_reply (failed no_zset) = internal_error
added_reply (failed add_panics) = panics

rank_reply : Option ℤ → Reply
rank_reply none = panics
rank_reply (some rank) = replied (marshal_integer (rank -ℤ pos 1))

module _ {F : Type 0} (texts : ScoreTexts F) where
  unfoldable pub parse_pairs : List Bytes → Option (List (ZSetEntry F))
  parse_pairs [] = some []
  parse_pairs (score ∷ []) = none
  parse_pairs (score ∷ member ∷ rest) =
      let more = parse_pairs rest in
      elim (texts.parse_float score) [
        | none ↦ none
        | some x ↦ elim more [
          | none ↦ none
          | some pairs ↦ some (record { member = member; score = x } ∷ pairs)
        ]
      ]

  add_pairs :
      (ℕ → ℕ) → Bytes → Option (List (ZSetEntry F)) → Store (ZSet F) → Reply × Store (ZSet F)
  unfolding added_reply not_float_err
  add_pairs random key none st = (not_float_err, st)
  add_pairs random key (some pairs) st =
      let (r, st') = z_add texts.scores random key pairs st in (added_reply r, st')

  -- `random` has the levels that `randomLevel` returns, in their order.
  unfoldable pub handle_zadd : (ℕ → ℕ) → Handler (ZSet F)
  unfolding add_pairs parse_pairs with_argument with_store
  handle_zadd random req c s =
      with_store
        (with_argument 0 req
          (λ key.
            let arguments = drop 1 req.arguments in
            if length arguments % 2 == 0
            then add_pairs random key (parse_pairs arguments) s.store
            else (client_err err_type (err_wrong_arg_count req.command), s.store))
          s.store)
        s

  -- A command that reads a sorted set: what it replies without the key, for a wrong kind of entry, and
  -- of the set.
  unfoldable pub read_zset :
      Bytes → Reply → Reply → (ZSet F → Reply) → Store (ZSet F) → Reply × Store (ZSet F)
  read_zset key missing wrong reply st = elim (Entries.get key st) [
    | none ↦ (missing, st)
    | some e ↦ elim (as_zset e) [
      | wrong_type ↦ (wrong, st)
      | not_zset ↦ (internal_error, st)
      | zset_of z ↦ (reply z, st)
    ]
  ]

  member_reply : Bytes → (F → Reply) → ZSet F → Reply
  member_reply member reply z = elim (Map.lookup member z.hash_map) [
    | none ↦ replied marshal_null_bulk_string
    | some score ↦ reply score
  ]

  unfoldable pub handle_zrank : Handler (ZSet F)
  unfolding read_zset member_reply rank_reply wrong_kind_err with_argument with_store
  handle_zrank req c s =
      with_store
        (with_argument 0 req
          (λ key.
            with_argument 1 req
              (λ member.
                read_zset key (replied marshal_null_bulk_string) wrong_kind_err
                  (λ z.
                    member_reply member
                      (λ score.
                        rank_reply (Queries.get_rank texts.scores member score z.z_skip_list))
                      z)
                  s.store)
              s.store)
          s.store)
        s

  unfoldable pub handle_zscore : Handler (ZSet F)
  unfolding read_zset member_reply wrong_kind_err with_argument with_store
  handle_zscore req c s =
      with_store
        (with_argument 0 req
          (λ key.
            with_argument 1 req
              (λ member.
                read_zset key (replied marshal_null_bulk_string) wrong_kind_err
                  (member_reply member
                    (λ score. replied (marshal_bulk_string (texts.format_float score))))
                  s.store)
              s.store)
          s.store)
        s

  unfoldable pub handle_zcard : Handler (ZSet F)
  unfolding read_zset wrong_kind_code_err with_argument with_store
  handle_zcard req c s =
      with_store
        (with_argument 0 req
          (λ key.
            read_zset key (replied (marshal_integer (pos 0))) wrong_kind_code_err
              (λ z. replied (marshal_integer (pos (length z.hash_map)))) s.store)
          s.store)
        s

  members_reply : SkipList F → Option (List ℕ) → Reply
  members_reply list none = panics
  members_reply list (some ids) = replied (bulk_array (map (λ id. (list.nodes id).member) ids))

  unfoldable pub range_members : ℤ → ℤ → ZSet F → Reply
  unfolding members_reply
  range_members start end z =
      let n = length z.hash_map in
      let first = normalize_index start n in
      let last = normalize_index end n in
      if ltb_ℤ last first
      then replied (marshal_array [])
      else members_reply z.z_skip_list
          (Queries.range (first +ℤ pos 1) (last +ℤ pos 1) z.z_skip_list)

  zrange_bounds : Bytes → Option ℤ → Option ℤ → Store (ZSet F) → Reply × Store (ZSet F)
  unfolding read_zset range_members wrong_kind_code_err
  zrange_bounds key none end st = (not_integer_err, st)
  zrange_bounds key (some start) none st = (not_integer_err, st)
  zrange_bounds key (some start) (some end) st =
      read_zset key (replied (marshal_array [])) wrong_kind_code_err (range_members start end) st

  unfoldable pub handle_zrange : Handler (ZSet F)
  unfolding zrange_bounds with_argument with_store
  handle_zrange req c s =
      with_store
        (with_argument 0 req
          (λ key.
            with_argument 1 req
              (λ start.
                with_argument 2 req (λ end. zrange_bounds key (atoi start) (atoi end) s.store)
                  s.store)
              s.store)
          s.store)
        s

  unfoldable pub removed_entry :
      Bytes
      → F
      → Entry (ZSet F)
      → ZSet F
      → Option (Bool × SkipList F)
      → Updated (ZSet F) ZAddFailure ℤ
  removed_entry member score e z none = fails add_panics
  removed_entry member score e z (some (deleted, list)) =
      becomes
        (record e {
          value = sorted (record { hash_map = Map.erase member z.hash_map; z_skip_list = list });
        })
        (pos 1)

  unfoldable pub remove_from : Bytes → Entry (ZSet F) → AsZSet F → Updated (ZSet F) ZAddFailure ℤ
  unfolding removed_entry
  remove_from member e wrong_type = fails wrong_kind
  remove_from member e not_zset = fails no_zset
  remove_from member e (zset_of z) = elim (Map.lookup member z.hash_map) [
    | none ↦ becomes e (pos 0)
    | some score ↦
        removed_entry member score e z (Queries.delete texts.scores member score z.z_skip_list)
  ]

  -- The function that ZREM hands to `Update`.
  unfoldable pub remove_update : Bytes → Option (Entry (ZSet F)) → Updated (ZSet F) ZAddFailure ℤ
  unfolding remove_from
  remove_update member none = absent (pos 0)
  remove_update member (some e) = remove_from member e (as_zset e)

  unfoldable pub handle_zrem : Handler (ZSet F)
  unfolding remove_update added_reply with_argument with_store
  handle_zrem req c s =
      with_store
        (with_argument 0 req
          (λ key.
            with_argument 1 req
              (λ member.
                let (r, st) = Entries.update key (remove_update member) s.store in
                (added_reply r, st))
              s.store)
          s.store)
        s
