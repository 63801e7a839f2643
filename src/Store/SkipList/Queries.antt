-- ===== src/Store/SkipList/Queries.antt =====
-- store/skip_list.go: `Delete`, `GetRank`, `GetByRank` and `Range`.
use tiny_red.Base.{
  ℕ, zero, suc, Bool, true, false, ◌&&◌, ◌||◌, Option, none, some, List, [], ◌∷◌, Bytes, bytes_eq,
  ℤ, pos, pos_part, ◌+ℤ◌, ◌-ℤ◌, ltb_ℤ, leb_ℤ, ◌==◌, if◌then◌else◌,
}
use tiny_red.Strconv.{◌>>=◌}
use tiny_red.Store.SkipList.{
  Scores, SkipListLevel, SkipList, skip_list_max_level, level_of, set_level, steps, search_path,
}

-- a == b, for integers.
abbrev pub eq_ℤ : ℤ → ℤ → Bool
eq_ℤ a b = leb_ℤ a b && leb_ℤ b a

-- Whether a pointer points to the node.
unfoldable pub points_to : Option ℕ → ℕ → Bool
points_to none target = false
points_to (some id) target = id == target

unfoldable pub at_least_one : ℤ → ℤ
at_least_one start = if ltb_ℤ start (pos 1) then pos 1 else start

unfoldable pub at_most : ℤ → ℤ → ℤ
at_most limit end = if ltb_ℤ limit end then limit else end

module _ {F : Type 0} where
  -- What becomes of a cell on level `i` in front of the node that is taken out.
  unfoldable pub unlinked_cell : SkipList F → ℕ → ℕ → SkipListLevel → Option SkipListLevel
  unfolding points_to
  unlinked_cell s i target cell =
      if points_to cell.forward target
      then (do
        next ← level_of s i target
        some (record { forward = next.forward; span = cell.span +ℤ (next.span -ℤ pos 1) }))
      else some (record cell { span = cell.span -ℤ pos 1 })

  unfoldable pub unlink_levels : ℕ → ℕ → List (ℕ × ℤ) → SkipList F → Option (SkipList F)
  unfolding unlinked_cell
  unlink_levels target i [] s = some s
  unlink_levels target i ((update, rank) ∷ path) s = do
    cell ← level_of s i update
    left ← unlinked_cell s i target cell
    unlink_levels target (suc i) path (set_level i left update s)

  module _ (scores : Scores F) where
    -- Whether the node has the score and the member.
    unfoldable pub matches : SkipList F → ℕ → Bytes → F → Bool
    matches s id member score =
        scores.equals (s.nodes id).score score && bytes_eq (s.nodes id).member member

    unfoldable pub unlink : ℕ → List (ℕ × ℤ) → SkipList F → Option (Bool × SkipList F)
    unfolding unlink_levels
    unlink target path s = do
      t ← unlink_levels target 0 path s
      some (true, record t { length = t.length -ℤ pos 1 })

    -- `Delete`
    unfoldable pub delete : Bytes → F → SkipList F → Option (Bool × SkipList F)
    unfolding search_path matches unlink
    delete member score s = do
      (current, rank, path) ← search_path scores s member score
      cell ← level_of s 0 current
      elim cell.forward [
        | none ↦ some (false, s)
        | some target ↦
            if matches s target member score then unlink target path s else some (false, s)
      ]

    -- `GetRank`, whose loop is that of `Insert` without the arrays.
    unfoldable pub get_rank : Bytes → F → SkipList F → Option ℤ
    unfolding search_path matches
    get_rank member score s = do
      (current, rank, path) ← search_path scores s member score
      cell ← level_of s 0 current
      elim cell.forward [
        | none ↦ some (pos 0)
        | some node ↦ some (if matches s node member score then rank +ℤ pos 1 else pos 0)
      ]

  -- The inner loop of `GetByRank`.
  unfoldable pub walk_rank : ℕ → SkipList F → ℕ → ℤ → ℕ → ℤ → Option (ℕ × ℤ)
  walk_rank zero s i rank current traversed = none
  walk_rank (suc fuel) s i rank current traversed = do
    cell ← level_of s i current
    elim cell.forward [
      | none ↦ some (current, traversed)
      | some next ↦
          let further = walk_rank fuel s i rank next (traversed +ℤ cell.span) in
          if leb_ℤ (traversed +ℤ cell.span) rank then further else some (current, traversed)
    ]

  unfoldable pub descend_rank : ℕ → SkipList F → ℤ → ℕ → ℤ → Option (Option ℕ)
  unfolding walk_rank
  descend_rank zero s rank current traversed = some none
  descend_rank (suc i) s rank current traversed = do
    (current, traversed) ← walk_rank (steps s) s i rank current traversed
    let further = descend_rank i s rank current traversed in
        if eq_ℤ traversed rank then some (some current) else further

  unfoldable pub get_by_rank : ℤ → SkipList F → Option (Option ℕ)
  unfolding descend_rank
  get_by_rank rank s =
      if leb_ℤ rank (pos 0) || ltb_ℤ s.length rank
      then some none
      else descend_rank skip_list_max_level s rank s.head (pos 0)

  -- The loop of `Range`, for the number of nodes that are left to take.
  unfoldable pub collect : ℕ → SkipList F → Option ℕ → Option (List ℕ)
  collect zero s pointer = some []
  collect (suc n) s none = some []
  collect (suc n) s (some id) = do
    cell ← level_of s 0 id
    nodes ← collect n s cell.forward
    some (id ∷ nodes)

  -- `Range`
  unfoldable pub range : ℤ → ℤ → SkipList F → Option (List ℕ)
  unfolding get_by_rank collect at_least_one at_most
  range start end s =
      let first = at_least_one start in
      let last = at_most s.length end in
      if ltb_ℤ last first
      then some []
      else do node ← get_by_rank first s; collect (pos_part (last -ℤ first +ℤ pos 1)) s node
