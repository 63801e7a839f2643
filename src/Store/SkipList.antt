-- ===== src/Store/SkipList.antt =====
-- store/skip_list.go: the skip list, as nodes on a heap that point to each other by their numbers.
pub mod Queries
pub mod Order
pub mod Chain
pub mod Looking
pub mod Search
pub mod Links
pub mod Loops
pub mod Represents
pub mod Places
pub mod Longer
pub mod Inserting
pub mod Cells
pub mod Deleting
pub mod Matching
pub mod Shorter
pub mod Removing
pub mod Walking
pub mod Ranking
pub mod Ranges
use tiny_red.Base.{
  ℕ, zero, suc, ◌+◌, ◌-◌, Bool, true, false, not, ◌&&◌, ◌||◌, Option, none, some, List, [], ◌∷◌,
  Bytes, bytes_eq, get_elem?, ℤ, pos, pos_part, ◌+ℤ◌, ◌-ℤ◌, ltb_ℤ, leb_ℤ, ltb, ◌==◌, if◌then◌else◌,
}
use tiny_red.Strconv.{◌>>=◌}

-- The scores, which are 64-bit floating-point numbers in the source: `<`, `==` and the zero value.
pub record Scores (F : Type 0) : Type 0 where
  pub below : F → F → Bool
  pub equals : F → F → Bool
  pub zero_score : F

-- Spans and ranks count nodes, so that they stay far below 2^63 and are exact here.
pub record SkipListLevel : Type 0 where
  pub forward : Option ℕ
  pub span : ℤ

pub record SkipListNode (F : Type 0) : Type 0 where
  pub member : Bytes
  pub score : F
  pub level : List SkipListLevel

-- `nodes` is the heap, and `next_node` the number of the next node that is made.
pub record SkipList (F : Type 0) : Type 0 where
  pub nodes : ℕ → SkipListNode F
  pub next_node : ℕ
  pub head : ℕ
  pub length : ℤ

abbrev pub skip_list_max_level : ℕ
skip_list_max_level = 16

abbrev pub empty_level : SkipListLevel
empty_level = record { forward = none; span = pos 0 }

-- make([]skipListLevel, n)
unfoldable pub empty_levels : ℕ → List SkipListLevel
empty_levels zero = []
empty_levels (suc n) = empty_level ∷ empty_levels n

-- Go's `<` on strings.
unfoldable pub bytes_lt : Bytes → Bytes → Bool
bytes_lt [] [] = false
bytes_lt [] (y ∷ ys) = true
bytes_lt (x ∷ xs) [] = false
bytes_lt (x ∷ xs) (y ∷ ys) = ltb x y || (x == y && bytes_lt xs ys)

-- xs[i] = x, within the bounds.
unfoldable pub set_elem {ℓ} : {A : Type ℓ} → ℕ → A → List A → List A
set_elem i x [] = []
set_elem zero x (y ∷ ys) = x ∷ ys
set_elem (suc i) x (y ∷ ys) = y ∷ set_elem i x ys

module _ {F : Type 0} where
  unfoldable pub new_skip_list : Scores F → SkipList F
  unfolding empty_levels
  new_skip_list scores = record {
    nodes = λ id. record {
      member = [];
      score = scores.zero_score;
      level = empty_levels skip_list_max_level;
    };
    next_node = 1;
    head = 0;
    length = pos 0;
  }

  unfoldable pub less : Scores F → F → Bytes → F → Bytes → Bool
  unfolding bytes_lt
  less scores score1 member1 score2 member2 =
      if not (scores.equals score1 score2)
      then scores.below score1 score2
      else bytes_lt member1 member2

  -- node.Level[i]; `none` is a panic, and in the loops below also a lack of fuel.
  unfoldable pub level_of : SkipList F → ℕ → ℕ → Option SkipListLevel
  level_of s i id = get_elem? (s.nodes id).level i

  -- node.Level[i] = cell
  unfoldable pub set_level : ℕ → SkipListLevel → ℕ → SkipList F → SkipList F
  unfolding set_elem
  set_level i cell id s = record s {
    nodes = λ j.
        if j == id
        then record (s.nodes j) { level = set_elem i cell (s.nodes j).level }
        else s.nodes j;
  }

  -- The loops follow each node once at most, so that the list's length and one more are enough.
  unfoldable pub steps : SkipList F → ℕ
  steps s = suc (pos_part s.length)

  module _ (scores : Scores F) where
    -- Whether the node stands in front of the score and member.
    unfoldable pub before : SkipList F → ℕ → Bytes → F → Bool
    before s id member score = less scores (s.nodes id).score (s.nodes id).member score member

    -- The inner loop on level `i`, with the node and the rank that it stands at.
    unfoldable pub walk : ℕ → SkipList F → ℕ → Bytes → F → ℕ → ℤ → Option (ℕ × ℤ)
    walk zero s i member score current rank = none
    walk (suc fuel) s i member score current rank = do
      cell ← level_of s i current
      elim cell.forward [
        | none ↦ some (current, rank)
        | some next ↦
            let further = walk fuel s i member score next (rank +ℤ cell.span) in
            if before s next member score then further else some (current, rank)
      ]

    -- The outer loop, from level i - 1 down to 0. The arrays `update` and `rank` are one list, whose
    -- first element belongs to level 0 at the end.
    unfoldable pub descend :
        ℕ → SkipList F → Bytes → F → ℕ → ℤ → List (ℕ × ℤ) → Option (ℕ × ℤ × List (ℕ × ℤ))
    descend zero s member score current rank path = some (current, rank, path)
    descend (suc i) s member score current rank path = do
      (current, rank) ← walk (steps s) s i member score current rank
      descend i s member score current rank ((current, rank) ∷ path)

    unfoldable pub search_path : SkipList F → Bytes → F → Option (ℕ × ℤ × List (ℕ × ℤ))
    unfolding descend
    search_path s member score = descend skip_list_max_level s member score s.head (pos 0) []

  -- A new node with `level` empty levels.
  unfoldable pub make_node : Bytes → F → ℕ → SkipList F → SkipList F
  make_node member score level s =
      let node : SkipListNode F = record {
        member = member;
        score = score;
        level = empty_levels level;
      } in
      record s {
        nodes = λ j. if j == s.next_node then node else s.nodes j;
        next_node = suc s.next_node;
      }

  -- The loop over the levels of the new node, and then that over the levels above.
  unfoldable pub count_levels : ℕ → List (ℕ × ℤ) → SkipList F → Option (SkipList F)
  count_levels i [] s = some s
  count_levels i ((update, rank) ∷ path) s = do
    cell ← level_of s i update
    count_levels (suc i) path (set_level i (record cell { span = cell.span +ℤ pos 1 }) update s)

  unfoldable pub link_levels : ℕ → ℤ → ℕ → ℕ → List (ℕ × ℤ) → SkipList F → Option (SkipList F)
  unfolding count_levels
  link_levels node rank0 zero i path s = count_levels i path s
  link_levels node rank0 (suc level) i [] s = none
  link_levels node rank0 (suc level) i ((update, rank) ∷ path) s = do
    cell ← level_of s i update
    let distance = rank0 -ℤ rank in
        link_levels node rank0 level (suc i) path (
          set_level i (record { forward = some node; span = distance +ℤ pos 1 }) update
            (set_level i (record { forward = cell.forward; span = cell.span -ℤ distance }) node s))

  -- `Insert`, with what `randomLevel` returned.
  unfoldable pub insert : Scores F → ℕ → Bytes → F → SkipList F → Option (SkipList F)
  unfolding search_path make_node link_levels
  insert scores level member score s = do
    (current, rank0, path) ← search_path scores s member score
    t ← link_levels s.next_node rank0 level 0 path (make_node member score level s)
    some (record t { length = t.length +ℤ pos 1 })
