-- ===== src/Server/Ids.antt =====
-- server/server.go: lists of client identifiers, and the maps that hold them under a key.
use tiny_red.Base.{
  ℕ, ◌+◌, ◌≡◌, true, false, List, [], ◌∷◌, ◌++◌, arith, Bytes, bytes_eq, bytes_eq_iff, ◌==◌,
  if◌then◌else◌, Bool-cases, inl, inr,
}
use tiny_red.Base.Map
use tiny_red.Base.Map.{Map, lookup-insert, lookup-erase}
use tiny_red.Server.Clients.{contains, delete_first, put_ids, forget_id, ids_at}
use tiny_red.Server.Commands.Sessions.{register_watcher}

-- How often an identifier stands in a list.
unfoldable pub count : ℕ → List ℕ → ℕ
count id [] = 0
count id (x ∷ xs) = (if x == id then 1 else 0) + count id xs

pub contains-count :
    (id : ℕ) (xs : List ℕ) → contains id xs ≡ (if count id xs == 0 then false else true)
unfolding contains count
contains-count id [] = ground arith
contains-count id (x ∷ xs) = ground (arith, contains-count id xs)

-- Only the identifier that is deleted loses an occurrence, and only one.
pub count-delete_first :
    (id j : ℕ) (xs : List ℕ)
    → contains id xs ≡ true
    → count j (delete_first id xs) + (if id == j then 1 else 0) ≡ count j xs
unfolding contains count delete_first
count-delete_first id j [] h = cc
count-delete_first id j (x ∷ xs) h = ground (arith, count-delete_first id j xs)

pub count-append : (id : ℕ) (xs ys : List ℕ) → count id (xs ++ ys) ≡ count id xs + count id ys
unfolding count
count-append id [] ys = omega arith
count-append id (x ∷ xs) ys = omega (arith, count-append id xs ys)

pub ids_at-put_ids :
    (k j : Bytes) (ids : List ℕ) (m : Map (List ℕ))
    → ids_at j (put_ids k ids m) ≡ (if bytes_eq k j then ids else ids_at j m)
unfolding ids_at put_ids
ids_at-put_ids k j [] m = ground (arith, lookup-erase k j m)
ids_at-put_ids k j (x ∷ xs) m = ground (arith, lookup-insert k j (x ∷ xs) m)

ids_at-insert :
    (k j : Bytes) (ids : List ℕ) (m : Map (List ℕ))
    → ids_at j (Map.insert k ids m) ≡ (if bytes_eq k j then ids else ids_at j m)
unfolding ids_at
ids_at-insert k j ids m = ground (arith, lookup-insert k j ids m)

count_one : (j id : ℕ) → count j (id ∷ []) ≡ (if id == j then 1 else 0)
unfolding count
count_one j id = ground arith

-- Forgetting takes one occurrence of the identifier off the list of the key, if there is one.
pub count-forget_id :
    (id j : ℕ) (k l : Bytes) (m : Map (List ℕ))
    → count j (ids_at l (forget_id id k m))
        + (if bytes_eq k l
            then if id == j then if contains id (ids_at k m) then 1 else 0 else 0
            else 0)
      ≡ count j (ids_at l m)
unfolding forget_id
count-forget_id id j k l m = elim (Bool-cases (contains id (ids_at k m))) [
  | inl there ↦ rw there (
      ground (
        arith,
        bytes_eq_iff k l,
        ids_at-put_ids k l (delete_first id (ids_at k m)) m,
        count-delete_first id j (ids_at k m) there,
      ))
  | inr none_there ↦ rw none_there (ground arith)
]

pub count-register_watcher :
    (id j : ℕ) (k l : Bytes) (m : Map (List ℕ))
    → count j (ids_at l (register_watcher id k m))
      ≡ (if bytes_eq k l
          then if id == j then if contains id (ids_at k m) then 0 else 1 else 0
          else 0)
        + count j (ids_at l m)
unfolding register_watcher
count-register_watcher id j k l m = ground (
  arith,
  bytes_eq_iff k l,
  ids_at-insert k l (if contains id (ids_at k m) then ids_at k m else ids_at k m ++ id ∷ []) m,
  count-append j (ids_at k m) (id ∷ []),
  count_one j id,
)
