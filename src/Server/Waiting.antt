-- ===== src/Server/Waiting.antt =====
-- server/commad_handlers.go: after every command, no client waits on a list that has an element.
pub mod Handlers
pub mod Requests
pub mod Runs
use tiny_red.Base.{
  ℕ, ◌≡◌, ◌≢◌, refl, sym, ap, ◌∙◌, Bool, true, false, Option, none, some, List, [], ◌∷◌, Bytes,
  codes, bytes_eq, to_lower, ℤ, pos, negsuc, if◌then◌else◌, Bool-cases, Option-cases, inl, inr,
  get_elem?, drop,
}
use tiny_red.Base.Map
use tiny_red.Strconv.{atoi}
use tiny_red.Store.Types.{
  Value, text, elements, sorted, Entry, Direction, right, left, Store, EntryType,
}
use tiny_red.Store.Entries
use tiny_red.Store.Entries.{Updated, fails, absent, becomes, finish_update}
use tiny_red.Store.Waiters.{waiters_at}
use tiny_red.Store.Push.{elements_at, elements_of, elements_in, elements_at_lem}
use tiny_red.Store.Idle.{IsIdle, list_push-IsIdle, set-IsIdle, delete-IsIdle, blpop-IsIdle}
use tiny_red.Server.Types.{Request, Server, Reply, Handler}
use tiny_red.Server.Commands.Arguments.{with_argument, with_store, not_integer_err}
use tiny_red.Server.Commands.Strings.{
  Options, expires, refused, set_options, set_entry, set_arguments, handle_set, get_entry, expired,
  handle_get, number_text, incremented, increment, handle_incr,
}
use tiny_red.Server.Commands.Lists.{
  Floats, push_arguments, handle_rpush, handle_lpush, PopFailure, pop_elements, pop_of, pop_update,
  pop_count, pop_arguments, handle_lpop, pop_or_wait, handle_blpop,
}

-- A handler after which no client waits on a list that has an element, if none did before.
abbrev pub KeepsIdle : {Z : Type 0} → Handler Z → Type 0
KeepsIdle {Z} h =
    (req : Request) (c : ℕ) (s : Server Z) → IsIdle s.store → IsIdle (h req c s).1.store

module _ {Z : Type 0} where
  pub with_argument-IsIdle :
      (i : ℕ) (req : Request) (f : Bytes → Reply × Store Z) (st : Store Z)
      → IsIdle st
      → ((a : Bytes) → IsIdle (f a).1)
      → IsIdle (with_argument i req f st).1
  unfolding with_argument
  with_argument-IsIdle i req f st h k = elim (Option-cases (get_elem? req.arguments i)) [
    | inl missing ↦ rw (missing, with_argument) h
    | inr (a, there) ↦ rw (there, with_argument) (k a)
  ]

  set_entry-IsIdle :
      (key value : Bytes) (o : Options) (st : Store Z)
      → IsIdle st
      → IsIdle (set_entry key value o st).1
  unfolding set_entry
  set_entry-IsIdle key value (refused r) st h = h
  set_entry-IsIdle key value (expires t) st h = set-IsIdle key _ st h (λ w. refl)

  pub set_arguments-IsIdle :
      (args : List Bytes) (now : ℤ) (st : Store Z)
      → IsIdle st
      → IsIdle (set_arguments args now st).1
  unfolding set_arguments
  set_arguments-IsIdle [] now st h = h
  set_arguments-IsIdle (k ∷ []) now st h = h
  set_arguments-IsIdle (k ∷ v ∷ options) now st h =
      set_entry-IsIdle k v (set_options now none options) st h

  pub get_entry-IsIdle :
      (key : Bytes) (o : Option (Entry Z)) (now : ℤ) (st : Store Z)
      → IsIdle st
      → IsIdle (get_entry key o now st).1
  unfolding get_entry
  get_entry-IsIdle key none now st h = h
  get_entry-IsIdle key (some e) now st h = elim (Bool-cases (expired now e.expire_at)) [
    | inl gone ↦ rw gone (delete-IsIdle key st h)
    | inr kept ↦ rw kept h
  ]

  -- Where somebody waits on the key, the entry that an update leaves has no element.
  Leaves : {E A : Type 0} → Type 0 → Updated Z E A → Type 0
  Leaves W (fails e) = Unit
  Leaves W (absent a) = Unit
  Leaves W (becomes e a) = W → elements_of e.value ≡ []

  update-IsIdle :
      {E A : Type 0} (key : Bytes) (u : Updated Z E A) (st : Store Z)
      → IsIdle st
      → Leaves (waiters_at key st ≢ []) u
      → IsIdle (finish_update key u st).1
  unfolding finish_update Leaves
  update-IsIdle key (fails e) st h k = h
  update-IsIdle key (absent a) st h k = h
  update-IsIdle key (becomes e a) st h k = set-IsIdle key e st h k

  no_elements :
      (key : Bytes) (st : Store Z) (o : Option (Entry Z))
      → Entries.get key st ≡ o
      → IsIdle st
      → waiters_at key st ≢ []
      → elements_in o ≡ []
  no_elements key st o there h w = sym (elements_at_lem key st o there) ∙ h key w

  incremented-Leaves : (W : Type 0) (e : Entry Z) (n : Option ℤ) → Leaves W (incremented e n)
  unfolding incremented Leaves
  incremented-Leaves W e none = tt
  incremented-Leaves W e (some n) = λ w. refl

  text_incremented :
      (W : Type 0) (e : Entry Z) (o : Option Bytes)
      → Leaves W (elim o [ none ↦ fails not_integer_err | some v ↦ incremented e (atoi v) ])
  text_incremented W e none = unfold Leaves in tt
  text_incremented W e (some v) = incremented-Leaves W e (atoi v)

  -- INCR leaves a text, which has no elements.
  increment-Leaves : (W : Type 0) (o : Option (Entry Z)) → Leaves W (increment o)
  unfolding increment
  increment-Leaves W none = unfold Leaves in λ w. refl
  increment-Leaves W (some e) = text_incremented W e (number_text e.entry_type e.value)

  pop_elements-Leaves :
      (W : Type 0) (count : ℤ) (e : Entry Z) (xs : List Bytes)
      → (W → elements_of e.value ≡ [])
      → (W → xs ≡ [])
      → Leaves W (pop_elements count e xs)
  unfolding pop_elements Leaves
  pop_elements-Leaves W (pos n) e [] h k = h
  pop_elements-Leaves W (negsuc n) e [] h k = h
  pop_elements-Leaves W (negsuc n) e (x ∷ xs) h k = tt
  pop_elements-Leaves W (pos n) e (x ∷ xs) h k = λ w. let none_there = k w in cc

  pop_of-Leaves :
      (W : Type 0) (count : ℤ) (e : Entry Z) (v : Value Z)
      → (W → elements_of e.value ≡ [])
      → (W → elements_of v ≡ [])
      → Leaves W (pop_of count e v)
  unfolding pop_of
  pop_of-Leaves W count e (elements xs) h k = pop_elements-Leaves W count e xs h k
  pop_of-Leaves W count e (text v) h k = unfold Leaves in tt
  pop_of-Leaves W count e (sorted z) h k = unfold Leaves in tt

  pop_update-Leaves :
      (W : Type 0) (count : ℤ) (o : Option (Entry Z))
      → (W → elements_in o ≡ [])
      → Leaves W (pop_update count o)
  unfolding pop_update
  pop_update-Leaves W count none h = unfold Leaves in tt
  pop_update-Leaves W count (some e) h = pop_of-Leaves W count e e.value h h

  pop_count-IsIdle :
      (key : Bytes) (b : Bool) (n : Option ℤ) (st : Store Z)
      → IsIdle st
      → IsIdle (pop_count key b n st).1
  unfolding pop_count Entries.update
  pop_count-IsIdle key b none st h = h
  pop_count-IsIdle key b (some n) st h =
      update-IsIdle key _ st h
        (pop_update-Leaves _ n (Entries.get key st) (no_elements key st _ refl h))

  pub pop_arguments-IsIdle :
      (args : List Bytes) (st : Store Z) → IsIdle st → IsIdle (pop_arguments args st).1
  unfolding pop_arguments
  pop_arguments-IsIdle [] st h = h
  pop_arguments-IsIdle (key ∷ []) st h = pop_count-IsIdle key false (some (pos 1)) st h
  pop_arguments-IsIdle (key ∷ n ∷ rest) st h = pop_count-IsIdle key true (atoi n) st h

  pub push_arguments-IsIdle :
      (d : Direction) (args : List Bytes) (st : Store Z)
      → IsIdle st
      → IsIdle (push_arguments d args st).1
  unfolding push_arguments
  push_arguments-IsIdle d [] st h = h
  push_arguments-IsIdle d (key ∷ values) st h = list_push-IsIdle key values d st h

  pub incr_key-IsIdle :
      (key : Bytes) (st : Store Z) → IsIdle st → IsIdle (Entries.update key increment st).1
  unfolding Entries.update
  incr_key-IsIdle key st h = update-IsIdle key _ st h (increment-Leaves _ (Entries.get key st))

  pub pop_or_wait-IsIdle :
      (F : Floats) (key : Bytes) (t : Option (Floats.Float F)) (st : Store Z)
      → IsIdle st
      → IsIdle (pop_or_wait F key t st).1
  unfolding pop_or_wait
  pop_or_wait-IsIdle F key none st h = h
  pop_or_wait-IsIdle F key (some t) st h = blpop-IsIdle key st h
