-- ===== src/Examples/Data.antt =====
-- The theorems on the store and the commands on data at concrete servers.
use tiny_red.Base.{
  ℕ, suc, ◌+◌, ◌*◌, ◌≡◌, ◌≢◌, refl, ap, true, false, Option, none, some, List, [], ◌∷◌, ◌++◌, arith,
  Bytes, codes, bytes_eq, length, take, drop, ℤ, pos, negsuc, ltb, ◌+ℤ◌, to_lower, if◌then◌else◌,
}
use tiny_red.Strconv.{itoa, atoi}
use tiny_red.Resp.Marshal.{marshal_bulk_string, marshal_null_bulk_string, marshal_integer}
use tiny_red.Store.Types.{Store, new_store, right, left}
use tiny_red.Store.Entries
use tiny_red.Store.Waiters.{waiters_at, put_waiters, add_waiter}
use tiny_red.Store.Lists.{list_push, blpop}
use tiny_red.Store.Push.{elements_at, IsPushed, list_push_lem}
use tiny_red.Store.Frame.{Same, list_push-Same}
use tiny_red.Store.Idle.{Step, Reach, reachable-IsIdle}
use tiny_red.Server.Types.{replied, panics}
use tiny_red.Server.Commands.Arguments.{bulk_array}
use tiny_red.Server.Commands.Strings.{
  Options, expires, set_options, unit, expired, handle_set, handle_get, handle_incr,
}
use tiny_red.Server.Commands.Lists.{handle_lrange, handle_lpop}
use tiny_red.Server.Commands.Expiry.{asks, at_time, get-set_reply, got_after, expires_after}
use tiny_red.Server.Commands.Counting.{counter, handle_incr_lem}
use tiny_red.Server.Commands.Ranges.{between, handle_lrange_lem}
use tiny_red.Server.Commands.Popping.{handle_lpop_lem}
use tiny_red.Server.Commands.Panics.{set_panics, emptied_list_panics}
use tiny_red.Examples.Fixtures.{asking, data_store, server}

-- Two clients wait on "q".
abbrev waiting_store : Store ℕ
waiting_store = record {
  entries = data_store.entries;
  waiter_store =
      (
        codes "q",
        record { channel = 0; key = codes "q" } ∷ record { channel = 1; key = codes "q" } ∷ [],
      )
      ∷ [];
  deliveries = [];
  next_channel = 2;
}

-- The store after a client has begun to wait.
abbrev reached_store : Store ℕ
reached_store = (blpop (codes "q") new_store).1

list_push_lem_example :
    IsPushed
      (codes "q")
      (codes "x" ∷ codes "y" ∷ codes "z" ∷ [])
      left
      waiting_store
      (list_push (codes "q") (codes "x" ∷ codes "y" ∷ codes "z" ∷ []) left waiting_store).1
unfolding list_push blpop tiny_red.Store.Lists.push_to tiny_red.Base.Map.lookup bytes_eq
    tiny_red.Store.Lists.push_served tiny_red.Store.Lists.serve_waiters tiny_red.Store.Lists.orient
    tiny_red.Store.Lists.push_rest tiny_red.Store.Lists.push_at Entries.get
    tiny_red.Store.Lists.deliver put_waiters
list_push_lem_example =
    list_push_lem (codes "q") (codes "x" ∷ codes "y" ∷ codes "z" ∷ []) left waiting_store refl

list_push-Same_example :
    Same (codes "l") waiting_store (list_push (codes "q") (codes "x" ∷ []) right waiting_store).1
unfolding bytes_eq
list_push-Same_example =
    list_push-Same (codes "q") (codes "l") (codes "x" ∷ []) right waiting_store refl

waits : length (waiters_at (codes "q") reached_store) ≡ 1
unfolding waiters_at tiny_red.Base.Map.lookup blpop tiny_red.Store.Lists.pop_at Entries.get
    new_store tiny_red.Store.Lists.wait_on add_waiter tiny_red.Base.Map.insert bytes_eq
waits = refl

reachable-IsIdle_example : elements_at (codes "q") reached_store ≡ []
reachable-IsIdle_example =
    reachable-IsIdle (codes "q") (Reach.next Reach.here (Step.pop (codes "q") new_store))
      (λ e. omega (arith, waits, ap length e))

get-set_reply_example :
    (handle_get (asks (codes "get") (codes "k" ∷ [])) 2 (
      at_time
        (pos 5001001)
        (handle_set
          (asks (codes "set") (codes "k" ∷ codes "v" ∷ codes "px" ∷ codes "5" ∷ []))
          1
          server).1)).0
    ≡ replied marshal_null_bulk_string
unfolding bytes_eq set_options expired unit to_lower atoi tiny_red.Strconv.parse_uint
    tiny_red.Base.wrap_64
get-set_reply_example =
    get-set_reply (codes "k") (codes "v") (codes "k") (codes "px" ∷ codes "5" ∷ []) [] 1 2 server
      (pos 5001001) {t = some (pos 5001000)} refl

expires_after_example :
    (got_after (codes "k") (codes "v") (codes "Px") 5 5001001 1 server
      ≡ replied marshal_null_bulk_string)
    × (got_after (codes "k") (codes "v") (codes "eX") 2 5001001 1 server
        ≡ replied (marshal_bulk_string (codes "v")))
unfolding to_lower
expires_after_example =
    expires_after (codes "k") (codes "v") (codes "Px") (codes "eX") 5 2 1000 5001001 1 server refl
      refl refl (omega arith) (omega arith)

handle_incr_lem_example :
    let r = handle_incr (asking (codes "incr") (codes "n" ∷ [])) 1 server in
    (r.0 ≡ replied (marshal_integer (pos 42)))
    × (counter (Entries.get (codes "n") r.1.store) ≡ some (pos 42))
unfolding bytes_eq counter Entries.get tiny_red.Base.Map.lookup
    tiny_red.Server.Commands.Strings.number_text atoi tiny_red.Strconv.parse_uint
handle_incr_lem_example =
    handle_incr_lem (codes "incr") (codes "n") (codes "n") 1 server refl (omega arith, omega arith)

handle_lrange_lem_example :
    handle_lrange
      (asking (codes "lrange") (codes "l" ∷ itoa (negsuc 1) ∷ itoa (pos 9) ∷ []))
      1
      server
    ≡ (
      replied (bulk_array (between (negsuc 1) (pos 9) (codes "a" ∷ codes "b" ∷ codes "c" ∷ []))),
      server,
    )
unfolding Entries.get tiny_red.Base.Map.lookup bytes_eq
handle_lrange_lem_example =
    handle_lrange_lem (codes "lrange") (codes "l") (codes "a") (codes "b" ∷ codes "c" ∷ [])
      (negsuc 1) (pos 9) 1 server (omega arith, omega arith) (omega arith, omega arith) refl refl
      refl

handle_lpop_lem_example :
    let alone = handle_lpop (asking (codes "lpop") (codes "l" ∷ [])) 1 server in
    let counted = handle_lpop (asking (codes "lpop") (codes "l" ∷ itoa (pos 2) ∷ [])) 1 server in
    ((alone.0 ≡ replied (marshal_bulk_string (codes "a")))
      × (elements_at (codes "l") alone.1.store ≡ codes "b" ∷ codes "c" ∷ []))
    × ((counted.0 ≡ replied (bulk_array (codes "a" ∷ codes "b" ∷ [])))
        × (elements_at (codes "l") counted.1.store ≡ codes "c" ∷ []))
unfolding Entries.get tiny_red.Base.Map.lookup bytes_eq
handle_lpop_lem_example =
    handle_lpop_lem (codes "lpop") (codes "l") (codes "a") (codes "l") (codes "b" ∷ codes "c" ∷ [])
      1 1 server (omega arith) refl refl

set_panics_example :
    handle_set
      (asking
        (codes "set")
        (codes "k" ∷ codes "v" ∷ (codes "ex" ∷ codes "5" ∷ []) ++ codes "PX" ∷ []))
      1
      server
    ≡ (panics, server)
unfolding unit bytes_eq to_lower set_options atoi tiny_red.Strconv.parse_uint
set_panics_example =
    set_panics (codes "set") (codes "k") (codes "v") (codes "PX") (codes "ex" ∷ codes "5" ∷ []) 1
      server refl refl

emptied_list_panics_example :
    let t = (handle_lpop (asking (codes "lpop") (codes "l" ∷ itoa (pos 3) ∷ [])) 1 server).1 in
    (handle_lrange
      (asking (codes "lrange") (codes "l" ∷ itoa (negsuc 0) ∷ itoa (negsuc 0) ∷ []))
      2
      t).0
    ≡ panics
unfolding Entries.get tiny_red.Base.Map.lookup bytes_eq handle_lrange
emptied_list_panics_example =
    emptied_list_panics (codes "lpop") (codes "l") (codes "a") (codes "b" ∷ codes "c" ∷ []) 2 0 1 2
      (negsuc 0) server (omega arith) (omega arith) (omega arith, omega arith)
      (omega arith, omega arith) refl refl refl
