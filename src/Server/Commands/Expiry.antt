-- ===== src/Server/Commands/Expiry.antt =====
-- server/commad_handlers.go: GET after SET, and when a value with an expiry is gone.
use tiny_red.Base.{
  ℕ, zero, suc, ◌+◌, ◌*◌, ◌<◌, ◌≡◌, refl, Option, none, some, List, [], ◌∷◌, arith, Bytes, codes,
  bytes_eq, bytes_eq_refl, ap, ◌∙◌, to_lower, ℤ, pos, ◌+ℤ◌, ltb, scale, wrap_64, if◌then◌else◌,
}
use tiny_red.Strconv.{itoa, atoi, half_64}
use tiny_red.Strconv.RoundTrip.{atoi-itoa}
use tiny_red.Resp.Marshal.{marshal_bulk_string, marshal_null_bulk_string}
use tiny_red.Store.Types.{Entry, Store}
use tiny_red.Store.Push.{get-set}
use tiny_red.Server.Types.{Request, Server, Reply, replied}
use tiny_red.Server.Commands.Strings.{
  expires, set_options, unit, get_entry, expired, text_of, handle_set, handle_get,
}

-- A request with these arguments.
abbrev pub asks : Bytes → List Bytes → Request
asks command arguments = record { command = command; arguments = arguments }

-- The server with its clock at a later instant.
abbrev pub at_time : {Z : Type 0} → ℤ → Server Z → Server Z
at_time n s = record s { now = n }

module _ {Z : Type 0} where
  -- The reply of GET depends on the entry and the clock only.
  entry_reply : ℤ → Option (Entry Z) → Reply
  entry_reply now none = replied marshal_null_bulk_string
  entry_reply now (some e) =
      if expired now e.expire_at
      then replied marshal_null_bulk_string
      else replied (marshal_bulk_string (text_of e.value))

  get_entry-reply :
      (key : Bytes) (o : Option (Entry Z)) (now : ℤ) (st : Store Z)
      → (get_entry key o now st).0 ≡ entry_reply now o
  unfolding get_entry entry_reply
  get_entry-reply key none now st = refl
  get_entry-reply key (some e) now st = ground arith

  -- After SET whose options are accepted, GET at any instant replies under that key the value until
  -- the expiry has passed and the null bulk string from then on, and under every other key what it
  -- replied before.
  pub get-set_reply :
      (key value j : Bytes) (options rest : List Bytes) (c d : ℕ) (s : Server Z) (n : ℤ)
      {t : Option ℤ}
      → set_options s.now none options ≡ expires t
      → (handle_get
          (asks (codes "get") (j ∷ rest))
          d
          (at_time n (handle_set (asks (codes "set") (key ∷ value ∷ options)) c s).1)).0
        ≡ (if bytes_eq key j
            then if expired n t
              then replied marshal_null_bulk_string
              else replied (marshal_bulk_string value)
            else (handle_get (asks (codes "get") (j ∷ rest)) d (at_time n s)).0)
  unfolding handle_get handle_set
  get-set_reply key value j options rest c d s n h =
      rw (h, get_entry-reply, get_entry-reply, get-set) (unfold entry_reply text_of in ground arith)

scale_pos : (u t : ℕ) → scale u (pos t) ≡ pos (u * t)
scale_pos u t = ground arith

below : (u t bound : ℕ) → 0 < u → u * t < bound → t < bound
below zero t bound p h = elim p [ ]
below (suc u) t bound p h = grind arith

wrap_fits : (n : ℕ) → n < half_64 → wrap_64 (pos n) ≡ pos n
unfolding wrap_64
wrap_fits n h = ground arith

itoa-in_range : (t : ℕ) → t < half_64 → atoi (itoa (pos t)) ≡ some (pos t)
itoa-in_range t h = atoi-itoa (pos t) (omega arith, h)

add_pos : (a b : ℕ) → pos a +ℤ pos b ≡ pos (a + b)
add_pos a b = ground arith

one_option :
    (option : Bytes) (u t : ℕ) (now : ℤ)
    → unit (to_lower option) ≡ some u
    → t < half_64
    → set_options now none (option ∷ itoa (pos t) ∷ [])
      ≡ expires (some (now +ℤ wrap_64 (scale u (pos t))))
unfolding set_options
one_option option u t now known h = rw (known, set_options, itoa-in_range t h) refl

-- The expiry of SET with one option whose duration in nanoseconds is below 2^63.
expires_at :
    (option : Bytes) (u t now : ℕ)
    → unit (to_lower option) ≡ some u
    → 0 < u
    → u * t < half_64
    → set_options (pos now) none (option ∷ itoa (pos t) ∷ []) ≡ expires (some (pos (now + u * t)))
expires_at option u t now known positive fits =
    rw
      (
        one_option option u t (pos now) known (below u t half_64 positive fits),
        scale_pos,
        wrap_fits (u * t) fits,
        add_pos,
      )
      refl

milliseconds :
    (option : Bytes) → to_lower option ≡ codes "px" → unit (to_lower option) ≡ some 1000000
milliseconds option e = rw e (unfold unit bytes_eq in refl)

seconds : (option : Bytes) → to_lower option ≡ codes "ex" → unit (to_lower option) ≡ some 1000000000
seconds option e = rw e (unfold unit bytes_eq in refl)

-- What GET replies at an instant after a SET with one option.
abbrev pub got_after : {Z : Type 0} → Bytes → Bytes → Bytes → ℕ → ℕ → ℕ → Server Z → Reply
got_after key value option t later c s =
    (handle_get (asks (codes "get") (key ∷ [])) c (
      at_time (pos later)
        (handle_set (asks (codes "set") (key ∷ value ∷ option ∷ itoa (pos t) ∷ [])) c s).1)).0

-- The value until an instant has passed, and the null bulk string from then on.
abbrev pub value_until : ℕ → ℕ → Bytes → Reply
value_until until later value =
    if ltb until later
    then replied marshal_null_bulk_string
    else replied (marshal_bulk_string value)

module _ {Z : Type 0} where
  got_until :
      (key value option : Bytes) (u t now later c : ℕ) (s : Server Z)
      → s.now ≡ pos now
      → unit (to_lower option) ≡ some u
      → 0 < u
      → u * t < half_64
      → got_after key value option t later c s ≡ value_until (now + u * t) later value
  unfolding expired
  got_until key value option u t now later c s clock known positive fits =
      let e : set_options s.now none (option ∷ itoa (pos t) ∷ [])
          ≡ expires (some (pos (now + u * t))) =
        ap (λ n. set_options n none (option ∷ itoa (pos t) ∷ [])) clock
        ∙ expires_at option u t now known positive fits in
      get-set_reply key value key (option ∷ itoa (pos t) ∷ []) [] c c s (pos later) e
      ∙ rw (bytes_eq_refl key) (ground arith)

  -- After SET with PX and a number n of milliseconds, GET replies the value until 1,000,000 n
  -- nanoseconds after the clock's instant and the null bulk string from then on; with EX and a number
  -- n of seconds until 1,000,000,000 n nanoseconds after it; the option is in any case, and the
  -- duration in nanoseconds is below 2^63.
  pub expires_after :
      (key value px ex : Bytes) (ms secs now later c : ℕ) (s : Server Z)
      → s.now ≡ pos now
      → to_lower px ≡ codes "px"
      → to_lower ex ≡ codes "ex"
      → 1000000 * ms < half_64
      → 1000000000 * secs < half_64
      → (got_after key value px ms later c s ≡ value_until (now + 1000000 * ms) later value)
        × (got_after key value ex secs later c s
            ≡ value_until (now + 1000000000 * secs) later value)
  expires_after key value px ex ms secs now later c s clock p e short long = (
    got_until key value px 1000000 ms now later c s clock (milliseconds px p) (omega arith) short,
    got_until key value ex 1000000000 secs now later c s clock (seconds ex e) (omega arith) long,
  )
