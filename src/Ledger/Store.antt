-- ===== src/Ledger/Store.antt =====
-- `LedgerStore` of src/pumpgrok/ledger/store.py: the events table in the order of `seq`, and the
-- handle's INCONSISTENT latch. A transaction that raises is rolled back.
pub mod Chain
pub mod Batch
pub mod Tamper
pub mod Repeats
mod Tests
use pump_grok.Prelude.{
  ℕ, ◌+◌, ◌≡◌, refl, Bool, true, false, not, ◌&&◌, ◌||◌, String, Option, none, some, List, [], ◌∷◌,
  ◌++◌, str_eq, if◌then◌else◌,
}
use pump_grok.Prelude.Lists.{length, contains}

-- The body that `_row_hash` digests.
pub record HashBody : Type 0 where
  pub prev_hash : String
  pub seq : ℕ
  pub ts_utc : String
  pub source : String
  pub correlation_id : String
  pub idempotency_key : String
  pub type : String
  pub payload_json : String

-- A row of the events table.
pub record Row : Type 0 where
  pub body : HashBody
  pub hash : String

pub record Store : Type 0 where
  pub rows : List Row
  pub inconsistent : Bool

-- `ValueError`, sqlite's `IntegrityError`, and `LedgerInconsistent`.
pub data Error : Type 0 where
  bad_value duplicate broken_chain : Error

pub data Result {ℓ} (A : Type ℓ) : Type ℓ where
  ok : A → Result A
  err : Error → Result A

infixl 5 ◌>>=◌
abbrev pub ◌>>=◌ {ℓ κ} : {A : Type ℓ} {B : Type κ} → Result A → (A → Result B) → Result B
ok a >>= f = f a
err e >>= f = err e

-- The inversion of a bind that succeeds.
pub >>=-eq-ok {ℓ κ} :
    {A : Type ℓ} {B : Type κ} (first : Result A) (next : A → Result B) {last : B}
    → first >>= next ≡ ok last
    → (middle : A) × (first ≡ ok middle) × (next middle ≡ ok last)
>>=-eq-ok (err e) next eq = cc
>>=-eq-ok (ok middle) next eq = (middle, refl, eq)

pub ok-injective {ℓ} : {A : Type ℓ} (a b : A) → ok a ≡ ok b → a ≡ b
ok-injective a b e = cc

-- An entry to append. Its payload is of any type.
pub record Entry (Payload : Type 0) : Type 0 where
  pub ts_utc : String
  pub source : String
  pub correlation_id : String
  pub idempotency_key : String
  pub type : String
  pub payload : Payload

-- "0" * 64
abbrev pub genesis_prev_hash : String
genesis_prev_hash = "0000000000000000000000000000000000000000000000000000000000000000"

abbrev pub sources : List String
sources = "paper" ∷ "replay" ∷ "manual" ∷ []

abbrev is_blank : String → Bool
is_blank s = str_eq s ""

-- `_check_envelope`, on typed fields.
unfoldable pub check_envelope : {Payload : Type 0} → Entry Payload → Bool
unfolding contains
check_envelope e =
    contains e.source sources
    && not (
        is_blank e.ts_utc
        || is_blank e.correlation_id
        || is_blank e.idempotency_key
        || is_blank e.type)

-- The `seq` and `prev_hash` of the next row: those after the last row, or the genesis.
unfoldable pub next_head : ℕ × String → List Row → ℕ × String
next_head head [] = head
next_head head (r ∷ rs) = next_head (r.body.seq + 1, r.hash) rs

abbrev pub genesis_head : ℕ × String
genesis_head = (1, genesis_prev_hash)

-- The UNIQUE columns: `idempotency_key`, and `hash`.
unfoldable pub has_key : String → List Row → Bool
has_key k [] = false
has_key k (r ∷ rs) = if str_eq r.body.idempotency_key k then true else has_key k rs

unfoldable pub has_hash : String → List Row → Bool
has_hash k [] = false
has_hash k (r ∷ rs) = if str_eq r.hash k then true else has_hash k rs

-- `INSERT INTO events`, which holds the UNIQUE constraints. The new `seq` is above every other.
unfoldable pub insert_row : List Row → Row → Result (List Row)
unfolding has_key has_hash
insert_row rows r =
    if has_key r.body.idempotency_key rows || has_hash r.hash rows
    then err duplicate
    else ok (rows ++ r ∷ [])

-- `WHERE idempotency_key = ? LIMIT 1`
unfoldable pub by_key : List Row → String → Option Row
by_key [] k = none
by_key (r ∷ rs) k = if str_eq r.body.idempotency_key k then some r else by_key rs k

-- SHA-256 over the canonical JSON of the body, and the validation of a payload by its type's
-- model, which gives the payload's canonical JSON or raises.
module _ {Payload : Type 0} (digest : HashBody → String)
    (validate : String → Payload → Option String) where
  unfoldable pub make_row : ℕ × String → Entry Payload → String → Row
  make_row (seq, prev_hash) e payload_json =
      let body : HashBody = record {
        prev_hash = prev_hash;
        seq = seq;
        ts_utc = e.ts_utc;
        source = e.source;
        correlation_id = e.correlation_id;
        idempotency_key = e.idempotency_key;
        type = e.type;
        payload_json = payload_json;
      } in
      record { body = body; hash = digest body }

  -- The part of a transaction that writes one entry at a head.
  unfoldable pub write_valid :
      ℕ × String → List Row → Entry Payload → Option String → Result (Row × List Row)
  unfolding make_row insert_row
  write_valid head rows e none = err bad_value
  write_valid head rows e (some json) =
      insert_row rows (make_row head e json) >>= λ rows'. ok (make_row head e json, rows')

  unfoldable pub write_entry : ℕ × String → List Row → Entry Payload → Result (Row × List Row)
  unfolding check_envelope write_valid
  write_entry head rows e =
      if check_envelope e
      then write_valid head rows e (validate e.type e.payload)
      else err bad_value

  -- `append`: the stored row, and the store.
  unfoldable pub append : Store → Entry Payload → Result (Row × Store)
  unfolding write_entry next_head
  append s e =
      if s.inconsistent
      then err broken_chain
      else (write_entry (next_head genesis_head s.rows) s.rows e >>= λ (r, rows).
          ok (r, record s { rows = rows }))

  -- The loop of `append_batch`, with the `seq` and hash that it carries.
  unfoldable pub write_all :
      ℕ × String → List Row → List (Entry Payload) → Result (List Row × List Row)
  unfolding write_entry
  write_all head rows [] = ok ([], rows)
  write_all head rows (e ∷ es) = write_entry head rows e >>= λ (r, rows').
      (write_all (head.0 + 1, r.hash) rows' es >>= λ (stored, rows''). ok (r ∷ stored, rows''))

  unfoldable pub append_batch : Store → List (Entry Payload) → Result (List Row × Store)
  unfolding write_all next_head
  append_batch s [] = ok ([], s)
  append_batch s (e ∷ es) =
      if s.inconsistent
      then err broken_chain
      else (write_all (next_head genesis_head s.rows) s.rows (e ∷ es) >>= λ (stored, rows).
          ok (stored, record s { rows = rows }))

-- The loop of `verify`: whether every row chains on the one before it and has its own digest.
unfoldable pub verify_from : (HashBody → String) → String → List Row → Bool
verify_from digest expected_prev [] = true
verify_from digest expected_prev (r ∷ rs) =
    str_eq r.body.prev_hash expected_prev
    && str_eq (digest r.body) r.hash
    && verify_from digest r.hash rs

-- `verify`: it sets or resets the latch, and raises on a mismatch.
unfoldable pub verify : (HashBody → String) → Store → Result Bool × Store
unfolding verify_from
verify digest s =
    if verify_from digest genesis_prev_hash s.rows
    then (ok true, record s { inconsistent = false })
    else (err broken_chain, record s { inconsistent = true })
