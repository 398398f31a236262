-- ===== src/Core/Idempotency.antt =====
-- src/pumpgrok/core/idempotency.py, and `order_hash_for` of src/pumpgrok/risk/engine/model.py.
use pump_grok.Prelude.{ℕ, zero, suc, String, Option, none, some, ◌≡◌, refl, if◌then◌else◌, str_eq}
use pump_grok.Prelude.Int.{ℤ}
use pump_grok.Prelude.Decimal.{Decimal}
use pump_grok.Core.Order.{Side, buy, sell, OrderRequest}
use pump_grok.Core.Json.{
  Value, null, text, int, object, Fields, field, no_field, normalize, normalize_fields, ◌>>=◌,
}

-- `json.dumps` with sorted keys and without whitespace, SHA-256's hexadecimal digest of a text, and
-- `str` of a finite Decimal.
pub record Codec : Type 0 where
  pub dumps : Value → String
  pub sha256 : String → String
  pub str_of : Decimal → String

-- `s[:n]`
unfoldable pub take_chars : ℕ → String → String
take_chars zero s = String.[]
take_chars (suc n) String.[] = String.[]
take_chars (suc n) (String.◌∷◌ c s) = String.◌∷◌ c (take_chars n s)

abbrev pub side_text : Side → String
side_text buy = "buy"
side_text sell = "sell"

-- `if k != "correlation_id"`
unfoldable pub drop_correlation : Fields → Fields
drop_correlation no_field = no_field
drop_correlation (field none v fs) = field none v (drop_correlation fs)
drop_correlation (field (some k) v fs) =
    let rest = drop_correlation fs in
    if str_eq k "correlation_id" then rest else field (some k) v rest

abbrev int_or_null : Option ℤ → Value
int_or_null none = null
int_or_null (some n) = int n

module _ (c : Codec) where
  unfoldable pub canonical_json : Fields → Option String
  unfolding normalize
  canonical_json fs = normalize c.str_of (object fs) >>= λ v. some (c.dumps v)

  -- The digest of a canonical text; a `TypeError` has none.
  unfoldable pub digest_of : Fields → Option String
  unfolding canonical_json
  digest_of fs = canonical_json fs >>= λ t. some (c.sha256 t)

  -- `scope or None`, as the caller gives it.
  unfoldable pub derive_idempotency_key : String → String → Fields → Option String → Option String
  unfolding drop_correlation digest_of take_chars
  derive_idempotency_key tool bot payload scope =
      digest_of (
        field (some "tool") (text tool) (
          field (some "bot") (text bot) (
            field (some "scope") (elim scope [ none ↦ null | some s ↦ text s ])
              (field (some "payload") (object (drop_correlation payload)) no_field))))
      >>= λ d. some (take_chars 32 d)

  abbrev place_fields : String → String → String → Fields
  place_fields ticket_id side decision_id =
      field (some "ticket_id") (text ticket_id)
        (field (some "side") (text side) (field (some "decision_id") (text decision_id) no_field))

  -- Texts are canonical as they are, so that these digests need no normalization.
  unfoldable pub exec_place_key : String → String → String → String
  unfolding take_chars
  exec_place_key ticket_id side decision_id =
      take_chars 32 (c.sha256 (c.dumps (object (place_fields ticket_id side decision_id))))

  unfoldable pub exec_cancel_key : String → String
  unfolding take_chars
  exec_cancel_key order_id =
      take_chars 32 (c.sha256 (c.dumps (object (field (some "order_id") (text order_id) no_field))))

  abbrev order_fields : OrderRequest → Fields
  order_fields o = field (some "ticket_id") (text o.ticket_id) (
      field (some "side") (text (side_text o.side)) (
        field (some "decision_id") (text o.decision_id) (
          field (some "mint") (text o.mint) (
            field (some "size_lamports") (int_or_null o.size_lamports) (
              field (some "token_units") (int_or_null o.token_units)
                (field (some "max_slippage_bps") (int o.max_slippage_bps) no_field))))))

  unfoldable pub order_hash_for : OrderRequest → String
  order_hash_for o = c.sha256 (c.dumps (object (order_fields o)))

  place_fields-canonical :
      (ticket_id side decision_id : String)
      → digest_of (place_fields ticket_id side decision_id)
        ≡ some (c.sha256 (c.dumps (object (place_fields ticket_id side decision_id))))
  unfolding digest_of canonical_json normalize normalize_fields
  place_fields-canonical ticket_id side decision_id = refl
