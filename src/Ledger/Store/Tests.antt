-- ===== src/Ledger/Store/Tests.antt =====
-- The store's theorems on a ledger of a few entries, with a digest that prints its body's text.
use pump_grok.Prelude.{
  ℕ, String, ◌≡◌, ◌≢◌, refl, ap, true, false, Option, none, some, List, [], ◌∷◌, arith, str_eq,
  if◌then◌else◌,
}
use pump_grok.Prelude.Lists.{contains}
use pump_grok.Ledger.Store.{
  Row, HashBody, Store, Entry, ok, err, duplicate, genesis_head, genesis_prev_hash, next_head,
  check_envelope, has_key, has_hash, insert_row, make_row, write_valid, write_entry, write_all,
  append_batch, verify_from, verify,
}
use pump_grok.Ledger.Store.Chain.{append_batch-verify}
use pump_grok.Ledger.Store.Batch.{append_each, append_batch-append_each}
use pump_grok.Ledger.Store.Tamper.{tamper_evident}

abbrev digest : HashBody → String
digest b = b.payload_json

abbrev validate : String → String → Option String
validate type payload = if str_eq payload "" then none else some payload

abbrev entry : String → String → Entry String
entry key payload = record {
  ts_utc = "t";
  source = "paper";
  correlation_id = "c";
  idempotency_key = key;
  type = "JournalNote";
  payload = payload;
}

abbrev two : List (Entry String)
two = entry "k1" "first" ∷ entry "k2" "second" ∷ []

-- The second entry repeats the first one's key.
abbrev repeated : List (Entry String)
repeated = entry "k1" "first" ∷ entry "k1" "second" ∷ entry "k2" "third" ∷ []

abbrev empty : Store
empty = record { rows = []; inconsistent = false }

abbrev row : ℕ → String → String → String → Row
row n prev key payload = record {
  body = record {
    prev_hash = prev;
    seq = n;
    ts_utc = "t";
    source = "paper";
    correlation_id = "c";
    idempotency_key = key;
    type = "JournalNote";
    payload_json = payload;
  };
  hash = payload;
}

abbrev stored : List Row
stored = row 1 genesis_prev_hash "k1" "first" ∷ row 2 "first" "k2" "second" ∷ []

abbrev after_two : Store
after_two = record { rows = stored; inconsistent = false }

two-ok : append_batch digest validate empty two ≡ ok (stored, after_two)
unfolding append_batch write_all write_entry write_valid check_envelope contains next_head make_row
    insert_row has_key has_hash
two-ok = refl

repeated-duplicate : append_batch digest validate empty repeated ≡ err duplicate
unfolding append_batch write_all write_entry write_valid check_envelope contains next_head make_row
    insert_row has_key has_hash
repeated-duplicate = refl

append_batch-verify_example : verify digest after_two ≡ (ok true, after_two)
unfolding verify_from
append_batch-verify_example =
    append_batch-verify digest validate empty after_two two stored refl two-ok

append_batch-append_each_example :
    append_batch digest validate empty repeated ≡ append_each digest validate empty repeated
append_batch-append_each_example = append_batch-append_each digest validate empty repeated refl

-- The first row's time is altered, and its hash is kept.
abbrev whole_digest : HashBody → String
whole_digest b = if str_eq b.ts_utc "t" then b.payload_json else b.ts_utc

abbrev altered : List Row
altered =
    record {
      body = record {
        prev_hash = genesis_prev_hash;
        seq = 1;
        ts_utc = "later";
        source = "paper";
        correlation_id = "c";
        idempotency_key = "k1";
        type = "JournalNote";
        payload_json = "first";
      };
      hash = "first";
    }
    ∷ row 2 "first" "k2" "second"
    ∷ []

abbrev first_time : List Row → String
first_time [] = ""
first_time (r ∷ rs) = r.body.ts_utc

true-ne-false : true ≡ false → ⊥
true-ne-false h = cc

tamper_evident_example : verify_from whole_digest genesis_prev_hash altered ≡ false
tamper_evident_example =
    tamper_evident whole_digest stored altered (apart, (λ e. refl, tt)) whole (omega arith) same
      differ
  where
    apart :
        ◌≡◌ {A = String} "first" "later"
        → (row 1 genesis_prev_hash "k1" "first").body ≡ (record {
          prev_hash = genesis_prev_hash;
          seq = 1;
          ts_utc = "later";
          source = "paper";
          correlation_id = "c";
          idempotency_key = "k1";
          type = "JournalNote";
          payload_json = "first";
        })
    apart e = absurd (true-ne-false (ap (λ x. str_eq x "first") e))

    whole : verify_from whole_digest genesis_prev_hash stored ≡ true
    whole = unfold verify_from in refl

    same : (next_head genesis_head stored).1 ≡ (next_head genesis_head altered).1
    same = unfold next_head in refl

    differ : stored ≢ altered
    differ e = true-ne-false (ap (λ rs. str_eq (first_time rs) "t") e)
