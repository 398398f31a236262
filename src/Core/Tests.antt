-- ===== src/Core/Tests.antt =====
-- Canonical JSON on a payload with a Decimal and a list.
use pump_grok.Prelude.{◌≡◌, refl, true, String, some}
use pump_grok.Prelude.Int.{pos}
use pump_grok.Prelude.Decimal.{Decimal, zero_decimal}
use pump_grok.Core.Json.{
  Value, text, int, ratio, array, object, item, no_item, field, no_field, normalize,
}
use pump_grok.Core.Canonical.{is_exact, normalize-exact}

abbrev shown : Decimal → String
shown d = "0"

abbrev payload : Value
payload = object (
    field (some "impact") (ratio zero_decimal)
      (field (some "sizes") (array (item (int (pos 1)) (item (int (pos 2)) no_item))) no_field))

abbrev canonical : Value
canonical = object (
    field (some "impact") (text "0")
      (field (some "sizes") (array (item (int (pos 1)) (item (int (pos 2)) no_item))) no_field))

normalize-exact_example : (is_exact canonical ≡ true) × (normalize shown canonical ≡ some canonical)
normalize-exact_example = normalize-exact shown payload canonical done
  where
    done : normalize shown payload ≡ some canonical
    done = unfold normalize in refl
