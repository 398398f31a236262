-- ===== src/Core/Order.antt =====
-- src/pumpgrok/core/adapter.py: the order that a seat asks for.
use pump_grok.Prelude.{String, Bool, true, false, Option, none, some, List, [], ◌∷◌, ◌&&◌, str_eq}
use pump_grok.Prelude.Int.{ℤ, leb_ℤ}

pub data Side : Type 0 where
  buy sell : Side

abbrev pub is_buy_side : Side → Bool
is_buy_side buy = true
is_buy_side sell = false

pub record OrderRequest : Type 0 where
  pub ticket_id : String
  pub mint : String
  pub side : Side
  pub decision_id : String
  pub size_lamports : Option ℤ
  pub token_units : Option ℤ
  pub max_slippage_bps : ℤ
  pub approval_id : String
  pub quote_id : Option String
  pub exit_reason : Option String
  pub correlation_id : String

abbrev pub exit_rule_reasons : List String
exit_rule_reasons = "stop_loss" ∷ "take_profit" ∷ "trailing_stop" ∷ "max_hold" ∷ []

-- Python's `==` on integers, and on values that may be None.
abbrev pub eqb_ℤ : ℤ → ℤ → Bool
eqb_ℤ a b = leb_ℤ a b && leb_ℤ b a

abbrev pub same_int : Option ℤ → Option ℤ → Bool
same_int none none = true
same_int none (some b) = false
same_int (some a) none = false
same_int (some a) (some b) = eqb_ℤ a b

abbrev pub same_text : Option String → Option String → Bool
same_text none none = true
same_text none (some b) = false
same_text (some a) none = false
same_text (some a) (some b) = str_eq a b
