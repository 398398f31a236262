-- ===== src/Core/Approval.antt =====
-- src/pumpgrok/core/approvals.py: approvals and the orders that they bind.
use pump_grok.Prelude.{
  String, Bool, true, false, not, Option, none, some, ◌&&◌, ◌||◌, if◌then◌else◌,
}
use pump_grok.Prelude.Int.{ℤ}
use pump_grok.Core.Order.{Side, buy, sell, OrderRequest, is_buy_side, same_int, same_text}

pub data Kind : Type 0 where
  human_buy human_sell exit_rule autonomous_paper killswitch_clear halt_clear live_gate : Kind

pub record ApprovalRecord : Type 0 where
  pub id : String
  pub kind : Kind
  pub ticket_id : Option String
  pub mint : Option String
  pub size_lamports : Option ℤ
  pub token_units : Option ℤ
  pub max_slippage_bps : Option ℤ
  pub exit_rule_id : Option String
  pub approved_by : String
  pub raw_message : String
  pub at : String
  pub consumed : Bool

-- `ORDER_SIDES.get(kind) == side`
abbrev pub authorises : Kind → Side → Bool
authorises human_buy buy = true
authorises human_sell sell = true
authorises exit_rule sell = true
authorises _ _ = false

abbrev is_some {ℓ} : {A : Type ℓ} → Option A → Bool
is_some none = false
is_some (some a) = true

-- Sizes of a buy, or of a sell by a human approval: both legs must agree with the request.
unfoldable pub legs_match : ApprovalRecord → OrderRequest → Bool
legs_match a r =
    (not (is_some a.size_lamports) || same_int a.size_lamports r.size_lamports)
    && (if is_some a.token_units
        then same_int a.token_units r.token_units
        else not (is_some r.token_units))

-- The rest of `_size_matches`, for a sell, by the approval's kind.
unfoldable pub sell_size_matches : Kind → ApprovalRecord → OrderRequest → Bool
unfolding legs_match
sell_size_matches human_sell a r = legs_match a r
sell_size_matches exit_rule a r = same_int a.token_units r.token_units
sell_size_matches autonomous_paper a r =
    if is_some r.token_units && is_some a.token_units
    then same_int a.token_units r.token_units
    else same_int a.size_lamports r.size_lamports
sell_size_matches _ a r = false

unfoldable pub size_matches : ApprovalRecord → OrderRequest → Bool
unfolding legs_match sell_size_matches
size_matches a r = if is_buy_side r.side then legs_match a r else sell_size_matches a.kind a r

unfoldable pub matches : ApprovalRecord → OrderRequest → Bool
unfolding size_matches
matches a r =
    if a.consumed || not (authorises a.kind r.side)
    then false
    else if not (same_text a.ticket_id (some r.ticket_id)) || not (same_text a.mint (some r.mint))
    then false
    else if not (same_int a.max_slippage_bps (some r.max_slippage_bps))
    then false
    else size_matches a r
