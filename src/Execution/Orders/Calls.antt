-- ===== src/Execution/Orders/Calls.antt =====
-- What `PaperAdapter` keeps of its calls: `place`, `_settle_probes` and `_clear_owned` of buy.py,
-- `_InflightOrders` of models.py, `_confirm_latency` of confirm_stages.py and `cancel` of adapter.py in
-- src/pumpgrok/execution/paper_adapter.
use pump_grok.Prelude.{
  ℕ, Bool, true, false, not, ◌||◌, String, Option, none, some, List, [], ◌∷◌, str_eq, ◌==◌,
  if◌then◌else◌,
}
use pump_grok.Prelude.Lists.{contains}
use pump_grok.Risk.KillSwitch.Model.{Logged}
use pump_grok.Risk.KillSwitch.Clear.{key_taken}
use pump_grok.Risk.Claim.{Desk}
use pump_grok.Risk.Claim.Release.{Change, release_order_probes}

-- `_active_places`, `_owned_order` by the calls' tokens, the in-flight set (which the adapter and its
-- barrier keep alike), and `_cancelled`.
pub record Calls : Type 0 where
  pub active : List String
  pub owned : ℕ → Option String
  pub inflight : List String
  pub cancelled : List String

unfoldable pub add : String → List String → List String
unfolding contains
add k ks = if contains k ks then ks else k ∷ ks

unfoldable pub discard : String → List String → List String
discard k [] = []
discard k (j ∷ ks) = let rest = discard k ks in if str_eq j k then rest else j ∷ rest

unfoldable pub update : (ℕ → Option String) → ℕ → Option String → ℕ → Option String
update f i o j = if j == i then o else f j

-- The start of `place`: whether the call owns its key.
unfoldable pub enter : Calls → String → Bool × Calls
unfolding contains add
enter s key = (not (contains key s.active), record s { active = add key s.active })

-- `_confirm_latency`'s registration.
unfoldable pub register : Calls → ℕ → String → Calls
unfolding update add
register s owner order_id = record s {
  owned = update s.owned owner (some order_id);
  inflight = add order_id s.inflight;
}

-- `_inflight.discard`, which a refusal at CONFIRMING and a settlement call.
unfoldable pub settle : Calls → String → Calls
unfolding discard
settle s order_id = record s { inflight = discard order_id s.inflight }

-- `_confirm_cancel_check`: whether a cancel landed.
unfoldable pub take_cancel : Calls → String → Bool × Calls
unfolding contains discard
take_cancel s order_id =
    if contains order_id s.cancelled
    then (
      true,
      record s { inflight = discard order_id s.inflight; cancelled = discard order_id s.cancelled },
    )
    else (false, s)

unfoldable pub cancel : Calls → String → Bool × Calls
unfolding contains add
cancel s order_id =
    if contains order_id s.inflight
    then (true, record s { cancelled = add order_id s.cancelled })
    else (false, s)

-- `_clear_owned`, by the order that the call registered.
unfoldable pub clear_order : Calls → ℕ → Option String → Calls
unfolding update discard
clear_order s owner none = s
clear_order s owner (some order_id) = record s {
  owned = update s.owned owner none;
  inflight = discard order_id s.inflight;
}

unfoldable pub clear_owned : Calls → ℕ → Calls
unfolding clear_order
clear_owned s owner = clear_order s owner (s.owned owner)

-- The `finally` of `place`.
unfoldable pub leave : Calls → Bool → String → ℕ → Calls
unfolding discard clear_owned
leave s owns_key key owner =
    clear_owned (if owns_key then record s { active = discard key s.active } else s) owner

abbrev is_some {ℓ} : {A : Type ℓ} → Option A → Bool
is_some none = false
is_some (some a) = true

-- Whether a call settles the probe of its order.
unfoldable pub settles : Calls → ℕ → String → List Logged → Bool
unfolding key_taken
settles s owner key rows = is_some (s.owned owner) || not (key_taken key rows)

-- `_settle_probes`
unfoldable pub settle_probes :
    Calls → ℕ → String → List Logged → String → Bool → ℕ → Desk → List Change × Desk
unfolding settles release_order_probes
settle_probes s owner key rows order_hash ok now desk =
    if settles s owner key rows then release_order_probes desk order_hash ok now else ([], desk)

-- The end of `place`, with its outcome: the breakers' rows, the desk and the adapter.
unfoldable pub end_place :
    Calls
    → Bool
    → ℕ
    → String
    → List Logged
    → String
    → Bool
    → ℕ
    → Desk
    → (List Change × Desk) × Calls
unfolding settle_probes leave
end_place s owns_key owner key rows order_hash ok now desk =
    (settle_probes s owner key rows order_hash ok now desk, leave s owns_key key owner)
