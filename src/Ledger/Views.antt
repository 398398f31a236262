-- ===== src/Ledger/Views.antt =====
-- src/pumpgrok/ledger/views.py: the money views over the folded state.
use pump_grok.Prelude.{◌≡◌, refl, [], ◌∷◌, inl, inr, Bool-cases, ap, if◌then◌else◌}
use pump_grok.Prelude.Int.{ℤ, pos, ◌+ℤ◌, ◌-ℤ◌, ltb_ℤ, int_laws}
use pump_grok.Prelude.Dict.{Dict, total}
use pump_grok.Ledger.State.{LedgerState, PositionView, position_value_lamports, open_value}
use pump_grok.Ledger.State

-- The entries with units.
unfoldable pub open_entries : Dict PositionView → Dict PositionView
open_entries [] = []
open_entries ((mint, p) ∷ d) =
    if ltb_ℤ (pos 0) p.token_units then (mint, p) ∷ open_entries d else open_entries d

-- `views.positions`
unfoldable pub positions : LedgerState → Dict PositionView
positions s = open_entries s.positions

unfoldable pub unrealized_pnl_lamports : LedgerState → ℤ
unrealized_pnl_lamports s =
    total (λ p. position_value_lamports p -ℤ p.cost_basis_lamports) (positions s)

unfoldable pub equity_lamports : LedgerState → ℤ
equity_lamports s = s.cash_lamports +ℤ total position_value_lamports (positions s)

total-open_entries :
    (d : Dict PositionView) → total position_value_lamports (open_entries d) ≡ total open_value d
unfolding open_entries total open_value
total-open_entries [] = refl
total-open_entries ((mint, p) ∷ d) = elim (Bool-cases (ltb_ℤ (pos 0) p.token_units)) [
  | inl e ↦ rw e (ap (λ x. position_value_lamports p +ℤ x) (total-open_entries d))
  | inr e ↦ rw e (rw (total-open_entries d) (omega int_laws))
]

total-sub :
    (f g : PositionView → ℤ) (d : Dict PositionView)
    → total (λ p. f p -ℤ g p) d +ℤ total g d ≡ total f d
unfolding total
total-sub f g [] = omega int_laws
total-sub f g ((mint, p) ∷ d) = rw (← total-sub f g d) (omega int_laws)

-- The equity view is the figure that the reducer tracks the peak by, and splits into cash, the
-- cost basis of the open positions and the unrealized result.
pub equity_views :
    (s : LedgerState)
    → (equity_lamports s ≡ State.equity_lamports s)
      × (equity_lamports s
          ≡ s.cash_lamports
            +ℤ total (λ p. p.cost_basis_lamports) (positions s)
            +ℤ unrealized_pnl_lamports s)
unfolding equity_lamports positions unrealized_pnl_lamports State.equity_lamports
equity_views s = (
  ap (λ x. s.cash_lamports +ℤ x) (total-open_entries s.positions),
  rw (← total-sub position_value_lamports (λ p. p.cost_basis_lamports) (open_entries s.positions))
      (omega int_laws),
)
