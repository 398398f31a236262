-- ===== src/Risk/Engine/Planned.antt =====
-- What a flatten sells, and that no limit stops it: src/pumpgrok/risk/engine/core.py.
use pump_grok.Prelude.{
  ℕ, ◌+◌, Bool, true, false, String, Option, some, List, [], ◌∷◌, ◌≡◌, refl, ap, map, inl, inr,
  Bool-cases, if◌then◌else◌,
}
use pump_grok.Prelude.Int.{ℤ, pos, leb_ℤ}
use pump_grok.Prelude.Dict.{Dict}
use pump_grok.Ledger.State.{PositionView}
use pump_grok.Risk.Engine.Vocabulary.{accepted, paper}
use pump_grok.Risk.Engine.Model.{Engine, Walk, pass}
use pump_grok.Risk.Engine.Approvals.{mint_autonomous}
use pump_grok.Risk.Engine.Walk.{evaluate}
use pump_grok.Risk.Engine.Context.{World, new_ask}
use pump_grok.Risk.Engine.Exits.{evaluate_flatten}
use pump_grok.Risk.Engine.Flatten.{FlattenOrder, flatten_order, plan_flatten}

-- What is held: each mint with its units.
unfoldable pub holdings : Dict PositionView → List (String × Option ℤ)
holdings [] = []
holdings ((mint, p) ∷ positions) =
    let rest = holdings positions in
    if leb_ℤ p.token_units (pos 0) then rest else (mint, some p.token_units) ∷ rest

-- What an order sells.
abbrev pub sold : FlattenOrder → String × Option ℤ
sold f = (f.order.mint, f.order.token_units)

-- Every order passes the engine's check at ACCEPTED, whatever the desk's other gates say.
abbrev pub AllPass : Engine → World → Walk → List FlattenOrder → Type 0
AllPass e world w [] = Unit
AllPass e world w (f ∷ fs) =
    ((seat creator : Option String)
      → evaluate e (new_ask f.order seat (some "kill_flatten") creator accepted world) w
        ≡ pass (record w { approval = some (mint_autonomous e f.order (some "kill_flatten")) }))
    × AllPass e world w fs

module _ (ulid : ℕ → String) (now_iso : String) (max_slippage_bps : ℤ) (correlation_id : String)
    (builds : FlattenOrder → Bool) where
  -- Every held position's order is one that the models accept, whichever id it gets.
  abbrev pub AllBuild : Dict PositionView → Type 0
  AllBuild [] = Unit
  AllBuild ((mint, p) ∷ positions) =
      (leb_ℤ p.token_units (pos 0) ≡ false
        → (n : ℕ)
        → builds (flatten_order ulid now_iso max_slippage_bps correlation_id n mint p) ≡ true)
      × AllBuild positions

  -- A flatten of positions whose orders the models accept is planned: it sells exactly what is held,
  -- each position in full by one order, and on a paper desk whose ledger verifies every one of its
  -- orders passes the engine's check: whatever the kill switch, the halt, the breakers, the
  -- approvals, the seats and the limits say.
  pub plan_flatten-AllPass :
      (e : Engine) (world : World) (w : Walk) (n : ℕ) (positions : Dict PositionView)
      → AllBuild positions
      → e.mode ≡ paper
      → e.is_verified ≡ true
      → (fs : List FlattenOrder) × (plan_flatten ulid now_iso max_slippage_bps correlation_id builds
            n positions
          ≡ some fs)
        × (map sold fs ≡ holdings positions)
        × AllPass e world w fs
  unfolding plan_flatten holdings flatten_order
  plan_flatten-AllPass e world w n [] built mode verified = ([], refl, refl, tt)
  plan_flatten-AllPass e world w n ((mint, p) ∷ positions) (well, built) mode verified =
      let (fs, planned, same, passes) =
        plan_flatten-AllPass e world w n positions built mode verified in
      let (gs, planned', same', passes') =
        plan_flatten-AllPass e world w (n + 2) positions built mode verified in
      let f = flatten_order ulid now_iso max_slippage_bps correlation_id n mint p in
      elim (Bool-cases (leb_ℤ p.token_units (pos 0))) [
        | inl flat ↦ (fs, rw (plan_flatten, flat) planned, rw (holdings, flat) same, passes)
        | inr held ↦ (
          f ∷ gs,
          rw (plan_flatten, held, well held n, planned') refl,
          rw (holdings, held) (ap (λ rest. (mint, some p.token_units) ∷ rest) same'),
          (
            λ seat creator. evaluate_flatten e f.order seat creator world w mode verified refl,
            passes',
          ),
        )
      ]
