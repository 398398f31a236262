-- ===== src/Risk/KillSwitch/Epochs.antt =====
-- The keys of the rows that `observe` writes: src/pumpgrok/risk/killswitch.py.
use pump_grok.Prelude.{
  ℕ, zero, suc, ◌≤◌, Bool, true, false, ◌||◌, String, none, List, [], ◌∷◌, ◌++◌, if◌then◌else◌, ◌≡◌,
  refl, sym, ap, ◌∙◌, inl, inr, Bool-cases, str_eq, ◌==◌, arith,
}
use pump_grok.Ledger.Events.{EventSource, Body, kill_switch_set, kill_switch_cleared}
use pump_grok.Risk.KillSwitch.Model.{
  TextOps, KillState, Logged, latest_from, latest_set, clear_epoch, joined, drop_chars, starts_with,
}
use pump_grok.Risk.KillSwitch.Alerts.{is_there}
use pump_grok.Risk.KillSwitch.Clear.{
  ◌⧺◌, Hashing, kill_switch_text, kill_switch_key, key_taken, observe_state,
}
use pump_grok.Risk.KillSwitch.Cleared.{latest_from-append}

joined-cancel : (a b c : String) → joined a b ≡ joined a c → b ≡ c
unfolding joined drop_chars
joined-cancel String.[] b c e = e
joined-cancel (String.◌∷◌ x a) b c e = joined-cancel a b c (ap (drop_chars 1) e)

abbrev epoch_text : Hashing → ℕ → String
epoch_text h n = if n == 0 then "" else "|epoch=" ⧺ h.decimal n

suc-nonzero : (n : ℕ) → suc n == 0 ≡ false
suc-nonzero n = ground arith

epoch_text-injective :
    (h : Hashing) (m n : ℕ)
    → ((i j : ℕ) → h.decimal i ≡ h.decimal j → i ≡ j)
    → epoch_text h m ≡ epoch_text h n
    → m ≡ n
unfolding joined drop_chars starts_with
epoch_text-injective h zero zero decimal e = refl
epoch_text-injective h zero (suc n) decimal e =
    let e' = rw (suc-nonzero n) at e in
    let stuck : false ≡ true = ap (λ s. starts_with s "|") e' in cc
epoch_text-injective h (suc m) zero decimal e =
    let e' = rw (suc-nonzero m) at e in
    let stuck : true ≡ false = ap (λ s. starts_with s "|") e' in cc
epoch_text-injective h (suc m) (suc n) decimal e =
    decimal (suc m) (suc n) (joined-cancel "|epoch=" _ _ (rw (suc-nonzero m, suc-nonzero n) at e))

-- Two engagements of one origin, reason, day and flatten request have one key only in one epoch, if
-- SHA-256 does not collide on their texts.
pub kill_switch_key-epoch :
    (h : Hashing) (origin reason day_utc : String) (flatten : Bool) (m n : ℕ)
    → ((i j : ℕ) → h.decimal i ≡ h.decimal j → i ≡ j)
    → ((i j : ℕ)
        → kill_switch_key h origin reason day_utc flatten i
          ≡ kill_switch_key h origin reason day_utc flatten j
        → kill_switch_text h origin reason day_utc flatten i
          ≡ kill_switch_text h origin reason day_utc flatten j)
    → kill_switch_key h origin reason day_utc flatten m
      ≡ kill_switch_key h origin reason day_utc flatten n
    → m ≡ n
unfolding kill_switch_text
kill_switch_key-epoch h origin reason day_utc flatten m n decimal apart e =
    let e1 = joined-cancel "KillSwitchSet|" _ _ (apart m n e) in
    let e2 = joined-cancel origin _ _ e1 in
    let e3 = joined-cancel "|" _ _ e2 in
    let e4 = joined-cancel reason _ _ e3 in
    let e5 = joined-cancel "|" _ _ e4 in
    let e6 = joined-cancel day_utc _ _ e5 in
    let e7 = joined-cancel (if flatten then "|flatten" else "") _ _ e6 in
    epoch_text-injective h m n decimal e7

pub clear_epoch-snoc :
    (rows : List Logged) (k : String) (body : Body)
    → clear_epoch (rows ++ (k, body) ∷ [])
      ≡ (elim body [ kill_switch_cleared row ↦ suc (clear_epoch rows) | _ ↦ clear_epoch rows ])
unfolding clear_epoch
clear_epoch-snoc [] k (kill_switch_cleared row) = refl
clear_epoch-snoc [] k body = refl
clear_epoch-snoc ((j, kill_switch_cleared row') ∷ rows) k (kill_switch_cleared row) =
    ap suc (clear_epoch-snoc rows k (kill_switch_cleared row))
clear_epoch-snoc ((j, kill_switch_cleared row') ∷ rows) k body =
    ap suc (clear_epoch-snoc rows k body)
clear_epoch-snoc ((j, b) ∷ rows) k body = clear_epoch-snoc rows k body

pub key_taken-snoc :
    (j : String) (rows : List Logged) (k : String) (body : Body)
    → key_taken j (rows ++ (k, body) ∷ []) ≡ key_taken j rows || str_eq k j
unfolding key_taken
key_taken-snoc j [] k body = elim (Bool-cases (str_eq k j)) [
  | inl e ↦ rw e refl
  | inr e ↦ rw e refl
]
key_taken-snoc j ((i, b) ∷ rows) k body = elim (Bool-cases (str_eq i j)) [
  | inl e ↦ rw e refl
  | inr e ↦ rw e (key_taken-snoc j rows k body)
]

-- One engagement on one day: a ledger on which `observe` records it, and whatever else appends rows
-- of other keys, the clears and the sets of other engagements among them.
module _ (h : Hashing) (state : KillState) (day_utc : String) where
  abbrev pub key_at : ℕ → String
  key_at n = kill_switch_key h state.source state.reason day_utc state.flatten_requested n

  abbrev pub text_at : ℕ → String
  text_at n = kill_switch_text h state.source state.reason day_utc state.flatten_requested n

  -- `observes` writes the row on a ledger that may have grown since it was read.
  pub data Reach : List Logged → Type 0 where
    start : Reach []
    observes :
        {rows : List Logged} (o : TextOps) (source : EventSource) (read : List Logged)
        → Reach rows
        → Reach (observe_state o h state day_utc source read rows)
    appends :
        {rows : List Logged} (k : String) (body : Body)
        → ((n : ℕ) → str_eq k (key_at n) ≡ false)
        → Reach rows
        → Reach (rows ++ (k, body) ∷ [])

  -- A key that is taken is of an epoch that has begun, and one of this epoch is of a set row that no
  -- clear has followed.
  abbrev pub AreSets : List Logged → Type 0
  AreSets rows =
      (n : ℕ)
      → key_taken (key_at n) rows ≡ true
      → (n ≤ clear_epoch rows) × (n ≡ clear_epoch rows → is_there (latest_set rows) ≡ true)

  pub appends-AreSets :
      (rows : List Logged) (k : String) (body : Body)
      → ((n : ℕ) → str_eq k (key_at n) ≡ false)
      → AreSets rows
      → AreSets (rows ++ (k, body) ∷ [])
  unfolding latest_set latest_from
  appends-AreSets rows k body other w n taken =
      let (le, there) =
        w n (or-left _ _ (sym (key_taken-snoc (key_at n) rows k body) ∙ taken) (other n)) in
      by_body body le there
    where
      or-left : (a b : Bool) → a || b ≡ true → b ≡ false → a ≡ true
      or-left true b e f = refl
      or-left false b e f = cc

      by_body :
          (b : Body)
          → n ≤ clear_epoch rows
          → (n ≡ clear_epoch rows → is_there (latest_set rows) ≡ true)
          → (n ≤ clear_epoch (rows ++ (k, b) ∷ []))
            × (n ≡ clear_epoch (rows ++ (k, b) ∷ [])
                → is_there (latest_set (rows ++ (k, b) ∷ [])) ≡ true)
      by_body (kill_switch_cleared row) le there =
          rw (clear_epoch-snoc rows k (kill_switch_cleared row))
            (omega arith, λ e. absurd (omega arith))
      by_body (kill_switch_set row) le there =
          rw
            (
              clear_epoch-snoc rows k (kill_switch_set row),
              latest_from-append none rows ((k, kill_switch_set row) ∷ []),
            )
            (le, λ e. refl)
      by_body b le there =
          rw (clear_epoch-snoc rows k b, latest_from-append none rows ((k, b) ∷ [])) (le, there)
