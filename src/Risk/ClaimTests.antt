-- ===== src/Risk/ClaimTests.antt =====
-- Two orders at two half-open breakers: the first holds one probe, and the second claims the other.
use pump_grok.Prelude.{◌≡◌, refl, true, false, ◌&&◌, String, none, some}
use pump_grok.Risk.Breaker.{Breaker, is_open, admit_probe}
use pump_grok.Risk.Claim.{
  Name, loss_velocity, by_name, with_breaker, read_all, filter_names, half_open_names, owner_of,
  with_owner, drop_settled, Desk, snapshot_probes, claim_free, claim_probe, take_probe,
}
use pump_grok.Risk.Claim.Release.{release_order_probes}
use pump_grok.Risk.Claim.Released.{IsReleasedFrom, release_order_probes-IsReleasedFrom}
use pump_grok.Risk.Claim.Exclusive.{Holds, sees_half_open, take_probe_lem}

abbrev shut : Breaker
shut = record {
  threshold = 2;
  cooldown_s = 10;
  reset_after_ok = 2;
  consecutive_failures = 0;
  successes = 0;
  opened_at = none;
  half_open = false;
  probe_inflight = false;
  trips = 0;
}

abbrev half : Breaker
half = record shut { half_open = true; consecutive_failures = 1 }

abbrev probed : Breaker
probed = record half { probe_inflight = true }

abbrev desk : Desk
desk = record {
  breakers = record { stale = probed; velocity = half; errors = shut };
  owners = record { stale = some "first"; velocity = some "gone"; errors = none };
}

abbrev claimed : Desk
claimed = record {
  breakers = record { stale = probed; velocity = probed; errors = shut };
  owners = record { stale = some "first"; velocity = some "second"; errors = none };
}

second-claims : take_probe true desk "second" 5 6 ≡ some (true, claimed)
unfolding take_probe snapshot_probes claim_probe claim_free drop_settled read_all half_open_names
    filter_names by_name owner_of with_breaker with_owner is_open admit_probe
second-claims = refl

take_probe_lem_example :
    ((other : String) (n : Name) → Holds desk other n → Holds claimed other n)
    × (true ≡ true → (n : Name) × Holds claimed "second" n)
    × ((true && sees_half_open desk "second" 5) ≡ true → true ≡ true)
take_probe_lem_example = take_probe_lem true desk claimed "second" 5 6 true second-claims

release_order_probes-IsReleasedFrom_example :
    IsReleasedFrom claimed (release_order_probes claimed "second" true 7).1 "second" loss_velocity
release_order_probes-IsReleasedFrom_example =
    release_order_probes-IsReleasedFrom claimed "second" true 7 loss_velocity
