-- ===== src/Liquidation/Tests.antt =====
-- One account that is short of its margin.
use kryon.Common.{
  ℕ, ◌<◌, ◌/◌, ◌⊎◌, String, true, false, none, some, [], ◌∷◌, ◌≡◌, ◌↔◌, refl, keep, arith, All, In,
  ◌==◌, if◌then◌else◌,
}
use kryon.Database.Exec.{ok}
use kryon.Matcher.Sort.{sort, Pairwise}
use kryon.Common.Int.{pos}
use kryon.Liquidation.{SizingPosition, SizingHealth, Climbs, close_size_ladder, price_precision}
use kryon.Liquidation.Needed.{IsNeeded, close_size_ladder-tries}
use kryon.Liquidation.Keeper.{
  HealthView, PositionView, KeeperConfig, success, failure, liquidate_account, notional, ranked,
  submit, poll_from, SubmitAnswers, not_found,
}
use kryon.Liquidation.Keeper.Plan.{attempt, plan, Follows, liquidate_account-Follows}
use kryon.Liquidation.Keeper.Order.{IsSoundFor, Precedes, liquidate_account-Precedes}
use kryon.Liquidation.Keeper.Unconfirmed.{IsUnconfirmed}
use kryon.Liquidation.Keeper.Scan.{close, scan, IsDue, scan-IsDue}

abbrev position : SizingPosition
position = record { size = 1000 }

abbrev health : SizingHealth
health = record { equity = pos 40; maintenance_margin_required = pos 140 }

close_size_ladder-run : close_size_ladder position price_precision health ≡ 125 ∷ 500 ∷ 1000 ∷ []
unfolding close_size_ladder sort keep
close_size_ladder-run = refl

close_size_ladder-tries_example :
    Climbs 0 1000 (close_size_ladder position price_precision health)
    × ((x : ℕ)
        → In x (close_size_ladder position price_precision health)
          ↔ ((0 < x) × (IsNeeded position price_precision health x ⊎ (x ≡ 1000 / 2) ⊎ (x ≡ 1000))))
close_size_ladder-tries_example =
    close_size_ladder-tries position price_precision health (omega arith)

-- A keeper of one market, at a price of one dollar, whose transactions are all refused but those of half a position.
abbrev big : PositionView
big = record {
  position_id = 7;
  market_id = 1;
  size = 1000;
  entry_price = price_precision;
  is_long = true;
}

abbrev small : PositionView
small = record {
  position_id = 8;
  market_id = 1;
  size = 10;
  entry_price = price_precision;
  is_long = false;
}

abbrev at_risk : HealthView
at_risk = record { liquidatable = true; equity = pos 40; maintenance_margin_required = pos 140 }

abbrev keeper : KeeperConfig
keeper = record {
  symbol_of = λ id. some "BTC";
  positions_of = λ user. ok (small ∷ big ∷ []);
  oracle_price = λ p symbol. ok (some (pos price_precision));
  on_liquidate = λ x. record {
    account = ok tt;
    simulated = ok (if x.close_size == 500 then none else some "WouldNotImproveHealth");
    sent = ok (some "tx");
    polled = λ i. ok success;
  };
  is_valid_public_key = λ s. true;
  settle_deficits = false;
  settlement_balance = λ s. ok none;
  on_settle = λ s. record {
    account = ok tt;
    simulated = ok none;
    sent = ok none;
    polled = λ i. ok failure;
  };
  account_health = λ s. ok (some at_risk);
}

-- The position of the largest notional is tried at the smallest size that should do, then at half.
liquidate_account-run :
    liquidate_account keeper "G" at_risk
    ≡ (ok true, attempt "G" big price_precision 125 ∷ attempt "G" big price_precision 500 ∷ [])
unfolding liquidate_account close_size_ladder sort keep notional submit poll_from
liquidate_account-run = refl

liquidate_account-Follows_example :
    let (r, xs) = liquidate_account keeper "G" at_risk in
    Follows keeper r xs (plan keeper "G" at_risk (ranked (small ∷ big ∷ [])))
liquidate_account-Follows_example =
    liquidate_account-Follows keeper "G" at_risk (small ∷ big ∷ []) refl

liquidate_account-Precedes_example :
    let (r, xs) = liquidate_account keeper "G" at_risk in
    All (IsSoundFor keeper "G" (small ∷ big ∷ [])) xs × Pairwise Precedes xs
liquidate_account-Precedes_example =
    liquidate_account-Precedes keeper "G" at_risk (small ∷ big ∷ []) refl
      (((λ e. omega (arith, e)), tt), (tt, tt))

scan-IsDue_example : In (close (attempt "G" big price_precision 500)) (scan keeper ("G" ∷ [])) ↔ (
    (address : String) × In address ("G" ∷ [])
    × IsDue keeper (attempt "G" big price_precision 500) address)
scan-IsDue_example = scan-IsDue keeper ("G" ∷ []) (attempt "G" big price_precision 500)

-- The same keeper, whose transactions no poll finds.
abbrev slow : SubmitAnswers
slow = record {
  account = ok tt;
  simulated = ok none;
  sent = ok (some "tx");
  polled = λ i. ok not_found;
}

abbrev slow_keeper : KeeperConfig
slow_keeper = record keeper { on_liquidate = λ x. slow }

slow-IsUnconfirmed : IsUnconfirmed slow
slow-IsUnconfirmed = record {
  account = refl;
  simulated = refl;
  hash = "tx";
  sent = refl;
  pending = λ i. refl;
}
