-- ===== src/Funding/Tests.antt =====
-- A market whose funding was updated at second 100, and now is at second 200.
use kryon.Common.{◌≡◌, refl, none, some}
use kryon.Database.Exec.{ok}
use kryon.Liquidation.Keeper.{success}
use kryon.Funding.{FundingAnswers, update_funding, confirm_from}
use kryon.Funding.Moved.{IsConfirmed, update_funding-IsConfirmed}

abbrev answers : FundingAnswers
answers = record {
  before = ok (some 100);
  account = ok tt;
  simulated = ok none;
  sent = ok (some "tx");
  polled = λ i. ok success;
  after = λ i. ok (some 200);
}

update_funding-run : update_funding answers ≡ ok (some "tx")
unfolding update_funding confirm_from
update_funding-run = refl

update_funding-IsConfirmed_example : IsConfirmed answers
update_funding-IsConfirmed_example = update_funding-IsConfirmed answers "tx" update_funding-run
