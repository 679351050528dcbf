-- ===== src/Settling/Tests.antt =====
-- The maker of a queued job signs after the taker.
use kryon.Common.{
  ℕ, ◌≡◌, refl, ◌==◌, find, update_where, any, arith, String, true, false, none, some, [], ◌∷◌,
  str_eq, if◌then◌else◌,
}
use kryon.Matcher.Tests.{payload, tables, limits}
use kryon.Matcher.Fills.RoundTrip.{calm}
use kryon.Reconciler.Tests.{job}
use kryon.Database.{queued, JobPayload}
use kryon.Database.Exec.{World, ok}
use kryon.Http.{Value, text, missing, object, Request}
use kryon.Settling.{SettleConfig, sign_post}
use kryon.Settling.{merge_entry, claim_submission, is_settle_job}
use kryon.Settling.Race.{
  System, signing, over, update, after_merging, after_claiming, has_both, Reach, here, next, merge,
  claim, IsStart,
}
use kryon.Settling.Race.Exclusive.{Reach-alone}
use kryon.Reconciler.{present, truthy}
use kryon.Reconciler.Jobs.{is_status, has_id}
use kryon.Settling.Keeps.{DiffersAtJob, sign_post-DiffersAtJob}

abbrev fields : String → Value
fields f =
    if str_eq f "address"
    then text "a"
    else if str_eq f "signedAuthEntry"
    then text "entry"
    else missing

abbrev request : Request
request = record {
  body = some (object fields);
  content_length = none;
  connecting_ip = some "1.2.3.4";
  forwarded_for = none;
  real_ip = none;
}

abbrev config : SettleConfig
config = record {
  limiter = record { redis = none; production = false };
  is_valid_public_key = λ s. true;
  entry_address = λ entry. some "a";
  fee_payer_secret = some "S";
  rebuild_and_send = λ p w. ok "tx";
}

abbrev before : World
before = calm (tables limits (job queued none ∷ [])) 100

sign_post-DiffersAtJob_example : DiffersAtJob 1 before.db (sign_post config 1 request before).1.db
sign_post-DiffersAtJob_example = sign_post-DiffersAtJob config 1 request before

-- The maker and the taker sign at once. The first to claim gets the claim.
abbrev both : System
both = record {
  db = before.db;
  requests =
      λ i. if i == 0 then signing true "entry" else if i == 1 then signing false "other" else over;
}

abbrev signed : JobPayload
signed = record payload {
  maker_signed_entry = some "entry";
  taker_signed_entry = some "other";
  pending_tx_hash = some "h";
}

both-IsStart : IsStart both
both-IsStart i = ground arith

abbrev after_merges : System
after_merges =
    let first = merge_entry 1 true "entry" 100 before.db in
    let second = merge_entry 1 false "other" 100 first.1 in
    record {
      db = second.1;
      requests = update (update both.requests 0 (after_merging first.0)) 1 (after_merging second.0);
    }

abbrev after_claim : System
after_claim =
    let won = claim_submission 1 100 after_merges.db in
    record { db = won.1; requests = update after_merges.requests 1 (after_claiming signed won.0) }

both-Reach : Reach 1 both after_claim
unfolding merge_entry is_settle_job is_status has_id has_both present truthy find update_where
both-Reach =
    next (next (next here (merge 0 true "entry" 100 refl)) (merge 1 false "other" 100 refl))
      (claim 1 signed 100 refl)

Reach-alone_example : (◌≡◌ {A = ℕ} 1 1) × (has_both signed ≡ true)
unfolding merge_entry claim_submission is_settle_job is_status has_id has_both present truthy find
    update_where any
Reach-alone_example =
    Reach-alone 1 both after_claim both-IsStart both-Reach 1 1 signed signed refl refl
