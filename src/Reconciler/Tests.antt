-- ===== src/Reconciler/Tests.antt =====
-- One submitted job, and the theorems on the reconciler at it.
use kryon.Common.{String, Option, none, some, [], ◌∷◌, arith}
use kryon.Matcher.Settlement.{settle_fill}
use kryon.Matcher.Tests.{tables, limits, payload}
use kryon.Matcher.Fills.RoundTrip.{calm}
use kryon.Reconciler.{Config, not_found, expire_stale_queued, tick}
use kryon.Reconciler.Keeps.{reconcile-IsWithin}
use kryon.Reconciler.Expiry.{StaleAreSigned, expire_stale_queued_complete}
use kryon.Database.{Db, TxJob, TxStatus, queued, submitted}
use kryon.Database.Orders.{IsWithin}
use kryon.Database.Exec.{ok}

abbrev config : Config
config = record {
  operator_secret = some "S";
  stale_queued_minutes = 15;
  get_transaction = λ tx i w. ok not_found;
  rebuild_and_send = λ p w. ok "new";
}

abbrev pub job : TxStatus → Option String → TxJob
job status tx = record {
  id = 1;
  network = "testnet";
  kind = settle_fill;
  payload_hash = "h";
  unsigned_xdr = some (record payload {
    maker_signed_entry = some "m";
    taker_signed_entry = some "t";
    pending_tx_hash = some "h";
  });
  status = status;
  last_error = none;
  submitted_hash = tx;
  attempts = 0;
  created_at = 0;
  updated_at = 0;
}

abbrev sent : Db
sent = tables limits (job submitted (some "tx") ∷ [])

reconcile-IsWithin_example : IsWithin (tick config (calm sent 100)).1.db
reconcile-IsWithin_example = reconcile-IsWithin config (calm sent 100) (omega arith)

abbrev waiting : Db
waiting = tables limits (job queued none ∷ [])

expire_stale_queued_complete_example :
    StaleAreSigned 15 1000 (expire_stale_queued config (calm waiting 1000)).1.db.jobs
expire_stale_queued_complete_example = expire_stale_queued_complete config waiting 1000
