-- ===== src/Oracle/Idle.antt =====
-- `isPublishingNeeded` and `tick` of client/scripts/oracle-keeper.ts: the keeper stops publishing while nothing on
-- the exchange needs a price.
pub mod Suspended
use kryon.Common.{
  ℕ, ◌+◌, ◌*◌, ◌≡◌, String, Bool, true, false, Option, none, some, List, [], ◌∷◌, ltb, leb,
  if◌then◌else◌,
}
use kryon.Database.Exec.{World, Outcome, ok, thrown, Exec, pure, ◌>>=◌}
use kryon.Oracle.{OracleConfig}
use kryon.Oracle.Activity.{ActivityConfig, ActivityStatus, check_protocol_activity}
use kryon.Oracle.Publish.{OracleState, TickAnswers, tick_inner}

-- `last_activity_check` and `last_active_at` are times in milliseconds.
pub record IdleState : Type 0 where
  pub last_activity_check : ℕ
  pub last_active_at : ℕ
  pub cached_reasons : List String
  pub idle_logged : Bool

-- `Date.now()`
abbrev pub date_now : World → ℕ
date_now w = w.now * 1000 + w.millis

unfoldable pub boot : ℕ → IdleState
boot now = record {
  last_activity_check = 0;
  last_active_at = now;
  cached_reasons = [];
  idle_logged = false;
}

unfoldable pub is_check_due : OracleConfig → ℕ → IdleState → Bool
is_check_due c now s = leb (s.last_activity_check + c.activity_check_interval_ms) now

unfoldable pub after_check : ℕ → IdleState → ActivityStatus → IdleState
after_check now s status = record {
  last_activity_check = now;
  last_active_at = if status.active then now else s.last_active_at;
  cached_reasons = status.reasons;
  idle_logged = s.idle_logged;
}

-- The first half of `isPublishingNeeded`. The check answers whatever fails in it.
unfoldable pub checked : OracleConfig → ActivityConfig → IdleState → Exec IdleState
unfolding is_check_due after_check ◌>>=◌
checked c a s w =
    if is_check_due c (date_now w) s
    then (check_protocol_activity a >>= λ status. pure (after_check (date_now w) s status)) w
    else (ok s, w)

-- The second half: `now` is the time at which the call began.
unfoldable pub decide : OracleConfig → ℕ → IdleState → Bool × IdleState
decide c now s =
    let within_grace = ltb now (s.last_active_at + c.idle_grace_secs * 1000) in
    (within_grace, record s { idle_logged = if within_grace then false else true })

unfoldable pub is_publishing_needed :
    OracleConfig → ActivityConfig → IdleState → Exec (Bool × IdleState)
unfolding checked decide ◌>>=◌
is_publishing_needed c a s w = (checked c a s >>= λ t. pure (decide c (date_now w) t)) w

-- What a keeper that runs remembers between two ticks
pub record KeeperState : Type 0 where
  pub ticking : Bool
  pub idle : IdleState
  pub published : OracleState

abbrev after_answer :
    OracleConfig → TickAnswers → KeeperState → Outcome (Bool × IdleState) → KeeperState
after_answer c answers k (thrown e) = k
after_answer c answers k (ok (true, s)) = record k {
  idle = s;
  published = tick_inner c answers k.published;
}
after_answer c answers k (ok (false, s)) = record k { idle = s }

-- A tick from its start to its end. One that starts while another awaits returns at once.
unfoldable pub tick :
    OracleConfig → ActivityConfig → TickAnswers → KeeperState → World → KeeperState
unfolding is_publishing_needed
tick c a answers k w =
    if k.ticking then k else after_answer c answers k (is_publishing_needed c a k.idle w).0
