-- ===== src/Funding/Moved.antt =====
-- What it means that the funding keeper takes a market as updated.
use kryon.Common.{
  ℕ, zero, suc, ◌+◌, ◌≤◌, ◌<◌, ◌≡◌, ◌≢◌, refl, subst, inl, inr, String, false, Option, none, some,
  ◌==◌, arith, Bool-cases,
}
use kryon.Database.Exec.{Outcome, ok, thrown}
use kryon.Liquidation.Keeper.{PollStatus, success, not_found, failure}
use kryon.Funding.{
  FundingAnswers, is_same, if_moved, on_status, confirm_from, when_sent, when_simulated,
  with_account, with_before, update_funding,
}

-- At the i-th poll from `low` on the network reported success, and `last_update` read then differs from before.
pub record HasMoved (a : FundingAnswers) (before : Option ℕ) (low high : ℕ) : Type 0 where
  pub poll : ℕ
  pub from : low ≤ poll
  pub until : poll < high
  pub waiting : (k : ℕ) → low ≤ k → k < poll → a.polled k ≡ ok not_found
  pub reported : a.polled poll ≡ ok success
  pub last_update : ℕ
  pub read : a.after poll ≡ ok (some last_update)
  pub moved : before ≢ some last_update

if_moved-some :
    (hash tx : String) (before : Option ℕ) (r : Outcome (Option ℕ))
    → if_moved hash before r ≡ ok (some tx)
    → (n : ℕ) × (r ≡ ok (some n)) × (is_same before n ≡ false)
if_moved-some hash tx before (ok (some n)) h = elim (Bool-cases (is_same before n)) [
  | inl same ↦ absurd (ground (arith, same, h))
  | inr other ↦ (n, refl, other)
]
if_moved-some hash tx before (ok none) h = absurd (ground (arith, h))
if_moved-some hash tx before (thrown e) h = absurd (ground (arith, h))

is_same-false : (before : Option ℕ) (n : ℕ) → is_same before n ≡ false → before ≢ some n
is_same-false none n h e = cc e
is_same-false (some m) n h e = ground (arith, h, e)

-- A poll that finds the transaction waits for the ones after it; the others decide.
later :
    (a : FundingAnswers) (before : Option ℕ) (i high : ℕ)
    → a.polled i ≡ ok not_found
    → HasMoved a before (suc i) high
    → HasMoved a before i high
later a before i high e h = record {
  poll = h.poll;
  from = omega (arith, h.from);
  until = h.until;
  waiting = λ k low less. elim (Bool-cases (k == i)) [
    | inl same ↦ let q : k ≡ i = ground (arith, same) in rw q e
    | inr other ↦ h.waiting k (ground (arith, other, low)) less
  ];
  reported = h.reported;
  last_update = h.last_update;
  read = h.read;
  moved = h.moved;
}

confirm_from-HasMoved :
    (a : FundingAnswers) (hash tx : String) (before : Option ℕ) (i left : ℕ)
    → confirm_from a hash before i left ≡ ok (some tx)
    → HasMoved a before i (i + left)
unfolding confirm_from
confirm_from-HasMoved a hash tx before i zero h = absurd (ground (arith, h))
confirm_from-HasMoved a hash tx before i (suc left) h =
    by_status (λ k. confirm_from-HasMoved a hash tx before (suc i) left k) (a.polled i) refl h
  where
    by_status :
        (confirm_from a hash before (suc i) left ≡ ok (some tx)
          → HasMoved a before (suc i) (suc i + left))
        → (status : Outcome PollStatus) → a.polled i ≡ status
        → on_status a hash before i status (confirm_from a hash before (suc i) left) ≡ ok (some tx)
        → HasMoved a before i (i + suc left)
    by_status ih (ok success) e k =
        let (n, read, other) = if_moved-some hash tx before (a.after i) k in
        record {
          poll = i;
          from = omega arith;
          until = omega arith;
          waiting = λ j low less. absurd (omega (arith, low, less));
          reported = e;
          last_update = n;
          read = read;
          moved = is_same-false before n other;
        }
    by_status ih (ok not_found) e k =
        let rest = ih k in
        let same : suc i + left ≡ i + suc left = omega arith in
        later a before i (i + suc left) e (subst (HasMoved a before (suc i)) same rest)
    by_status ih (ok failure) e k = absurd (ground (arith, k))
    by_status ih (thrown f) e k = absurd (ground (arith, k))

-- What a call that answers a hash has seen: `last_update` before, if that could be read, and at one of the fifteen
-- polls, the first that the network did not answer with not found, a report of success and another `last_update`.
abbrev pub IsConfirmed : FundingAnswers → Type 0
IsConfirmed a = (before : Option ℕ) × (a.before ≡ ok before) × HasMoved a before 0 15

sent-HasMoved :
    (a : FundingAnswers) (before : Option ℕ) (tx : String) (r : Outcome (Option String))
    → when_sent a before r ≡ ok (some tx)
    → HasMoved a before 0 15
sent-HasMoved a before tx (ok (some hash)) h = confirm_from-HasMoved a hash tx before 0 15 h
sent-HasMoved a before tx (ok none) h = absurd (ground (arith, h))
sent-HasMoved a before tx (thrown e) h = absurd (ground (arith, h))

simulated-HasMoved :
    (a : FundingAnswers) (before : Option ℕ) (tx : String) (r : Outcome (Option String))
    → when_simulated a before r ≡ ok (some tx)
    → HasMoved a before 0 15
simulated-HasMoved a before tx (ok (some e)) h = absurd (ground (arith, h))
simulated-HasMoved a before tx (ok none) h = sent-HasMoved a before tx a.sent h
simulated-HasMoved a before tx (thrown e) h = absurd (ground (arith, h))

account-HasMoved :
    (a : FundingAnswers) (before : Option ℕ) (tx : String) (r : Outcome (Unit {0}))
    → with_account a before r ≡ ok (some tx)
    → HasMoved a before 0 15
account-HasMoved a before tx (ok u) h = simulated-HasMoved a before tx a.simulated h
account-HasMoved a before tx (thrown e) h = absurd (ground (arith, h))

-- When `updateFunding` answers the hash of a transaction, it has read `last_update`, which may have given nothing;
-- of at most fifteen polls the first that did not answer not found reported success, and `last_update` read then
-- is there and differs from what the read before gave.
pub update_funding-IsConfirmed :
    (a : FundingAnswers) (tx : String) → update_funding a ≡ ok (some tx) → IsConfirmed a
unfolding update_funding
update_funding-IsConfirmed a tx h = by_before a.before refl h
  where
    by_before :
        (r : Outcome (Option ℕ)) → a.before ≡ r → with_before a r ≡ ok (some tx) → IsConfirmed a
    by_before (ok before) e k = (before, e, account-HasMoved a before tx a.account k)
    by_before (thrown f) e k = absurd (ground (arith, k))

-- When the first read of `last_update` gives nothing and the network reports success at the first poll,
-- `updateFunding` takes the market as updated whatever the second read gives, also where it is as it was.
update_funding-unread :
    (a : FundingAnswers) (hash : String) (last_update : ℕ)
    → a.before ≡ ok none
    → a.account ≡ ok tt
    → a.simulated ≡ ok none
    → a.sent ≡ ok (some hash)
    → a.polled 0 ≡ ok success
    → a.after 0 ≡ ok (some last_update)
    → update_funding a ≡ ok (some hash)
unfolding update_funding confirm_from
update_funding-unread a hash last_update before account simulated sent polled after =
    rw (before, account, simulated, sent, polled, after) refl
