-- ===== src/Liquidation/Keeper/Answered.antt =====
-- What the network has answered to a transaction of the keeper, by what `submitLiquidate` takes it for.
use kryon.Common.{
  ℕ, zero, suc, ◌+◌, ◌≤◌, ◌<◌, ◌≡◌, ◌⊎◌, refl, subst, inl, inr, String, Option, none, some, arith,
}
use native.Mathlib.Nat.{le_refl}
use kryon.Database.Exec.{Outcome, ok, thrown}
use kryon.Liquidation.Keeper.{
  PollStatus, success, not_found, failure, SubmitAnswers, poll_from, after_poll, after_send,
  after_simulation, after_account, submit,
}

abbrev pub Waits : (ℕ → Outcome PollStatus) → ℕ → ℕ → Type 0
Waits polled low high = (k : ℕ) → low ≤ k → k < high → polled k ≡ ok not_found

-- The first poll from `low` on that finds the transaction is before `high`, and finds it so.
record Finds (polled : ℕ → Outcome PollStatus) (low high : ℕ) (status : PollStatus) : Type 0 where
  pub poll : ℕ
  pub from : low ≤ poll
  pub until : poll < high
  pub waiting : Waits polled low poll
  pub reported : polled poll ≡ ok status

abbrev pub FindsWithin : (ℕ → Outcome PollStatus) → ℕ → PollStatus → Type 0
FindsWithin polled high status =
    (poll : ℕ) × (poll < high)
    × (polled poll ≡ ok status)
    × ((k : ℕ) → k < poll → polled k ≡ ok not_found)

-- The network reported success at one of the fifteen polls, and every poll before it did not find the transaction.
pub record IsConfirmed (a : SubmitAnswers) (hash : String) : Type 0 where
  pub simulated : a.simulated ≡ ok none
  pub sent : a.sent ≡ ok (some hash)
  pub reported : FindsWithin a.polled 15 success

-- The simulation or the submission was refused, a poll found that the transaction failed, or none of the fifteen polls
-- found it; in the last case it may still be confirmed.
pub data IsUnreported (a : SubmitAnswers) : Type 0 where
  not_simulated : (error : String) → a.simulated ≡ ok (some error) → IsUnreported a
  not_sent : a.simulated ≡ ok none → a.sent ≡ ok none → IsUnreported a
  not_applied :
      (hash : String)
      → a.simulated ≡ ok none
      → a.sent ≡ ok (some hash)
      → FindsWithin a.polled 15 failure
      → IsUnreported a
  not_seen :
      (hash : String)
      → a.simulated ≡ ok none
      → a.sent ≡ ok (some hash)
      → ((k : ℕ) → k < 15 → a.polled k ≡ ok not_found)
      → IsUnreported a

-- A poll that finds the transaction waits for the ones after it; the others decide.
Waits-cons :
    (polled : ℕ → Outcome PollStatus) (low high : ℕ)
    → polled low ≡ ok not_found
    → Waits polled (suc low) high
    → Waits polled low high
Waits-cons polled low high here rest k l h = elim (zero_or_more low k l) [
  | inl e ↦ subst (λ n. polled n ≡ ok not_found) e here
  | inr m ↦ rest k m h
]
  where
    zero_or_more : (low k : ℕ) → low ≤ k → (low ≡ k) ⊎ (suc low ≤ k)
    zero_or_more low k l = ground (arith, l)

Finds-later :
    (polled : ℕ → Outcome PollStatus) (low high : ℕ) (status : PollStatus)
    → polled low ≡ ok not_found
    → Finds polled (suc low) high status
    → Finds polled low high status
Finds-later polled low high status here f = record {
  poll = f.poll;
  from = omega (arith, f.from);
  until = f.until;
  waiting = Waits-cons polled low f.poll here f.waiting;
  reported = f.reported;
}

-- The three ways in which the polls end
Ends : (ℕ → Outcome PollStatus) → String → ℕ → ℕ → Option String → Type 0
Ends polled hash low high r =
    (Waits polled low high × (r ≡ none))
    ⊎ (Finds polled low high failure × (r ≡ none))
    ⊎ (Finds polled low high success × (r ≡ some hash))

poll_from-Ends :
    (polled : ℕ → Outcome PollStatus) (hash : String) (i left : ℕ) (r : Option String)
    → poll_from polled hash i left ≡ ok r
    → Ends polled hash i (i + left) r
unfolding poll_from Ends
poll_from-Ends polled hash i zero r h =
    inl (λ k l m. absurd (omega (arith, l, m)), ground (arith, h))
poll_from-Ends polled hash i (suc left) r h =
    by_status (polled i) refl (poll_from polled hash (suc i) left) refl h
      (λ g. poll_from-Ends polled hash (suc i) left r g)
  where
    more : suc i + left ≡ i + suc left
    more = omega arith

    now : (s : PollStatus) → polled i ≡ ok s → Finds polled i (i + suc left) s
    now s e = record {
      poll = i;
      from = le_refl i;
      until = omega arith;
      waiting = λ k l m. absurd (omega (arith, l, m));
      reported = e;
    }

    later :
        polled i ≡ ok not_found
        → Ends polled hash (suc i) (suc i + left) r
        → Ends polled hash i (i + suc left) r
    later e (inl (waits, q)) =
        inl (Waits-cons polled i _ e (subst (Waits polled (suc i)) more waits), q)
    later e (inr (inl (f, q))) = inr (
        inl (
          Finds-later polled i _ failure e (subst (λ n. Finds polled (suc i) n failure) more f),
          q,
        ))
    later e (inr (inr (f, q))) = inr (
        inr (
          Finds-later polled i _ success e (subst (λ n. Finds polled (suc i) n success) more f),
          q,
        ))

    by_status :
        (s : Outcome PollStatus)
        → polled i ≡ s
        → (rest : Outcome (Option String)) → poll_from polled hash (suc i) left ≡ rest
        → after_poll hash s rest ≡ ok r
        → (rest ≡ ok r → Ends polled hash (suc i) (suc i + left) r)
        → Ends polled hash i (i + suc left) r
    by_status (thrown e) q rest p g ih = absurd (ground (arith, g))
    by_status (ok success) q rest p g ih = inr (inr (now success q, ground (arith, g)))
    by_status (ok failure) q rest p g ih = inr (inl (now failure q, ground (arith, g)))
    by_status (ok not_found) q rest p g ih = later q (ih g)

within :
    (polled : ℕ → Outcome PollStatus) (high : ℕ) (status : PollStatus)
    → Finds polled 0 high status
    → FindsWithin polled high status
within polled high status f = (f.poll, f.until, f.reported, λ k l. f.waiting k (omega arith) l)

-- What an answer of `submitLiquidate` says of the network
abbrev pub Says : SubmitAnswers → Option String → Type 0
Says a none = IsUnreported a
Says a (some hash) = IsConfirmed a hash

Says-polled :
    (a : SubmitAnswers) (hash : String) (r : Option String)
    → a.simulated ≡ ok none
    → a.sent ≡ ok (some hash)
    → Ends a.polled hash 0 15 r
    → Says a r
unfolding Ends
Says-polled a hash none sim sent (inl (waits, q)) =
    not_seen hash sim sent (λ k l. waits k (omega arith) l)
Says-polled a hash none sim sent (inr (inl (f, q))) =
    not_applied hash sim sent (within a.polled 15 failure f)
Says-polled a hash none sim sent (inr (inr (f, q))) = absurd (ground (arith, q))
Says-polled a hash (some h) sim sent (inl (waits, q)) = absurd (ground (arith, q))
Says-polled a hash (some h) sim sent (inr (inl (f, q))) = absurd (ground (arith, q))
Says-polled a hash (some h) sim sent (inr (inr (f, q))) =
    let same : hash ≡ h = ground (arith, q) in
    record {
      simulated = sim;
      sent = subst (λ t. a.sent ≡ ok (some t)) same sent;
      reported = within a.polled 15 success f;
    }

pub submit-Says : (a : SubmitAnswers) (r : Option String) → submit a ≡ ok r → Says a r
unfolding submit
submit-Says a r h = by_account a.account h
  where
    by_sent :
        a.simulated ≡ ok none
        → (s : Outcome (Option String)) → a.sent ≡ s
        → after_send a s ≡ ok r
        → Says a r
    by_sent sim (thrown e) q g = absurd (ground (arith, g))
    by_sent sim (ok none) q g =
        subst (Says a) (let same : none ≡ r = ground (arith, g) in same) (not_sent sim q)
    by_sent sim (ok (some hash)) q g =
        Says-polled a hash r sim q (poll_from-Ends a.polled hash 0 15 r g)

    by_simulation :
        (s : Outcome (Option String)) → a.simulated ≡ s → after_simulation a s ≡ ok r → Says a r
    by_simulation (thrown e) q g = absurd (ground (arith, g))
    by_simulation (ok (some error)) q g =
        subst (Says a) (let same : none ≡ r = ground (arith, g) in same) (not_simulated error q)
    by_simulation (ok none) q g = by_sent q a.sent refl g

    by_account : (s : Outcome (Unit {0})) → after_account a s ≡ ok r → Says a r
    by_account (thrown e) g = absurd (ground (arith, g))
    by_account (ok u) g = by_simulation a.simulated refl g
