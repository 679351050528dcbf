-- ===== src/Liquidation/Keeper/Unconfirmed.antt =====
-- A liquidation that the network confirms late: `submitLiquidate` of client/scripts/liquidation-keeper.ts.
use kryon.Common.{
  ℕ, zero, suc, ◌<◌, ◌≡◌, refl, ap, String, false, Option, none, some, List, [], ◌∷◌, leb, arith,
}
use kryon.Database.Exec.{Outcome, ok, thrown}
use kryon.Liquidation.Keeper.{
  PositionView, Attempt, PollStatus, not_found, SubmitAnswers, KeeperConfig, poll_from, submit,
  Tried, after_submit, try_sizes,
}
use kryon.Liquidation.Keeper.Plan.{attempt}

-- The transaction has been sent, and no poll finds it within their time, half of the time it stays valid.
pub record IsUnconfirmed (a : SubmitAnswers) : Type 0 where
  pub account : a.account ≡ ok tt
  pub simulated : a.simulated ≡ ok none
  pub hash : String
  pub sent : a.sent ≡ ok (some hash)
  pub pending : (i : ℕ) → a.polled i ≡ ok not_found

poll_from-not_found :
    (polled : ℕ → Outcome PollStatus) (hash : String) (i left : ℕ)
    → ((k : ℕ) → polled k ≡ ok not_found)
    → poll_from polled hash i left ≡ ok none
unfolding poll_from
poll_from-not_found polled hash i zero h = refl
poll_from-not_found polled hash i (suc left) h =
    rw (h i) (poll_from-not_found polled hash (suc i) left h)

submit-IsUnconfirmed : (a : SubmitAnswers) → IsUnconfirmed a → submit a ≡ ok none
unfolding submit
submit-IsUnconfirmed a h =
    rw (h.account, h.simulated, h.sent) (poll_from-not_found a.polled h.hash 0 15 h.pending)

after_submit-first :
    (x : Attempt) (r : Outcome (Option String)) (rest : Tried)
    → (zs : List Attempt) × ((after_submit x r rest).1 ≡ x ∷ zs)
after_submit-first x (ok (some hash)) rest = ([], refl)
after_submit-first x (ok none) rest = (rest.1, refl)
after_submit-first x (thrown e) rest = ([], refl)

-- When the transaction that closes a part of a position has been sent and none of the fifteen polls finds it, the
-- keeper sends the next size of the ladder too, while the first may still be confirmed.
pub try_sizes-IsUnconfirmed :
    (c : KeeperConfig) (user : String) (p : PositionView) (price size next : ℕ) (sizes : List ℕ)
    → 0 < size
    → 0 < next
    → IsUnconfirmed (c.on_liquidate (attempt user p price size))
    → (rest : List Attempt) × ((try_sizes c user p price (size ∷ next ∷ sizes)).1
        ≡ attempt user p price size ∷ attempt user p price next ∷ rest)
unfolding try_sizes
try_sizes-IsUnconfirmed c user p price size next sizes h k u =
    let first : leb size 0 ≡ false = ground arith in
    let second : leb next 0 ≡ false = ground arith in
    let (rest, e) =
      after_submit-first (attempt user p price next)
        (submit (c.on_liquidate (attempt user p price next))) (try_sizes c user p price sizes) in
    rw (first, second, submit-IsUnconfirmed (c.on_liquidate (attempt user p price size)) u)
      (rest, ap (λ t. attempt user p price size ∷ t) e)
