-- ===== src/Liquidation/Keeper/Round.antt =====
-- One round of the loop of `run` in client/scripts/liquidation-keeper.ts: the scan, and once a day the call that
-- keeps the contracts from being archived.
use kryon.Common.{
  ℕ, ◌+◌, ◌*◌, String, Bool, true, false, Option, none, some, List, [], ◌∷◌, ltb, if◌then◌else◌,
}
use kryon.Database.Exec.{Outcome, ok, thrown}
use kryon.Liquidation.Keeper.{KeeperConfig, SubmitAnswers}
use kryon.Liquidation.Keeper.Scan.{Action, scan}

abbrev ttl_bump_interval_ms : ℕ
ttl_bump_interval_ms = 24 * 3600 * 1000

abbrev targets : List String
targets = "gateway" ∷ "engine" ∷ "vault" ∷ "oracle" ∷ []

-- Whether the call on a contract is sent. The loop goes on after an error.
abbrev is_simulated : Outcome (Option String) → Bool
is_simulated (ok none) = true
is_simulated (ok (some error)) = false
is_simulated (thrown e) = false

abbrev is_bumped : SubmitAnswers → Outcome (Unit {0}) → Bool
is_bumped a (ok u) = is_simulated a.simulated
is_bumped a (thrown e) = false

unfoldable pub bump_instance_ttls : (String → SubmitAnswers) → List String → List String
bump_instance_ttls node [] = []
bump_instance_ttls node (name ∷ rest) =
    let others = bump_instance_ttls node rest in
    if is_bumped (node name) (node name).account then name ∷ others else others

pub record Round : Type 0 where
  pub actions : List Action
  pub bumped : List String
  pub last_ttl_bump : ℕ

abbrev with_rows : KeeperConfig → (String → SubmitAnswers) → ℕ → ℕ → Outcome (List String) → Round
with_rows c node now last (thrown e) = record { actions = []; bumped = []; last_ttl_bump = last }
with_rows c node now last (ok rows) =
    let due = ltb (last + ttl_bump_interval_ms) now in
    record {
      actions = scan c rows;
      bumped = if due then bump_instance_ttls node targets else [];
      last_ttl_bump = if due then now else last;
    }

-- `rows` is what the query for the accounts answers; `now` is the clock after the scan.
unfoldable pub round :
    KeeperConfig → (String → SubmitAnswers) → ℕ → ℕ → Outcome (List String) → Round
unfolding bump_instance_ttls
round c node now last rows = with_rows c node now last rows
