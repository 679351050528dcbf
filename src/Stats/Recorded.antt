-- ===== src/Stats/Recorded.antt =====
-- Recording a fill again changes nothing.
use kryon.Common.{
  ℕ, zero, suc, ◌≡◌, refl, ap, ◌∙◌, Bool, true, ◌||◌, List, [], ◌∷◌, ◌++◌, any, take, str_eq_refl,
  Bool-cases, inl, inr,
}
use kryon.Stats.{
  PnlEvent, EventKind, realized_trade, fee, same_kind, same_event, insert_event, FillArgs,
  fill_events, insert_events, record_fill_pnl,
}

same_kind_refl : (k : EventKind) → same_kind k k ≡ true
same_kind_refl realized_trade = refl
same_kind_refl fee = refl

same_event_refl : (e : PnlEvent) → same_event e e ≡ true
unfolding same_event
same_event_refl e =
    rw (str_eq_refl e.network, str_eq_refl e.address, same_kind_refl e.kind, str_eq_refl e.ref_key)
      refl

any-append :
    {A : Type 0} (p : A → Bool) (xs ys : List A) → any p (xs ++ ys) ≡ (any p xs || any p ys)
unfolding any
any-append p [] ys = refl
any-append p (x ∷ xs) ys = elim (Bool-cases (p x)) [
  | inl e ↦ rw e refl
  | inr e ↦ rw e (any-append p xs ys)
]

-- The table has a row of the event's key.
abbrev Has : PnlEvent → List PnlEvent → Type 0
Has e table = any (same_event e) table ≡ true

Has-insert_event_self : (e : PnlEvent) (table : List PnlEvent) → Has e (insert_event e table)
unfolding insert_event
Has-insert_event_self e table = elim (Bool-cases (any (same_event e) table)) [
  | inl there ↦ rw there there
  | inr absent ↦
      rw absent (any-append (same_event e) table (e ∷ []) ∙ rw (absent, same_event_refl e) refl)
]

Has-insert_event :
    (e f : PnlEvent) (table : List PnlEvent) → Has e table → Has e (insert_event f table)
unfolding insert_event
Has-insert_event e f table h = elim (Bool-cases (any (same_event f) table)) [
  | inl there ↦ rw there h
  | inr absent ↦ rw absent (any-append (same_event e) table (f ∷ []) ∙ rw h refl)
]

Has-insert_events :
    (e : PnlEvent) (es : List PnlEvent) (table : List PnlEvent)
    → Has e table
    → Has e (insert_events es table)
unfolding insert_events
Has-insert_events e [] table h = h
Has-insert_events e (f ∷ es) table h =
    Has-insert_events e es (insert_event f table) (Has-insert_event e f table h)

insert_event-Has :
    (e : PnlEvent) (table : List PnlEvent) → Has e table → insert_event e table ≡ table
unfolding insert_event
insert_event-Has e table h = rw h refl

insert_events_again :
    (n : ℕ) (es table : List PnlEvent)
    → insert_events es (insert_events (take n es) table) ≡ insert_events es table
unfolding insert_events take
insert_events_again zero es table = refl
insert_events_again (suc n) [] table = refl
insert_events_again (suc n) (e ∷ es) table =
    let once = insert_event e table in
    ap (insert_events es) (
      insert_event-Has e (insert_events (take n es) once)
        (Has-insert_events e (take n es) once (Has-insert_event_self e table)))
    ∙ insert_events_again n es once

-- Recording a fill after a call for it that threw at any of its statements, or at none, leaves the table as one call
-- that runs through does.
pub record_fill_pnl_again :
    (a : FillArgs) (n : ℕ) (table : List PnlEvent)
    → record_fill_pnl a (insert_events (take n (fill_events a)) table) ≡ record_fill_pnl a table
unfolding record_fill_pnl
record_fill_pnl_again a n table = insert_events_again n (fill_events a) table
