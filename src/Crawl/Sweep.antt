-- ===== src/Crawl/Sweep.antt =====
-- What a sweep does with a parked row.
use mathlib.Core.Option
use network_adapter.Prelude.{
  ℕ, ◌≡◌, refl, ◌∙◌, ap, Bool, Option, none, some, List, [], ◌∷◌, arith, if◌then◌else◌, Str,
  Bool-cases, inl, inr, leb,
}
use network_adapter.Crawl.Table.{update_where}
use network_adapter.Crawl.Queue.{
  QueueRow, has_id, is_long_parked, may_revive, must_abandon, revive, abandon, revive_parked,
  abandon_parked, requeue_or_abandon_parked,
}

-- The row with an id.
unfoldable pub row_of : Str → List QueueRow → Option QueueRow
row_of id [] = none
row_of id (r ∷ rows) = if has_id id r then some r else row_of id rows

row_of-update_where :
    (p : QueueRow → Bool) (f : QueueRow → QueueRow) (id : Str) (rows : List QueueRow)
    → ((r : QueueRow) → has_id id (f r) ≡ has_id id r)
    → row_of id (update_where p f rows) ≡ Option.map (λ r. if p r then f r else r) (row_of id rows)
unfolding row_of update_where
row_of-update_where p f id [] same = refl
row_of-update_where p f id (r ∷ rows) same =
    let rest = row_of-update_where p f id rows same in
    elim (Bool-cases (p r)) [
      | inl hit ↦ ground (arith, same r, rest)
      | inr miss ↦ ground (arith, same r, rest)
    ]

-- One row: revived at the first clock if it has not been parked more than `max` times, and
-- abandoned at the second clock if it has, where it is parked for long enough at that clock.
unfoldable pub swept : ℕ → ℕ → ℕ → ℕ → ℕ → QueueRow → QueueRow
swept now since now' since' max r =
    if leb r.park_count max
    then (if is_long_parked since r then revive now r else r)
    else if is_long_parked since' r
    then abandon now' r
    else r

-- A row that the first update revived is not parked, so the second leaves it alone.
swept-twice :
    (now since now' since' max : ℕ) (r : QueueRow)
    → (let s = (if may_revive since max r then revive now r else r) in
        if must_abandon since' max s then abandon now' s else s)
      ≡ swept now since now' since' max r
unfolding swept may_revive must_abandon is_long_parked revive
swept-twice now since now' since' max r = ground arith

has_id-revive : (now : ℕ) (id : Str) (r : QueueRow) → has_id id (revive now r) ≡ has_id id r
unfolding has_id revive
has_id-revive now id r = refl

has_id-abandon : (now : ℕ) (id : Str) (r : QueueRow) → has_id id (abandon now r) ≡ has_id id r
unfolding has_id abandon
has_id-abandon now id r = refl

Option-map-map :
    {A : Type 0} (f g h : A → A) (o : Option A)
    → ((x : A) → g (f x) ≡ h x)
    → Option.map g (Option.map f o) ≡ Option.map h o
Option-map-map f g h none e = refl
Option-map-map f g h (some x) e = ap some (e x)

-- If what other workers commit between the two updates of a sweep leaves a row as it is, then the
-- sweep revives the row if it has been parked `max` times or less and is parked for long enough at
-- the first update's clock, abandons it if it has been parked more than `max` times and is parked
-- for long enough at the second update's clock, and otherwise leaves it alone, whatever becomes of
-- the other rows.
pub requeue_or_abandon_parked-swept :
    (now since now' since' max : ℕ) (others : List QueueRow → List QueueRow) (id : Str)
    (rows : List QueueRow)
    → row_of id (others (revive_parked now since max rows).0)
      ≡ row_of id (revive_parked now since max rows).0
    → row_of id (requeue_or_abandon_parked now since now' since' max others rows).0
      ≡ Option.map (swept now since now' since' max) (row_of id rows)
unfolding requeue_or_abandon_parked revive_parked abandon_parked
requeue_or_abandon_parked-swept now since now' since' max others id rows quiet =
    row_of-update_where (must_abandon since' max) (abandon now') id
      (others (update_where (may_revive since max) (revive now) rows)) (has_id-abandon now' id)
    ∙ (ap (λ o. Option.map (λ r. if must_abandon since' max r then abandon now' r else r) o)
          (quiet
            ∙ row_of-update_where (may_revive since max) (revive now) id rows
                (has_id-revive now id))
        ∙ Option-map-map (λ r. if may_revive since max r then revive now r else r)
            (λ r. if must_abandon since' max r then abandon now' r else r)
            (swept now since now' since' max) (row_of id rows)
            (swept-twice now since now' since' max))
