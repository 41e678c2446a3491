-- ===== src/Crawl/Reachable.antt =====
-- The statements of the store as steps of the queue, and what every reachable queue satisfies.
use network_adapter.Prelude.{
  ℕ, ◌≡◌, refl, sym, ◌∙◌, ap, subst, Bool, true, false, Option, none, some, some-injective, List,
  [], ◌∷◌, any, All, All-append, arith, Bool-cases, Option-cases, inl, inr, Str, if-both_when, ◌⊎◌,
}
use network_adapter.Crawl.Table.{
  update_where, delete_where, upsert, All-update_where, All-delete_where, update_where-All,
}
use network_adapter.Crawl.Unique.{
  In, Unique, Unique-update_where, Unique-delete_where, Unique-upsert, Unique-In, All-both,
}
use network_adapter.Crawl.Queue.{
  Due, QueueItem, QueueRow, of_catalog, new_row, coalesce, enqueue, is_ready, pick, earlier, claim,
  has_id, claim_next, is_held, release, reschedule, parked_row, park, may_revive, must_abandon,
  revive, abandon, revive_parked, abandon_parked,
}
use network_adapter.Crawl.Sound.{
  IsSound, new_row-IsSound, coalesce-IsSound, claim-IsSound, release-IsSound, parked_row-IsSound,
  revive-IsSound, abandon-IsSound, is_held-claim_id,
}

-- The rows are sound, and ids and catalogs are unique.
pub record IsSoundQueue (rows : List QueueRow) : Type 0 where
  pub sound : All IsSound rows
  pub ids : Unique (λ (r : QueueRow). r.id) rows
  pub catalogs : Unique (λ (r : QueueRow). r.catalog_id) rows

-- One statement; gen_random_uuid gives an id that no row has.
pub data QueueStep : List QueueRow → List QueueRow → Type 0 where
  enqueues :
      (now : ℕ) (id : Str) (item : QueueItem) (rows : List QueueRow)
      → any (has_id id) rows ≡ false
      → QueueStep rows (enqueue now id item rows)
  claims :
      (participant : Str → Str) (now : ℕ) (locked : Str → Bool) (token : Str) (rows : List QueueRow)
      → QueueStep rows (claim_next participant now locked token rows).0
  reschedules :
      (id c : Str) (next : ℕ) (rows : List QueueRow) → QueueStep rows (reschedule id c next rows)
  parks : (now : ℕ) (id c : Str) (rows : List QueueRow) → QueueStep rows (park now id c rows)
  revives :
      (now since max : ℕ) (rows : List QueueRow)
      → QueueStep rows (revive_parked now since max rows).0
  abandons :
      (now since max : ℕ) (rows : List QueueRow)
      → QueueStep rows (abandon_parked now since max rows).0
  completes :
      (id c : Str) (rows : List QueueRow) → QueueStep rows (delete_where (is_held id c) rows)

pub data Reachable : List QueueRow → Type 0 where
  empty : Reachable []
  after : {a b : List QueueRow} → Reachable a → QueueStep a b → Reachable b

update-IsSoundQueue :
    (p : QueueRow → Bool) (f : QueueRow → QueueRow) (rows : List QueueRow)
    → IsSoundQueue rows
    → ((r : QueueRow) → (f r).id ≡ r.id)
    → ((r : QueueRow) → (f r).catalog_id ≡ r.catalog_id)
    → ((r : QueueRow) → IsSound r → p r ≡ true → IsSound (f r))
    → IsSoundQueue (update_where p f rows)
update-IsSoundQueue p f rows h id catalog step = record {
  sound = All-update_where IsSound p f rows h.sound step;
  ids = Unique-update_where (λ (r : QueueRow). r.id) p f rows id h.ids;
  catalogs = Unique-update_where (λ (r : QueueRow). r.catalog_id) p f rows catalog h.catalogs;
}

All-upsert :
    (p : QueueRow → Bool) (x : QueueRow) (f : QueueRow → QueueRow) (rows : List QueueRow)
    → All IsSound rows
    → IsSound x
    → ((r : QueueRow) → IsSound r → IsSound (f r))
    → All IsSound (upsert p x f rows)
unfolding upsert
All-upsert p x f rows h k step =
    if-both_when (All IsSound) (any p rows)
      (λ e. All-update_where IsSound p f rows h (λ r s e. step r s))
      (λ e. All-append IsSound rows (x ∷ []) h (k, tt))

enqueue-IsSoundQueue :
    (now : ℕ) (id : Str) (item : QueueItem) (rows : List QueueRow)
    → any (has_id id) rows ≡ false
    → IsSoundQueue rows
    → IsSoundQueue (enqueue now id item rows)
unfolding enqueue of_catalog has_id new_row coalesce
enqueue-IsSoundQueue now id item rows fresh h = record {
  sound =
      All-upsert (of_catalog item.catalog_id) (new_row now id item) (coalesce now item) rows h.sound
        (new_row-IsSound now id item) (coalesce-IsSound now item);
  ids =
      Unique-upsert (λ (r : QueueRow). r.id) _ _ (coalesce now item) rows (λ r. refl) h.ids
        (λ e. fresh);
  catalogs =
      Unique-upsert (λ (r : QueueRow). r.catalog_id) _ _ (coalesce now item) rows (λ r. refl)
        h.catalogs (λ e. e);
}

earlier-cases : (r : QueueRow) (o : Option QueueRow) → (earlier r o ≡ r) ⊎ (o ≡ some (earlier r o))
earlier-cases r none = inl refl
earlier-cases r (some s) = ground arith

-- The row that a claim picks is in the table and satisfies the condition.
pub pick-In :
    (p : QueueRow → Bool) (rows : List QueueRow) {r : QueueRow}
    → pick p rows ≡ some r
    → (p r ≡ true) × In r rows
unfolding pick In
pick-In p [] e = cc
pick-In p (x ∷ xs) {r} e = elim (Bool-cases (p x)) [
  | inl ready ↦
      let same : earlier x (pick p xs) ≡ r = some-injective _ _ (rw ready at e) in
      elim (earlier-cases x (pick p xs)) [
        | inl q ↦ let here : x ≡ r = sym q ∙ same in (ap p (sym here) ∙ ready, inl here)
        | inr q ↦ let (a, b) = pick-In p xs (q ∙ ap some same) in (a, inr b)
      ]
  | inr not_ready ↦ let (a, b) = pick-In p xs (rw not_ready at e) in (a, inr b)
]

claim_next-IsSoundQueue :
    (participant : Str → Str) (now : ℕ) (locked : Str → Bool) (token : Str) (rows : List QueueRow)
    → IsSoundQueue rows
    → IsSoundQueue (claim_next participant now locked token rows).0
unfolding claim_next has_id claim
claim_next-IsSoundQueue participant now locked token rows h =
    elim (Option-cases (pick (is_ready now locked) rows)) [
      | inl e ↦ rw e h
      | inr (r, e) ↦
          let (ready, i) = pick-In (is_ready now locked) rows e in rw e (picked r ready i)
    ]
  where
    only :
        (r : QueueRow)
        → is_ready now locked r ≡ true
        → (x : QueueRow) → (IsSound x × ((has_id r.id x ≡ true) → x ≡ r))
        → has_id r.id x ≡ true
        → IsSound (claim now token x)
    only r ready x k e =
        claim-IsSound now locked token x k.0
          (subst (λ y. is_ready now locked y ≡ true) (sym (k.1 e)) ready)

    the_one : (r : QueueRow) → In r rows → All (λ x. (has_id r.id x ≡ true) → x ≡ r) rows
    the_one r i = Unique-In (λ (x : QueueRow). x.id) rows r h.ids i

    picked :
        (r : QueueRow)
        → is_ready now locked r ≡ true
        → In r rows
        → IsSoundQueue (update_where (has_id r.id) (claim now token) rows)
    picked r ready i = record {
      sound =
          update_where-All (λ x. IsSound x × ((has_id r.id x ≡ true) → x ≡ r)) IsSound (has_id r.id)
            (claim now token) rows (All-both IsSound _ rows h.sound (the_one r i)) (only r ready)
            (λ x k e. k.0);
      ids =
          Unique-update_where (λ (x : QueueRow). x.id) (has_id r.id) (claim now token) rows
            (λ x. refl) h.ids;
      catalogs =
          Unique-update_where (λ (x : QueueRow). x.catalog_id) (has_id r.id) (claim now token) rows
            (λ x. refl) h.catalogs;
    }

-- Every statement keeps the queue sound.
QueueStep-IsSoundQueue : {a b : List QueueRow} → QueueStep a b → IsSoundQueue a → IsSoundQueue b
unfolding reschedule park revive_parked abandon_parked release parked_row revive abandon
QueueStep-IsSoundQueue (enqueues now id item rows fresh) h =
    enqueue-IsSoundQueue now id item rows fresh h
QueueStep-IsSoundQueue (claims participant now locked token rows) h =
    claim_next-IsSoundQueue participant now locked token rows h
QueueStep-IsSoundQueue (reschedules id c next rows) h =
    update-IsSoundQueue (is_held id c) (release (Due.at next)) rows h (λ r. refl) (λ r. refl)
      (λ r s e. release-IsSound next r s (is_held-claim_id id c r e))
QueueStep-IsSoundQueue (parks now id c rows) h =
    update-IsSoundQueue (is_held id c) (parked_row now) rows h (λ r. refl) (λ r. refl)
      (λ r s e. parked_row-IsSound now r s (is_held-claim_id id c r e))
QueueStep-IsSoundQueue (revives now since max rows) h =
    update-IsSoundQueue (may_revive since max) (revive now) rows h (λ r. refl) (λ r. refl)
      (revive-IsSound now since max)
QueueStep-IsSoundQueue (abandons now since max rows) h =
    update-IsSoundQueue (must_abandon since max) (abandon now) rows h (λ r. refl) (λ r. refl)
      (abandon-IsSound now since max)
QueueStep-IsSoundQueue (completes id c rows) h = record {
  sound = All-delete_where IsSound (is_held id c) rows h.sound;
  ids = Unique-delete_where (λ (r : QueueRow). r.id) (is_held id c) rows h.ids;
  catalogs = Unique-delete_where (λ (r : QueueRow). r.catalog_id) (is_held id c) rows h.catalogs;
}

-- In every reachable queue, exactly the rows in progress are claimed, exactly the parked and the
-- abandoned rows are never due, and no two rows have one id or one catalog.
pub Reachable-IsSoundQueue : {rows : List QueueRow} → Reachable rows → IsSoundQueue rows
unfolding Unique
Reachable-IsSoundQueue empty = record { sound = tt; ids = tt; catalogs = tt }
Reachable-IsSoundQueue (after r s) = QueueStep-IsSoundQueue s (Reachable-IsSoundQueue r)
