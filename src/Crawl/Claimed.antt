-- ===== src/Crawl/Claimed.antt =====
-- Which row ClaimNext claims.
use network_adapter.Prelude.{
  ℕ, ◌≡◌, refl, ◌∙◌, subst, Bool, true, false, Option, none, some, some-injective, List, [], ◌∷◌,
  All, arith, Bool-cases, Option-cases, inl, inr, Str, str_eq_refl, if-both_when,
}
use network_adapter.Crawl.Table.{update_where, update_where-All}
use network_adapter.Crawl.Unique.{In, any-In, any-update_where, All-map}
use network_adapter.Crawl.Queue.{
  Due, QueueRow, ClaimedItem, is_ready, pick, earlier, due_leb, claim, has_id, claim_next,
  claim_picked,
}
use network_adapter.Crawl.Reachable.{pick-In}
use network_adapter.Crawl.Lease.{Others-Keeps}
use network_adapter.Crawl.Claim.{Held, HeldIf, Keeps, claim-id, Others}

due_leb_refl : (d : Due) → due_leb d d ≡ true
due_leb_refl d = ground arith

due_leb_trans : (c d e : Due) → due_leb c d ≡ true → due_leb d e ≡ true → due_leb c e ≡ true
due_leb_trans c d e h k = ground arith

due_leb_total : (c d : Due) → due_leb c d ≡ false → due_leb d c ≡ true
due_leb_total c d h = ground arith

-- No row that satisfies p is due before r.
abbrev pub First : (QueueRow → Bool) → QueueRow → QueueRow → Type 0
First p r x = p x ≡ true → due_leb r.next_attempt_at x.next_attempt_at ≡ true

pick-none :
    (p : QueueRow → Bool) (rows : List QueueRow) → pick p rows ≡ none → All (λ x. p x ≡ false) rows
unfolding pick
pick-none p [] e = tt
pick-none p (x ∷ xs) e = elim (Bool-cases (p x)) [
  | inl ready ↦ cc
  | inr not_ready ↦ (not_ready, pick-none p xs (rw not_ready at e))
]

First-next :
    (p : QueueRow → Bool) (r s : QueueRow)
    → due_leb r.next_attempt_at s.next_attempt_at ≡ true
    → (x : QueueRow) → First p s x
    → First p r x
First-next p r s h x k =
    λ e. due_leb_trans r.next_attempt_at s.next_attempt_at x.next_attempt_at h (k e)

earlier-First :
    (p : QueueRow → Bool) (x : QueueRow) (xs : List QueueRow) (o : Option QueueRow)
    → pick p xs ≡ o
    → ((s : QueueRow) → o ≡ some s → All (First p s) xs)
    → All (First p (earlier x o)) (x ∷ xs)
earlier-First p x xs none e first = (
  λ k. due_leb_refl x.next_attempt_at,
  All-map (λ y. p y ≡ false) (First p x) xs (λ y h k. absurd cc) (pick-none p xs e),
)
earlier-First p x xs (some s) e first =
    if-both_when (λ y. All (First p y) (x ∷ xs)) (due_leb x.next_attempt_at s.next_attempt_at)
      (λ before. (
        λ k. due_leb_refl x.next_attempt_at,
        All-map (First p s) (First p x) xs (First-next p x s before) (first s refl),
      ))
      (λ later. (λ k. due_leb_total x.next_attempt_at s.next_attempt_at later, first s refl))

pick-First :
    (p : QueueRow → Bool) (rows : List QueueRow) {r : QueueRow}
    → pick p rows ≡ some r
    → All (First p r) rows
unfolding pick
pick-First p [] e = cc
pick-First p (x ∷ xs) {r} e = elim (Bool-cases (p x)) [
  | inl ready ↦
      let e' : some (earlier x (pick p xs)) ≡ some r = rw ready at e in
      subst (λ y. All (First p y) (x ∷ xs)) (some-injective _ _ e')
        (earlier-First p x xs (pick p xs) refl (λ s q. pick-First p xs q))
  | inr not_ready ↦ (λ k. absurd cc, pick-First p xs (rw not_ready at e))
]

claim-Held : (now : ℕ) (token : Str) (r : QueueRow) → Held token now (claim now token r)
unfolding claim
claim-Held now token r = (refl, (refl, refl))

All-refl : (rs : List QueueRow) → All (λ (x : QueueRow). x ≡ x) rs
All-refl [] = tt
All-refl (x ∷ xs) = (refl, All-refl xs)

claimed-Keeps :
    (now : ℕ) (token : Str) (rows : List QueueRow) (r : QueueRow)
    → In r rows
    → Keeps r.id token now (update_where (has_id r.id) (claim now token) rows)
unfolding has_id
claimed-Keeps now token rows r i = record {
  held =
      update_where-All (λ x. x ≡ x) (HeldIf r.id token now) (has_id r.id) (claim now token) rows
        (All-refl rows) (λ x u e k. claim-Held now token x) (λ x u e k. absurd cc);
  present =
      any-update_where (λ (x : QueueRow). x.id) r.id (has_id r.id) (claim now token) rows
        (claim-id now token)
      ∙ any-In (has_id r.id) rows r i (str_eq_refl r.id);
}

-- What a claim promises: the row was ready, none that was ready is due before it, it is held by
-- the new claim id, and what other workers do within the lease leaves it so.
pub record IsExclusive (now : ℕ) (locked : Str → Bool) (token : Str) (rows rows' : List QueueRow)
    (item : ClaimedItem) : Type 0 where
  pub token_given : item.claim_id ≡ token
  pub was_ready :
      (r : QueueRow) × ((r.id ≡ item.id)
        × (In r rows × ((is_ready now locked r ≡ true) × All (First (is_ready now locked) r) rows)))
  pub keeps :
      (later : List QueueRow) → Others item.id token now rows' later → Keeps item.id token now later

-- A claim goes to the ready row that is due first, and nobody else holds or takes that row while
-- the lease of fifteen minutes runs.
pub claim_next-IsExclusive :
    (participant : Str → Str) (now : ℕ) (locked : Str → Bool) (token : Str) (rows : List QueueRow)
    {rows' : List QueueRow} {item : ClaimedItem}
    → claim_next participant now locked token rows ≡ (rows', some item)
    → IsExclusive now locked token rows rows' item
unfolding claim_next
claim_next-IsExclusive participant now locked token rows {rows'} {item} h =
    elim (Option-cases (pick (is_ready now locked) rows)) [
      | inl e ↦ absurd cc
      | inr (r, e) ↦
          let (ready, i) = pick-In (is_ready now locked) rows e in
          picked r ready i (pick-First (is_ready now locked) rows e) (rw e at h)
    ]
  where
    picked :
        (r : QueueRow)
        → is_ready now locked r ≡ true
        → In r rows
        → All (First (is_ready now locked) r) rows
        → claim_picked participant now token rows (some r) ≡ (rows', some item)
        → IsExclusive now locked token rows rows' item
    picked r ready i first k =
        let same : r.id ≡ item.id = cc in
        let rows_same : update_where (has_id r.id) (claim now token) rows ≡ rows' = cc in
        record {
          token_given = cc;
          was_ready = (r, (same, (i, (ready, first))));
          keeps = λ later s. Others-Keeps item.id token now s (
              subst (λ x. Keeps x token now rows') same
                (subst (Keeps r.id token now) rows_same (claimed-Keeps now token rows r i)));
        }
