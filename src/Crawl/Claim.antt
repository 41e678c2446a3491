-- ===== src/Crawl/Claim.antt =====
-- What a claim of a row is worth while its lease runs.
use network_adapter.Prelude.{
  ℕ, ◌+◌, ◌≤◌, ◌≡◌, refl, sym, ◌∙◌, subst, Bool, true, false, some, List, [], ◌∷◌, any, All,
  All-append, arith, Option-cases, inl, inr, Str, str_eq, str_eq_iff, if-both_when,
}
use network_adapter.Crawl.Table.{update_where, delete_where, upsert, All-update_where}
use network_adapter.Crawl.Unique.{any-update_where, any-append_one, All-In}
use network_adapter.Crawl.Queue.{
  QueueStatus, QueueItem, QueueRow, claim_lease, of_catalog, new_row, coalesce, enqueue, is_ready,
  pick, claim, has_id, claim_next, is_held, reschedule, park, revive_parked, abandon_parked,
}
use network_adapter.Crawl.Reachable.{pick-In}

-- The row is claimed by the claim id `token` since the time t.
abbrev pub Held : Str → ℕ → QueueRow → Type 0
Held token t r =
    (r.claimed_at ≡ some t) × ((r.claim_id ≡ some token) × (r.status ≡ QueueStatus.in_progress))

abbrev pub HeldIf : Str → Str → ℕ → QueueRow → Type 0
HeldIf id token t r = has_id id r ≡ true → Held token t r

-- The row `id` is in the queue and held.
pub record Keeps (id token : Str) (t : ℕ) (rows : List QueueRow) : Type 0 where
  pub held : All (HeldIf id token t) rows
  pub present : any (has_id id) rows ≡ true

-- A statement of another worker while the lease runs: its claim id is not `token`.
pub data OtherStep (id token : Str) (t : ℕ) : List QueueRow → List QueueRow → Type 0 where
  enqueues :
      (now : ℕ) (new : Str) (item : QueueItem) (rows : List QueueRow)
      → any (has_id new) rows ≡ false
      → OtherStep id token t rows (enqueue now new item rows)
  claims :
      (participant : Str → Str) (now : ℕ) (locked : Str → Bool) (other : Str) (rows : List QueueRow)
      → now ≤ t + claim_lease
      → OtherStep id token t rows (claim_next participant now locked other rows).0
  reschedules :
      (row c : Str) (due : ℕ) (rows : List QueueRow)
      → str_eq token c ≡ false
      → OtherStep id token t rows (reschedule row c due rows)
  parks :
      (now : ℕ) (row c : Str) (rows : List QueueRow)
      → str_eq token c ≡ false
      → OtherStep id token t rows (park now row c rows)
  revives :
      (now since max : ℕ) (rows : List QueueRow)
      → OtherStep id token t rows (revive_parked now since max rows).0
  abandons :
      (now since max : ℕ) (rows : List QueueRow)
      → OtherStep id token t rows (abandon_parked now since max rows).0
  completes :
      (row c : Str) (rows : List QueueRow)
      → str_eq token c ≡ false
      → OtherStep id token t rows (delete_where (is_held row c) rows)

pub data Others (id token : Str) (t : ℕ) : List QueueRow → List QueueRow → Type 0 where
  done : {a : List QueueRow} → Others id token t a a
  next :
      {a b c : List QueueRow}
      → Others id token t a b
      → OtherStep id token t b c
      → Others id token t a c

coalesce-id : (now : ℕ) (item : QueueItem) (r : QueueRow) → (coalesce now item r).id ≡ r.id
unfolding coalesce
coalesce-id now item r = refl

pub claim-id : (now : ℕ) (other : Str) (r : QueueRow) → (claim now other r).id ≡ r.id
unfolding claim
claim-id now other r = refl

pub claimed-has_id :
    (id : Str) (now : ℕ) (other : Str) (x : QueueRow) → has_id id (claim now other x) ≡ has_id id x
unfolding has_id claim
claimed-has_id id now other x = refl

module _ (id token : Str) (t : ℕ) where
  pub update-Keeps :
      (p : QueueRow → Bool) (f : QueueRow → QueueRow) (rows : List QueueRow)
      → ((r : QueueRow) → (f r).id ≡ r.id)
      → ((r : QueueRow) → HeldIf id token t r → p r ≡ true → HeldIf id token t (f r))
      → Keeps id token t rows
      → Keeps id token t (update_where p f rows)
  unfolding has_id
  update-Keeps p f rows same step k = record {
    held = All-update_where (HeldIf id token t) p f rows k.held step;
    present = any-update_where (λ (r : QueueRow). r.id) id p f rows same ∙ k.present;
  }

  coalesce-HeldIf :
      (now : ℕ) (item : QueueItem) (r : QueueRow)
      → HeldIf id token t r
      → HeldIf id token t (coalesce now item r)
  unfolding has_id coalesce
  coalesce-HeldIf now item r h = λ e. let (a, (b, c)) = h e in ground arith

  new_row-HeldIf :
      (now : ℕ) (new : Str) (item : QueueItem) (rows : List QueueRow)
      → any (has_id new) rows ≡ false
      → any (has_id id) rows ≡ true
      → HeldIf id token t (new_row now new item)
  unfolding has_id new_row
  new_row-HeldIf now new item rows fresh present = λ e. absurd (clash ((str_eq_iff new id).0 e))
    where
      clash : new ≡ id → ⊥
      clash e =
          let p : any (has_id id) rows ≡ false = subst (λ x. any (has_id x) rows ≡ false) e fresh in
          cc

  pub enqueue-Keeps :
      (now : ℕ) (new : Str) (item : QueueItem) (rows : List QueueRow)
      → any (has_id new) rows ≡ false
      → Keeps id token t rows
      → Keeps id token t (enqueue now new item rows)
  unfolding enqueue upsert
  enqueue-Keeps now new item rows fresh k =
      if-both_when (Keeps id token t) (any (of_catalog item.catalog_id) rows)
        (λ e.
          update-Keeps (of_catalog item.catalog_id) (coalesce now item) rows (coalesce-id now item)
            (λ r h p. coalesce-HeldIf now item r h) k)
        (λ e. record {
          held =
              All-append (HeldIf id token t) rows (new_row now new item ∷ []) k.held
                (new_row-HeldIf now new item rows fresh k.present, tt);
          present =
              any-append_one (has_id id) rows (new_row now new item) ∙ ground (arith, k.present);
        })

  -- A row that is held within its lease is not ready.
  Held-not_ready :
      (now : ℕ) (locked : Str → Bool) (r : QueueRow)
      → now ≤ t + claim_lease
      → Held token t r
      → is_ready now locked r ≡ false
  unfolding is_ready
  Held-not_ready now locked r early (a, (b, c)) = ground arith

  not_the_row :
      (now : ℕ) (locked : Str → Bool)
      → now ≤ t + claim_lease
      → (r x : QueueRow) → is_ready now locked r ≡ true
      → HeldIf id token t r
      → has_id r.id x ≡ true
      → has_id id x ≡ true
      → ⊥
  unfolding has_id
  not_the_row now locked early r x ready h p q =
      let same : r.id ≡ id = sym ((str_eq_iff x.id r.id).0 p) ∙ (str_eq_iff x.id id).0 q in
      let waits : is_ready now locked r ≡ false =
        Held-not_ready now locked r early (h ((str_eq_iff r.id id).1 same)) in
      cc

  pub claim_next-Keeps_other :
      (participant : Str → Str) (now : ℕ) (locked : Str → Bool) (other : Str) (rows : List QueueRow)
      → now ≤ t + claim_lease
      → Keeps id token t rows
      → Keeps id token t (claim_next participant now locked other rows).0
  unfolding claim_next
  claim_next-Keeps_other participant now locked other rows early k =
      elim (Option-cases (pick (is_ready now locked) rows)) [
        | inl e ↦ rw e k
        | inr (r, e) ↦
            let (ready, i) = pick-In (is_ready now locked) rows e in
            rw e (
              update-Keeps (has_id r.id) (claim now other) rows (claim-id now other)
                (λ x h p q. absurd (
                  not_the_row now locked early r x ready
                    (All-In (HeldIf id token t) rows r k.held i) p
                    (sym (claimed-has_id id now other x) ∙ q)))
                k)
      ]
