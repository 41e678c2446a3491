-- ===== src/Crawl/Lease.antt =====
-- That the statements of other workers leave a claim alone while its lease runs.
use network_adapter.Prelude.{
  ℕ, ◌≡◌, refl, ap, subst, Bool, true, false, List, [], ◌∷◌, any, All, arith, Str, str_eq,
}
use network_adapter.Crawl.Table.{delete_where, All-delete_where}
use network_adapter.Crawl.Queue.{
  Due, QueueRow, has_id, is_held, release, reschedule, parked_row, park, is_long_parked, may_revive,
  must_abandon, revive, abandon, revive_parked, abandon_parked, is_parked,
}
use network_adapter.Crawl.Claim.{
  done, next, Held, HeldIf, Keeps, OtherStep, Others, update-Keeps, enqueue-Keeps,
  claim_next-Keeps_other, enqueues, claims, reschedules, parks, revives, abandons, completes,
}

release-id : (due : ℕ) (r : QueueRow) → (release (Due.at due) r).id ≡ r.id
unfolding release
release-id due r = refl

parked_row-id : (now : ℕ) (r : QueueRow) → (parked_row now r).id ≡ r.id
unfolding parked_row
parked_row-id now r = refl

revive-id : (now : ℕ) (r : QueueRow) → (revive now r).id ≡ r.id
unfolding revive
revive-id now r = refl

abandon-id : (now : ℕ) (r : QueueRow) → (abandon now r).id ≡ r.id
unfolding abandon
abandon-id now r = refl

may_revive-parked :
    (since max : ℕ) (r : QueueRow) → may_revive since max r ≡ true → is_parked r.status ≡ true
unfolding may_revive is_long_parked
may_revive-parked since max r e = ground arith

must_abandon-parked :
    (since max : ℕ) (r : QueueRow) → must_abandon since max r ≡ true → is_parked r.status ≡ true
unfolding must_abandon is_long_parked
must_abandon-parked since max r e = ground arith

module _ (id token : Str) (t : ℕ) where
  not-Held :
      (row c : Str) (r : QueueRow)
      → str_eq token c ≡ false
      → Held token t r
      → is_held row c r ≡ false
  unfolding is_held
  not-Held row c r e (a, (b, s)) = ground arith

  release-HeldIf :
      (row c : Str) (f : QueueRow → QueueRow) (r : QueueRow)
      → str_eq token c ≡ false
      → ((x : QueueRow) → (f x).id ≡ x.id)
      → HeldIf id token t r
      → is_held row c r ≡ true
      → HeldIf id token t (f r)
  unfolding has_id
  release-HeldIf row c f r e same h held q =
      let other : is_held row c r ≡ false =
        not-Held row c r e (h (subst (λ x. str_eq x id ≡ true) (same r) q)) in
      absurd cc

  swept-HeldIf :
      (p : QueueRow → Bool) (f : QueueRow → QueueRow) (r : QueueRow)
      → ((x : QueueRow) → (f x).id ≡ x.id)
      → ((x : QueueRow) → p x ≡ true → is_parked x.status ≡ true)
      → HeldIf id token t r
      → p r ≡ true
      → HeldIf id token t (f r)
  unfolding has_id
  swept-HeldIf p f r same only_parked h e q =
      let (a, (b, s)) = h (subst (λ x. str_eq x id ≡ true) (same r) q) in
      let no : is_parked r.status ≡ false = ap is_parked s in
      let holds : is_parked r.status ≡ true = only_parked r e in absurd cc

  delete-Keeps :
      (row c : Str) (rows : List QueueRow)
      → str_eq token c ≡ false
      → Keeps id token t rows
      → Keeps id token t (delete_where (is_held row c) rows)
  unfolding delete_where
  delete-Keeps row c rows e k = record {
    held = All-delete_where (HeldIf id token t) (is_held row c) rows k.held;
    present = still_there rows k.held k.present;
  }
    where
      kept : (r : QueueRow) → HeldIf id token t r → has_id id r ≡ true → is_held row c r ≡ false
      kept r h q = not-Held row c r e (h q)

      still_there :
          (rs : List QueueRow)
          → All (HeldIf id token t) rs
          → any (has_id id) rs ≡ true
          → any (has_id id) (delete_where (is_held row c) rs) ≡ true
      still_there [] h p = p
      still_there (r ∷ rs) h p = ground (arith, kept r h.0, still_there rs h.1)

  OtherStep-Keeps :
      {a b : List QueueRow} → OtherStep id token t a b → Keeps id token t a → Keeps id token t b
  unfolding reschedule park revive_parked abandon_parked
  OtherStep-Keeps (enqueues now new item rows fresh) k =
      enqueue-Keeps id token t now new item rows fresh k
  OtherStep-Keeps (claims participant now locked other rows early) k =
      claim_next-Keeps_other id token t participant now locked other rows early k
  OtherStep-Keeps (reschedules row c due rows e) k =
      update-Keeps id token t (is_held row c) (release (Due.at due)) rows (release-id due)
        (λ r h q. release-HeldIf row c (release (Due.at due)) r e (release-id due) h q) k
  OtherStep-Keeps (parks now row c rows e) k =
      update-Keeps id token t (is_held row c) (parked_row now) rows (parked_row-id now)
        (λ r h q. release-HeldIf row c (parked_row now) r e (parked_row-id now) h q) k
  OtherStep-Keeps (revives now since max rows) k =
      update-Keeps id token t (may_revive since max) (revive now) rows (revive-id now)
        (λ r h q.
          swept-HeldIf (may_revive since max) (revive now) r (revive-id now)
            (may_revive-parked since max) h q)
        k
  OtherStep-Keeps (abandons now since max rows) k =
      update-Keeps id token t (must_abandon since max) (abandon now) rows (abandon-id now)
        (λ r h q.
          swept-HeldIf (must_abandon since max) (abandon now) r (abandon-id now)
            (must_abandon-parked since max) h q)
        k
  OtherStep-Keeps (completes row c rows e) k = delete-Keeps row c rows e k

  -- While the lease of a claim runs, no sequence of statements of other workers, of enqueues of the
  -- same catalog, or of the two updates of a sweep takes the row away: it stays in the queue, held
  -- by that claim.
  pub Others-Keeps :
      {a b : List QueueRow} → Others id token t a b → Keeps id token t a → Keeps id token t b
  Others-Keeps done k = k
  Others-Keeps (next s o) k = OtherStep-Keeps o (Others-Keeps s k)
