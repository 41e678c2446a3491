-- ===== src/Pipeline/Named/Fresh.antt =====
-- Names that are taken one after another, without regard to case: run.go.
use network_adapter.Prelude.{
  ◌++◌, ◌≡◌, refl, sym, ap, ◌∙◌, subst, Bool, true, false, ◌&&◌, not, List, [], ◌∷◌, is_some, any,
  All, All-append, arith, Str, str_eq, str_eq_iff, lookup, insert, lookup-insert,
  lookup-insert_self,
}
use network_adapter.Pipeline.Spec.{BuiltCatalog}
use network_adapter.Pipeline.Render.{is_slug}
use network_adapter.Pipeline.Build.{Tally, fold_slug}

-- No two names fold to the same.
abbrev pub distinct : List Str → Bool
distinct [] = true
distinct (x ∷ xs) = not (any (str_eq x) xs) && distinct xs

abbrev pub folded : List BuiltCatalog → List Str
folded [] = []
folded (b ∷ bs) = fold_slug b.slug ∷ folded bs

-- The tally after some catalogs, and that none of them had its name taken before it.
abbrev pub named_after : List (Str × Str) → List BuiltCatalog → List (Str × Str)
named_after names [] = names
named_after names (b ∷ bs) = named_after (insert (fold_slug b.slug) b.slug names) bs

abbrev pub fresh : List (Str × Str) → List BuiltCatalog → Bool
fresh names [] = true
fresh names (b ∷ bs) =
    not (is_some (lookup (fold_slug b.slug) names))
    && fresh (insert (fold_slug b.slug) b.slug names) bs

named_after-append :
    (names : List (Str × Str)) (xs ys : List BuiltCatalog)
    → named_after names (xs ++ ys) ≡ named_after (named_after names xs) ys
named_after-append names [] ys = refl
named_after-append names (x ∷ xs) ys =
    named_after-append (insert (fold_slug x.slug) x.slug names) xs ys

fresh-append :
    (names : List (Str × Str)) (xs ys : List BuiltCatalog)
    → fresh names xs ≡ true
    → fresh (named_after names xs) ys ≡ true
    → fresh names (xs ++ ys) ≡ true
fresh-append names [] ys f g = g
fresh-append names (x ∷ xs) ys f g =
    ground (arith, fresh-append (insert (fold_slug x.slug) x.slug names) xs ys)

-- A taken name is not among fresh ones.
taken-fresh :
    (k : Str) (names : List (Str × Str)) (bs : List BuiltCatalog)
    → is_some (lookup k names) ≡ true
    → fresh names bs ≡ true
    → any (str_eq k) (folded bs) ≡ false
taken-fresh k names [] t f = refl
taken-fresh k names (b ∷ bs) t f = ground (
  arith,
  str_eq_iff k (fold_slug b.slug),
  lookup-insert (fold_slug b.slug) k b.slug names,
  taken-fresh k (insert (fold_slug b.slug) b.slug names) bs,
)

pub fresh-distinct :
    (names : List (Str × Str)) (bs : List BuiltCatalog)
    → fresh names bs ≡ true
    → distinct (folded bs) ≡ true
fresh-distinct names [] f = refl
fresh-distinct names (b ∷ bs) f = ground (
  arith,
  lookup-insert_self (fold_slug b.slug) b.slug names,
  taken-fresh (fold_slug b.slug) (insert (fold_slug b.slug) b.slug names) bs,
  fresh-distinct (insert (fold_slug b.slug) b.slug names) bs,
)

abbrev pub Safe : BuiltCatalog → Type 0
Safe b = is_slug b.slug ≡ true

-- What the building of catalogs does to the names of its tally.
pub record Names (t t' : Tally) (bs : List BuiltCatalog) : Type 0 where
  pub after : t'.named ≡ named_after t.named bs
  pub is_fresh : fresh t.named bs ≡ true
  pub safe : All Safe bs

pub Names-nil : (t t' : Tally) → t'.named ≡ t.named → Names t t' []
Names-nil t t' e = record { after = e; is_fresh = refl; safe = tt }

pub Names-append :
    (t t' t'' : Tally) (xs ys : List BuiltCatalog)
    → Names t t' xs
    → Names t' t'' ys
    → Names t t'' (xs ++ ys)
Names-append t t' t'' xs ys p q = record {
  after = q.after ∙ ap (λ n. named_after n ys) p.after ∙ sym (named_after-append t.named xs ys);
  is_fresh =
      fresh-append t.named xs ys p.is_fresh (subst (λ n. fresh n ys ≡ true) p.after q.is_fresh);
  safe = All-append Safe xs ys p.safe q.safe;
}
