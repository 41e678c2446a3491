-- ===== src/Pipeline/Accounted/Selected.antt =====
-- What catalogSelect does to the counters of a run: run.go.
use network_adapter.Prelude.{
  ℕ, suc, ◌+◌, ◌≡◌, refl, inl, inr, Bool, true, false, List, [], ◌∷◌, ◌++◌, length, length-append,
  get_or, arith, if◌then◌else◌, Bool-cases, Str, str_eq, lookup, lookup-insert,
}
use network_adapter.Text.{str}
use network_adapter.Pipeline.Fault.{
  done, After, After-only, After-then, only, within, After-map, Doing,
}
use network_adapter.Pipeline.Value.{Engine, Record, Counters, count_by, counter}
use network_adapter.Pipeline.Context.{RunContext, interpolate}
use network_adapter.Pipeline.Spec.{Catalog, ExcludeRule, AnnotateRule}
use network_adapter.Pipeline.Catalog.{
  excluded, annotated, select_row, select, label_counted, excluded_by, annotate_match, kept_row,
  rule_name, record_scope, labelled, exclude_match,
}

-- The counters after one more.
counter-count_by :
    (k j : Str) (n : ℕ) (c : Counters)
    → counter j (count_by k n c) ≡ (if str_eq k j then counter k c + n else counter j c)
unfolding counter count_by
counter-count_by k j n c =
    rw (lookup-insert k j (get_or (lookup k c) 0 + n) c)
      elim (Bool-cases (str_eq k j)) [ inl same ↦ rw same refl | inr other ↦ rw other refl ]

-- Two counters of a run.
pub record Accounts (left kept : ℕ) (c d : Counters) : Type 0 where
  pub excluded_ : counter (str "excluded") d ≡ counter (str "excluded") c + left
  pub published_ : counter (str "published") d ≡ counter (str "published") c + kept

pub Accounts-refl : (c : Counters) → Accounts 0 0 c c
Accounts-refl c = record { excluded_ = omega arith; published_ = omega arith }

pub Accounts-right :
    (m n : ℕ) {c d e : Counters} → Accounts m 0 c d → Accounts 0 n d e → Accounts m n c e
Accounts-right m n a b = record {
  excluded_ = omega (arith, a.excluded_, b.excluded_);
  published_ = omega (arith, a.published_, b.published_);
}

pub Accounts-left :
    (n : ℕ) {c d e : Counters} → Accounts 0 0 c d → Accounts 0 n d e → Accounts 0 n c e
Accounts-left n a b = record {
  excluded_ = omega (arith, a.excluded_, b.excluded_);
  published_ = omega (arith, a.published_, b.published_);
}

pub Accounts-trans :
    {m n m' n' : ℕ} {c d e : Counters}
    → Accounts m n c d
    → Accounts m' n' d e
    → Accounts (m + m') (n + n') c e
Accounts-trans a b = record {
  excluded_ = omega (arith, a.excluded_, b.excluded_);
  published_ = omega (arith, a.published_, b.published_);
}

-- A counter of another name.
pub Accounts-other :
    (k : Str) (n : ℕ) (c : Counters)
    → str_eq k (str "excluded") ≡ false
    → str_eq k (str "published") ≡ false
    → Accounts 0 0 c (count_by k n c)
Accounts-other k n c e p = record {
  excluded_ = rw (counter-count_by k (str "excluded") n c, e) (omega arith);
  published_ = rw (counter-count_by k (str "published") n c, p) (omega arith);
}

Accounts-excluded : (c : Counters) → Accounts 1 0 c (count_by (str "excluded") 1 c)
unfolding str_eq
Accounts-excluded c = record {
  excluded_ = rw (counter-count_by (str "excluded") (str "excluded") 1 c) refl;
  published_ = rw (counter-count_by (str "excluded") (str "published") 1 c) (omega arith);
}

pub Accounts-published : (n : ℕ) (c : Counters) → Accounts 0 n c (count_by (str "published") n c)
unfolding str_eq
Accounts-published n c = record {
  excluded_ = rw (counter-count_by (str "published") (str "excluded") n c) (omega arith);
  published_ = rw (counter-count_by (str "published") (str "published") n c) refl;
}

-- A record that is excluded is counted, and one that is not is not.
abbrev out_of : Bool → ℕ
out_of true = 1
out_of false = 0

abbrev Excludes : Counters → Counters → Bool → Type 0
Excludes c d out = Accounts (out_of out) 0 c d

abbrev Keeps : {T : Type 0} → Counters → Counters → T → Type 0
Keeps c d x = Accounts 0 0 c d

label_counted-Accounts :
    (rule : AnnotateRule) (hit : Bool) (c : Counters) → Accounts 0 0 c (label_counted rule hit c)
unfolding str_eq
label_counted-Accounts rule true c = Accounts-other (str "annotated:" ++ rule.label) 1 c refl refl
label_counted-Accounts rule false c = Accounts-refl c

-- The records that are kept, of so many.
abbrev pub Selects : ℕ → Counters → Counters → List Record → Type 0
Selects n c d kept = (left : ℕ) × Accounts left 0 c d × (left + length kept ≡ n)

module _ (engine : Engine) where
  excluded_by-Accounts :
      (name : Str) (rule : ExcludeRule) (row : Record) (scope : RunContext) (c : Counters)
      → After (Excludes c) (excluded_by engine scope name rule row c)
  unfolding str_eq
  excluded_by-Accounts name rule row scope c =
      After-only (Excludes c) c
        (within (name ∷ str " reason: " ∷ [])
          (interpolate engine (record_scope scope row) rule.reason))
        _
        λ reason p.
          Accounts-trans (Accounts-excluded c)
            (Accounts-other (str "excluded:" ++ reason) 1 (count_by (str "excluded") 1 c) refl refl)

  excluded-Accounts :
      (i : ℕ) (rules : List ExcludeRule) (row : Record) (scope : RunContext) (c : Counters)
      → After (Excludes c) (excluded engine i rules row scope c)
  unfolding excluded
  excluded-Accounts i [] row scope c = Accounts-refl c
  excluded-Accounts i (rule ∷ rules) row scope c =
      After-only (Excludes c) c (exclude_match engine scope (rule_name (str "exclude") i) rule row)
        _ (λ hit p. by_hit (excluded-Accounts (suc i) rules row scope c) hit)
    where
      by_hit :
          After (Excludes c) (excluded engine (suc i) rules row scope c)
          → (hit : Bool)
          → After (Excludes c) (
              elim hit as (λ _. Doing Counters Bool) [
                | true ↦ excluded_by engine scope (rule_name (str "exclude") i) rule row
                | false ↦ excluded engine (suc i) rules row scope
              ]
                c)
      by_hit rest true = excluded_by-Accounts (rule_name (str "exclude") i) rule row scope c
      by_hit rest false = rest

  annotated-Accounts :
      (i : ℕ) (rules : List AnnotateRule) (row : Record) (scope : RunContext) (kept : Record)
      (c : Counters)
      → After (Keeps c) (annotated engine i rules row scope kept c)
  unfolding annotated
  annotated-Accounts i [] row scope kept c = Accounts-refl c
  annotated-Accounts i (rule ∷ rules) row scope kept c =
      After-only (Keeps c) c (annotate_match engine scope (rule_name (str "annotate") i) rule row) _
        λ hit p.
          After-map (Keeps (label_counted rule hit c)) (Keeps c)
            (annotated engine (suc i) rules row scope (labelled rule hit kept)
              (label_counted rule hit c))
            (λ d x a. Accounts-trans (label_counted-Accounts rule hit c) a)
            (annotated-Accounts (suc i) rules row scope (labelled rule hit kept)
              (label_counted rule hit c))

  select_row-Accounts :
      (catalog : Catalog) (scope : RunContext) (row : Record) (c : Counters)
      → After (Selects 1 c) (select_row engine catalog scope row c)
  unfolding select_row
  select_row-Accounts catalog scope row c =
      After-then (Selects 1 c) (Excludes c) (excluded engine 0 catalog.exclude row scope c)
        (kept_row engine catalog scope row) (excluded-Accounts 0 catalog.exclude row scope c) by_out
    where
      by_out :
          (d : Counters) (out : Bool)
          → Excludes c d out
          → After (Selects 1 c) (kept_row engine catalog scope row out d)
      by_out d true a = (1, a, refl)
      by_out d false a =
          After-then (Selects 1 c) (Keeps d) (annotated engine 0 catalog.annotate row scope row d)
            (λ kept. only (done (kept ∷ [])))
            (annotated-Accounts 0 catalog.annotate row scope row d)
            (λ e kept b. (0, Accounts-trans a b, refl))

  pub select-Accounts :
      (catalog : Catalog) (scope : RunContext) (rows : List Record) (c : Counters)
      → After (Selects (length rows) c) (select engine catalog scope rows c)
  unfolding select
  select-Accounts catalog scope [] c = (0, Accounts-refl c, refl)
  select-Accounts catalog scope (row ∷ rows) c =
      After-then (Selects (suc (length rows)) c) (Selects 1 c)
        (select_row engine catalog scope row c) _ (select_row-Accounts catalog scope row c)
        λ d kept (m, a, p).
          After-then (Selects (suc (length rows)) c) (Selects (length rows) d)
            (select engine catalog scope rows d) (λ more. only (done (kept ++ more)))
            (select-Accounts catalog scope rows d)
            (λ e more (n, b, q).
              (m + n, Accounts-trans a b, omega (arith, p, q, length-append kept more)))
