-- ===== src/Pipeline/Retired.antt =====
-- The publish step retires the old catalog only when the new ones are out: interpreter.go.
use network_adapter.Prelude.{
  ℕ, suc, ◌≡◌, refl, ap, inl, inr, Bool, true, false, ◌&&◌, ◌||◌, not, Option, none, some, List, [],
  ◌∷◌, all, is_some, is_empty, leb, ltb, arith, Bool-cases, Str, ◌∙◌,
}
use network_adapter.Text.{trim_space}
use network_adapter.Pipeline.Fault.{
  Run, done, Ensures, Ensures-bind, Ensures-done, Ensures-if, Ensures-map,
}
use network_adapter.Pipeline.Value.{Counters, counter}
use network_adapter.Pipeline.Spec.{Publish}
use network_adapter.Pipeline.Files.{CatalogFile}
use network_adapter.Pipeline.Publish.{
  Outcome, Publisher, Result, is_published, after_read, publish_file, publish_files, first_failure,
  all_published, retired, publish_catalogs, address_of, any_work,
}
use network_adapter.Pipeline.Rule.{refuse_when_rule, check_rule, check_publish_url, judged}
use network_adapter.Pipeline.Retirement.{Retirement, retirement}

abbrev within_rule : Counters → Option (Str × ℕ) → Bool
within_rule collected none = false
within_rule collected (some (name, threshold)) = leb (counter name collected) threshold

-- The counter that refuseWhen names is not above its threshold.
abbrev pub tolerated : Str → Counters → Bool
tolerated refuse_when collected =
    is_empty (trim_space refuse_when)
    || within_rule collected (refuse_when_rule (trim_space refuse_when))

abbrev groups_of : List CatalogFile → List Str
groups_of [] = []
groups_of (f ∷ fs) = f.group ∷ groups_of fs

abbrev outcome_groups : List Outcome → List Str
outcome_groups [] = []
outcome_groups (o ∷ os) = o.group ∷ outcome_groups os

module _ (quote : Str → Str) (publisher : Publisher) where
  -- What a publish step has done.
  pub record IsPublished (spec : Publish) (resolved : List (Str × Str))
      (listed : Run (List CatalogFile)) (collected : Counters) (result : Result) : Type 0 where
    pub rule : tolerated spec.refuse_when collected ≡ true
    pub files : List CatalogFile
    pub plan : Option Retirement
    pub read : listed ≡ done files
    pub planned : retirement quote spec.retire_old resolved ≡ done plan
    pub groups : outcome_groups result.outcomes ≡ groups_of files
    pub old :
        is_some result.retired_old
        ≡ (is_some plan && (not (is_empty result.outcomes) && all is_published result.outcomes))

  judged-within :
      (rule : Str) (collected : Counters) (o : Option (Str × ℕ))
      → Ensures (λ u. within_rule collected o ≡ true) (judged quote rule collected o)
  judged-within rule collected none = tt
  judged-within rule collected (some (name, n)) =
      Ensures-if (λ u. leb (counter name collected) n ≡ true) (ltb n (counter name collected)) _ _
        (λ p. tt) (λ p. ground arith)

  check_rule-tolerated :
      (refuse_when : Str) (collected : Counters)
      → Ensures
          (λ u. tolerated refuse_when collected ≡ true)
          (check_rule quote refuse_when collected)
  unfolding check_rule
  check_rule-tolerated refuse_when collected =
      elim (Bool-cases (is_empty (trim_space refuse_when))) [
        | inl blank ↦ rw (Ensures, blank) (rw blank refl)
        | inr rule ↦
            rw (Ensures, rule)
              (Ensures-map
                (λ u. within_rule collected (refuse_when_rule (trim_space refuse_when)) ≡ true)
                (λ u. tolerated refuse_when collected ≡ true)
                (judged quote (trim_space refuse_when) collected
                  (refuse_when_rule (trim_space refuse_when)))
                (λ u p. rw rule p)
                (judged-within (trim_space refuse_when) collected
                  (refuse_when_rule (trim_space refuse_when))))
      ]

  after_read-group :
      (n : ℕ) (url : Str) (f : CatalogFile) (o : Option Str)
      → (after_read quote publisher n url f o).group ≡ f.group
  after_read-group n url f (some reason) = refl
  after_read-group n url f none =
      let o : Outcome = record (publisher.publish n url f.content) { group = f.group } in
      elim (Bool-cases (is_empty o.catalog_id)) [
        | inl none_ ↦ rw none_ refl
        | inr some_ ↦ rw some_ refl
      ]

  publish_file-group :
      (n : ℕ) (url : Str) (f : CatalogFile) → (publish_file quote publisher n url f).group ≡ f.group
  unfolding publish_file
  publish_file-group n url f = after_read-group n url f (publisher.read_error f.slug)

  publish_files-groups :
      (n : ℕ) (url : Str) (fs : List CatalogFile)
      → outcome_groups (publish_files quote publisher n url fs) ≡ groups_of fs
  unfolding publish_files publish_file
  publish_files-groups n url [] = refl
  publish_files-groups n url (f ∷ fs) =
      rw (publish_file-group n url f) (ap (λ t. f.group ∷ t) (publish_files-groups (suc n) url fs))

  -- allPublished finds no reason exactly if there are outcomes and all are published.
  first_failure-all :
      (os : List Outcome) → is_some (first_failure quote publisher os) ≡ not (all is_published os)
  unfolding first_failure
  first_failure-all [] = refl
  first_failure-all (o ∷ os) = ground (arith, first_failure-all os)

  all_published-all :
      (os : List Outcome)
      → is_some (all_published quote publisher os) ≡ not (not (is_empty os) && all is_published os)
  unfolding all_published
  all_published-all [] = refl
  all_published-all (o ∷ os) = first_failure-all (o ∷ os)

  retired-old :
      (url : Str) (os : List Outcome) (plan : Option Retirement) (why : Option Str)
      → is_some (retired quote publisher url os plan why).retired_old
        ≡ (is_some plan && not (is_some why))
  retired-old url os none why = refl
  retired-old url os (some r) none = refl
  retired-old url os (some r) (some why) = refl

  retired-outcomes :
      (url : Str) (os : List Outcome) (plan : Option Retirement) (why : Option Str)
      → (retired quote publisher url os plan why).outcomes ≡ os
  retired-outcomes url os none why = refl
  retired-outcomes url os (some r) none = refl
  retired-outcomes url os (some r) (some why) = refl

  not-not : (b c : Bool) → c ≡ not b → not c ≡ b
  not-not true c e = ap not e
  not-not false c e = ap not e

  -- When PublishCatalogs returns a result, the counter of refuseWhen is not above its threshold, the
  -- outcomes are one per catalog file in the files' order, and the old catalog's retirement was sent
  -- exactly if one is planned, there are files, and every outcome is published.
  pub publish_catalogs-IsPublished :
      (spec : Publish) (resolved : List (Str × Str)) (dir : Str) (listed : Run (List CatalogFile))
      (collected : Counters) (result : Result)
      → publish_catalogs quote publisher spec resolved dir listed collected ≡ done result
      → IsPublished spec resolved listed collected result
  unfolding publish_catalogs
  publish_catalogs-IsPublished spec resolved dir listed collected result h =
      let P = IsPublished spec resolved listed collected in
      Ensures-done P (publish_catalogs quote publisher spec resolved dir listed collected)
        (Ensures-bind P (check_rule quote spec.refuse_when collected) _ λ u p0.
          Ensures-bind P (check_publish_url quote spec) _ λ u1 p1.
            Ensures-bind P (address_of quote publisher spec resolved) _ λ url p2.
              Ensures-bind P (retirement quote spec.retire_old resolved) _ λ plan p3.
                Ensures-bind P listed _ λ files p4.
                  Ensures-bind P (any_work quote publisher dir files plan) _ λ u2 p5.
                    let os = publish_files quote publisher 0 url files in
                    let why = all_published quote publisher os in
                    record {
                      rule =
                          Ensures-done (λ u. tolerated spec.refuse_when collected ≡ true)
                            (check_rule quote spec.refuse_when collected)
                            (check_rule-tolerated spec.refuse_when collected) p0;
                      files = files;
                      plan = plan;
                      read = p4;
                      planned = p3;
                      groups =
                          rw (retired-outcomes url os plan why) (publish_files-groups 0 url files);
                      old = rw (retired-outcomes url os plan why) (
                          retired-old url os plan why
                          ∙ ap (λ b. is_some plan && b)
                              (not-not (not (is_empty os) && all is_published os) (is_some why)
                                (all_published-all os)));
                    })
        h
