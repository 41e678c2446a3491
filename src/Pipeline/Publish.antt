-- ===== src/Pipeline/Publish.antt =====
-- The publish step: which catalogs go out, under what safety rule: interpreter.go.
use network_adapter.Prelude.{
  ℕ, suc, ◌++◌, Bool, true, false, ◌||◌, Option, none, some, List, [], ◌∷◌, not, if◌then◌else◌,
  is_empty, any, get_or, Str, lookup, length,
}
use network_adapter.Text.{str, trim_space}
use network_adapter.Pipeline.Fault.{Run, done, failed, ◌>>=◌}
use network_adapter.Pipeline.Value.{Counters}
use network_adapter.Pipeline.Spec.{Publish}
use network_adapter.Pipeline.Files.{CatalogFile}
use network_adapter.Pipeline.Rule.{check_rule, check_publish_url}
use network_adapter.Pipeline.Retirement.{Retirement, retirement}

-- Outcome, and its status.
pub data Status : Type 0 where
  published rejected transport_error : Status

abbrev pub status_text : Status → Str
status_text published = str "published"
status_text rejected = str "rejected"
status_text transport_error = str "transport-error"

pub record Outcome : Type 0 where
  pub group : Str
  pub catalog_id : Str
  pub status : Status
  pub reason : Str

-- Publisher, whose answers may depend on the calls before; the reason of a file that cannot be read
-- back, by its slug; and catalogIDOf, which json.Unmarshal decides.
pub record Publisher : Type 0 where
  pub publish : ℕ → Str → Str → Outcome
  pub retire : ℕ → Str → Retirement → Outcome
  pub catalog_id_of : Str → Str
  pub read_error : Str → Option Str

-- Result
pub record Result : Type 0 where
  pub outcomes : List Outcome
  pub retired_old : Option Outcome
  pub retired_skipped : Str

unfoldable pub is_published : Outcome → Bool
is_published o = elim o.status [ published ↦ true | _ ↦ false ]

abbrev retire_failed : Option Outcome → Bool
retire_failed none = false
retire_failed (some o) = not (is_published o)

-- HasFailures
unfoldable pub has_failures : Result → Bool
unfolding is_published
has_failures r = any (λ o. not (is_published o)) r.outcomes || retire_failed r.retired_old

module _ (quote : Str → Str) where
  module _ (publisher : Publisher) where
    abbrev pub with_id : Str → Outcome → Outcome
    with_id id o = if is_empty o.catalog_id then record o { catalog_id = id } else o

    abbrev pub after_read : ℕ → Str → CatalogFile → Option Str → Outcome
    after_read n url f none =
        with_id (publisher.catalog_id_of f.content)
          (record (publisher.publish n url f.content) { group = f.group })
    after_read n url f (some reason) = record {
      group = f.group;
      catalog_id = [];
      status = transport_error;
      reason = reason;
    }

    -- publishFile, for the n-th file.
    unfoldable pub publish_file : ℕ → Str → CatalogFile → Outcome
    publish_file n url f = after_read n url f (publisher.read_error f.slug)

    unfoldable pub publish_files : ℕ → Str → List CatalogFile → List Outcome
    unfolding publish_file
    publish_files n url [] = []
    publish_files n url (f ∷ fs) = publish_file n url f ∷ publish_files (suc n) url fs

    abbrev pub nothing_built : Str
    nothing_built = str "no catalogs were built, so there is nothing to supersede the old one"

    abbrev pub still_serves : Outcome → Str
    still_serves o =
        o.catalog_id
        ++ (str " is "
            ++ (status_text o.status
                ++ str ", so the old catalog still has to serve its resources"))

    -- The first outcome that is not published, as allPublished reports it.
    unfoldable pub first_failure : List Outcome → Option Str
    unfolding is_published
    first_failure [] = none
    first_failure (o ∷ os) = if is_published o then first_failure os else some (still_serves o)

    -- allPublished: none where all are.
    unfoldable pub all_published : List Outcome → Option Str
    unfolding first_failure
    all_published [] = some nothing_built
    all_published (o ∷ os) = first_failure (o ∷ os)

    abbrev pub retired : Str → List Outcome → Option Retirement → Option Str → Result
    retired url os none why = record { outcomes = os; retired_old = none; retired_skipped = [] }
    retired url os (some r) (some why) = record {
      outcomes = os;
      retired_old = none;
      retired_skipped = why;
    }
    retired url os (some r) none = record {
      outcomes = os;
      retired_old = some (with_id r.catalog_id (publisher.retire (length os) url r));
      retired_skipped = [];
    }

    abbrev pub any_work : Str → List CatalogFile → Option Retirement → Run (Unit {0})
    any_work dir [] none = failed (str "no catalog files in " ∷ dir ∷ [])
    any_work dir fs r = done tt

    abbrev pub address_of : Publish → List (Str × Str) → Run Str
    address_of spec resolved =
        let url = trim_space (get_or (lookup (str "publishUrl") resolved) []) in
        if is_empty url
        then failed (
            str "no publish address: "
            ∷ (if is_empty spec.address_hint
                then str "set inputs.publishUrl"
                else spec.address_hint)
            ∷ [])
        else done url

    -- PublishCatalogs, for a publisher that is given, over what catalogFiles answers.
    unfoldable pub publish_catalogs :
        Publish → List (Str × Str) → Str → Run (List CatalogFile) → Counters → Run Result
    unfolding check_rule check_publish_url retirement publish_files all_published lookup trim_space
    publish_catalogs spec resolved dir listed collected =
        check_rule quote spec.refuse_when collected >>= λ _. check_publish_url quote spec >>= λ _.
        address_of spec resolved >>= λ url. retirement quote spec.retire_old resolved >>= λ retire.
        listed >>= λ files. any_work dir files retire >>= λ _.
        let outcomes = publish_files 0 url files in
        done (retired url outcomes retire (all_published outcomes))
