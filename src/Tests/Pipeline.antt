-- ===== src/Tests/Pipeline.antt =====
-- The catalog publisher's pipeline at concrete inputs.
use network_adapter.Prelude.{
  ◌+◌, ◌≤◌, ◌≡◌, refl, Bool, true, false, none, some, List, [], ◌∷◌, map, length, is_empty, All,
  Str, get_or, ltb, lookup, str_eq, arith, String,
}
use network_adapter.Text.{decimal_from, str, trim_space}
use network_adapter.Json.{null, boolean, string}
use network_adapter.Pipeline.Path.{entry_of}
use network_adapter.Pipeline.Fault.{Class, Run, done, fail}
use network_adapter.Pipeline.Value.{Engine, Record, Counters, counter, of_records}
use network_adapter.Pipeline.Context.{RunContext}
use network_adapter.Pipeline.Primitives.{Scope, dedupe, join}
use network_adapter.Pipeline.Spec.{With, Step, StepOutcome, Catalog, Publish, BuiltCatalog}
use network_adapter.Pipeline.Order.{sort_stable}
use network_adapter.Pipeline.Catalog.{Groups, catalog_group, catalog_chunk}
use network_adapter.Pipeline.Build.{Tally, build_catalogs}
use network_adapter.Pipeline.Files.{
  file, Directory, Disk, CatalogFile, catalog_files, write_catalogs, slug_lt,
}
use network_adapter.Pipeline.Publish.{Status, Publisher, Result, publish_catalogs}
use network_adapter.Pipeline.Interpreter.{run_steps}
use network_adapter.Pipeline.Calls.{Upstream, Runner}
use network_adapter.Pipeline.Reauth.{run_steps-reauths}
use network_adapter.Pipeline.Chunked.{IsSplit, catalog_chunk-IsSplit}
use network_adapter.Pipeline.Grouped.{IsGrouped, catalog_group-IsGrouped}
use network_adapter.Pipeline.Accounted.{build_catalogs-counters}
use network_adapter.Pipeline.Named.{build_catalogs-distinct}
use network_adapter.Pipeline.Named.Fresh.{Safe, distinct, folded}
use network_adapter.Pipeline.Written.{build_catalogs-catalog_files, files_of}
use network_adapter.Pipeline.Retired.{IsPublished, publish_catalogs-IsPublished}
use network_adapter.Pipeline.Deduped.{IsDeduped, dedupe-IsDeduped}
use network_adapter.Pipeline.Joined.{IsJoined, join-IsJoined}

-- An engine whose expressions are names of fields.
abbrev engine : Engine
engine = record {
  evaluate = λ expr fields. done (get_or (lookup expr fields) null);
  quote = λ s. s;
  encode = λ v. [];
  number_text = λ s. s;
  show = λ v. [];
  number_lt = λ s t. ltb (length s) (length t);
  number_floor = length;
  is_negative = λ s. false;
  is_zero = is_empty;
  to_lower = λ s. s;
  resolve_reference = λ base reference. done reference;
  transform = λ reference input. done (str "{}");
  decode = λ s. done null;
  uuid = str "u1";
  now = str "2026-01-01T00:00:00Z";
}

abbrev row : String → String → Bool → Record
row state id dropped =
    (str "state", string (str state))
    ∷ (str "id", string (str id))
    ∷ (str "dropped", boolean dropped)
    ∷ []

-- Two records of one state, one of another, and one that is excluded.
abbrev rows : List Record
rows = row "KA" "1" false ∷ row "MH" "2" false ∷ row "KA" "3" false ∷ row "MH" "4" true ∷ []

abbrev catalog : Catalog
catalog = record {
  group_by = str "state";
  exclude = record { when = str "dropped"; reason = str "stale" } ∷ [];
  annotate = [];
  order = record { by = []; direction = []; render_by = [] };
  chunk = record {
    budget = 1;
    cost = [];
    slug = str "${state}-${chunkIndex}";
    refuse_split_when = [];
  };
  catalog_id = str "catalog";
  resource_id = [];
  render = record {
    mapping = str "m.jsonata";
    mapping_by_field = [];
    mappings = [];
    local_values = [];
  };
}

abbrev context : RunContext
context = record { inputs = []; token = []; outputs = []; utc_offset = []; locals = [] }

abbrev values_of : {A : Type 0} → Run (List A) → List A
values_of (done xs) = xs
values_of (fail f) = []

abbrev run : Tally × Run (List BuiltCatalog)
run = build_catalogs engine [] catalog context rows

catalog_chunk-IsSplit_example : IsSplit engine catalog.chunk rows (map (λ r. r ∷ []) rows)
unfolding catalog_chunk str_eq trim_space
catalog_chunk-IsSplit_example =
    catalog_chunk-IsSplit engine catalog.chunk rows (map (λ r. r ∷ []) rows) refl (omega arith)
      (omega arith, (omega arith, (omega arith, (omega arith, tt)))) refl

abbrev groups : Groups
groups = record {
  keys = str "KA" ∷ str "MH" ∷ [];
  members =
      (str "KA", row "KA" "1" false ∷ row "KA" "3" false ∷ [])
      ∷ (str "MH", row "MH" "2" false ∷ row "MH" "4" true ∷ [])
      ∷ [];
}

catalog_group-IsGrouped_example : IsGrouped engine (str "state") rows groups
unfolding catalog_group str_eq
catalog_group-IsGrouped_example = catalog_group-IsGrouped engine (str "state") rows groups refl

build_catalogs-counters_example :
    counter (str "published") run.0.counters + counter (str "excluded") run.0.counters ≡ 4
unfolding build_catalogs decimal_from
build_catalogs-counters_example =
    build_catalogs-counters engine [] catalog context rows run.0 (values_of run.1) refl

build_catalogs-distinct_example :
    All Safe (values_of run.1) × (distinct (folded (values_of run.1)) ≡ true)
unfolding build_catalogs decimal_from
build_catalogs-distinct_example =
    build_catalogs-distinct engine [] catalog context rows run.0 (values_of run.1) refl

-- A directory that holds a catalog of an earlier run, and one that is none of its files.
abbrev old_directory : Directory
old_directory = (str "p-OLD-1.json", file (str "{}")) ∷ (str "notes.txt", file []) ∷ []

abbrev disk : Disk
disk = record {
  rooted = true;
  dir = str "out" ∷ str "work" ∷ [];
  path = λ name. name;
  mkdir_error = none;
  read_error = none;
  remove_error = λ name. none;
  write_error = λ name. none;
  is_a_directory = λ name. record { class = Class.ordinary; text = name };
  indent = λ s. done s;
}

abbrev written : Directory × Run (Unit {0})
written = write_catalogs (str "p") disk (values_of run.1) old_directory

build_catalogs-catalog_files_example :
    catalog_files (str "p") disk written.0
    ≡ done (sort_stable (slug_lt (str "p")) (files_of (str "p") disk (values_of run.1)))
unfolding build_catalogs write_catalogs decimal_from
build_catalogs-catalog_files_example =
    build_catalogs-catalog_files engine [] catalog context rows run.0 (values_of run.1) (str "p")
      disk old_directory written.0 ((λ e. cc), tt) refl refl refl

-- Which file a name stands for.
entry_of_test :
    (entry_of true (str "out" ∷ str "work" ∷ []) (str "p-MH.json") ≡ some (str "p-MH.json"))
    × (entry_of true (str "out" ∷ str "work" ∷ []) (str "../p-MH.json") ≡ none)
    × (entry_of true (str "out" ∷ str "work" ∷ []) (str "a/p-MH.json") ≡ none)
    × (entry_of true (str "out" ∷ str "work" ∷ []) (str "./../out/p-MH.json")
        ≡ some (str "p-MH.json"))
unfolding entry_of str_eq
entry_of_test = (refl, refl, refl, refl)

-- With a prefix that leads out of the directory, the write succeeds and the directory stays empty.
write_outside_test : write_catalogs (str "../x") disk (values_of run.1) [] ≡ ([], done tt)
unfolding build_catalogs write_catalogs decimal_from
write_outside_test = refl

abbrev publisher : Publisher
publisher = record {
  publish = λ n url content. record {
    group = [];
    catalog_id = [];
    status = Status.published;
    reason = [];
  };
  retire = λ n url r. record {
    group = [];
    catalog_id = r.catalog_id;
    status = Status.published;
    reason = [];
  };
  catalog_id_of = λ content. str "catalog";
  read_error = λ slug. none;
}

abbrev publish_spec : Publish
publish_spec = record {
  url = str "${inputs.publishUrl}/publish";
  refuse_when = str "collection.failed > 1";
  retire_old = record {
    enabled = str "${inputs.retire}";
    catalog_id = str "old";
    descriptor_name = [];
    is_active = none;
    update_mode = [];
    catalog_type = [];
    visible_to = [];
    schema_types = [];
  };
  address_hint = [];
}

abbrev resolved : List (Str × Str)
resolved = (str "publishUrl", str "https://p.example") ∷ (str "retire", str "true") ∷ []

abbrev listed : Run (List CatalogFile)
listed = done (record { slug = str "KA-1"; group = str "KA"; content = str "{}" } ∷ [])

abbrev tolerated_counters : Counters
tolerated_counters = (str "failed", 1) ∷ []

abbrev result : Result
result = record {
  outcomes =
      record {
        group = str "KA";
        catalog_id = str "catalog";
        status = Status.published;
        reason = [];
      }
      ∷ [];
  retired_old =
      some (record { group = []; catalog_id = str "old"; status = Status.published; reason = [] });
  retired_skipped = [];
}

publish_catalogs-IsPublished_example :
    IsPublished (λ s. s) publisher publish_spec resolved listed tolerated_counters result
unfolding publish_catalogs
publish_catalogs-IsPublished_example =
    publish_catalogs-IsPublished (λ s. s) publisher publish_spec resolved (str "out") listed
      tolerated_counters result refl

-- A record of another case has no catalog of its own.
abbrev clashing : List Record
clashing = row "KA" "1" false ∷ row "ka" "2" false ∷ []

abbrev failed_run : {A : Type 0} → Run A → Bool
failed_run (done x) = false
failed_run (fail f) = true

clash_test : failed_run (build_catalogs engine [] catalog context clashing).1 ≡ true
unfolding build_catalogs decimal_from
clash_test = refl

-- An upstream that rejects every credential.
abbrev upstream : Upstream
upstream = record {
  has_client = true;
  has_auth = true;
  reexchange_on = 401 ∷ [];
  get =
      λ n token reference path locals. fail (record { class = Class.reauth 401; text = str "401" });
  post =
      λ n token reference path locals. fail (record { class = Class.reauth 401; text = str "401" });
  prepare = λ n. done (str "token");
  context_error = λ n. none;
}

abbrev no_outcome : StepOutcome
no_outcome = record { counter = []; continue = true }

abbrev arguments : With
arguments = record {
  path = str "/records";
  mapping = str "m.jsonata";
  local_values = [];
  left = [];
  right = [];
  on = [];
  type = [];
  carry = [];
  field = [];
  rules = [];
  then_edits = [];
  key = [];
  records = [];
  of = [];
  when = [];
}

abbrev fetch : Step
fetch = record {
  id = str "fetch";
  uses = str "http.get";
  args = arguments;
  out = [];
  when = [];
  other = [];
  fail_when_empty = [];
  for_each = [];
  loop_name = [];
  concurrency = 1;
  on_error = [];
  on_empty_output = no_outcome;
}

abbrev start : Runner
start = record {
  inputs = [];
  utc_offset = [];
  token = str "first";
  outputs = [];
  counters = [];
  reauths = 0;
  prepares = 0;
  last_output = null;
  asked = 0;
}

run_steps-reauths_example : (run_steps engine upstream [] (fetch ∷ []) start).0.prepares + 0 ≤ 0 + 3
run_steps-reauths_example = run_steps-reauths engine upstream [] (fetch ∷ []) start (omega arith)

reauths_test : (run_steps engine upstream [] (fetch ∷ []) start).0.prepares ≡ 1
unfolding run_steps str_eq decimal_from
reauths_test = refl

-- The rows as the output of the step before, and under a name.
abbrev scope : Scope
scope = record {
  own = record context { outputs = (str "all", of_records rows) ∷ [] };
  iteration = context;
  last_output = of_records rows;
}

abbrev dedupe_step : Step
dedupe_step = record fetch { uses = str "dedupe"; args = record arguments { key = str "state" } }

dedupe-IsDeduped_example :
    IsDeduped engine scope dedupe_step (row "KA" "1" false ∷ row "MH" "2" false ∷ [])
unfolding dedupe str_eq of_records
dedupe-IsDeduped_example =
    dedupe-IsDeduped engine scope dedupe_step (row "KA" "1" false ∷ row "MH" "2" false ∷ []) refl

abbrev join_step : Step
join_step = record fetch {
  uses = str "join";
  args = record arguments {
    left = str "${all}";
    right = str "${all}";
    on = str "state";
    carry = str "dropped" ∷ [];
  };
}

-- Both rows of MH have the flag of the last one.
abbrev joined : List Record
joined = row "KA" "1" false ∷ row "MH" "2" true ∷ row "KA" "3" false ∷ row "MH" "4" true ∷ []

join-IsJoined_example : IsJoined engine scope join_step joined
unfolding join str_eq of_records
join-IsJoined_example = join-IsJoined engine scope join_step joined refl
