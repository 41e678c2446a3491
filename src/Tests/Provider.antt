-- ===== src/Tests/Provider.antt =====
-- The provider step at concrete inputs.
use network_adapter.Prelude.{
  ◌≤◌, ◌<◌, ◌≡◌, refl, ◌↔◌, true, false, none, some, [], ◌∷◌, str_eq, arith, lookup, ◌==◌,
  if◌then◌else◌,
}
use network_adapter.Text.{str, split, strip_prefix}
use network_adapter.Errors.{plain}
use network_adapter.Result.{ok}
use network_adapter.Json.{
  Json, string, array, object, member, no_more, element, end, as_object, member_list, as_array,
  element_list, as_string,
}
use network_adapter.Crawl.Unique.{In}
use network_adapter.Provider.Paths.{
  Paths, walk, child_of, collect, texts, values_at, count_at, is_marked, field_name, marked_name,
  count_along,
}
use network_adapter.Provider.Reaches.{Reaches, walk_iff}
use network_adapter.Provider.Binding.{Binding, binding_in, distinct, distinct_into, append_distinct}
use network_adapter.Provider.Bound.{IsTheBinding, binding_in-IsTheBinding}
use network_adapter.Provider.Retry.{
  budget_timeout, budget_retries, is_negative, max_timeout, max_retry_max,
}
use network_adapter.Provider.Budget.{budget-within, budget_timeout-is_negative}
use network_adapter.Provider.Call.{World, answered, failed, call}
use network_adapter.Provider.Tried.{Answers, call_iff}
use network_adapter.Provider.Serve.{Provider, ActionPlan, found, absent}
use network_adapter.Provider.Run.{ProviderStep, run}
use network_adapter.Provider.Lawful.{IsLawful, run-IsLawful}
use network_adapter.Tests.Plugins.{a_context, some_url}

-- {"list": [{"id": "p1", "type": "Seed"}]}
abbrev offer : Json
offer =
    object
      (member (str "id") (string (str "p1")) (member (str "type") (string (str "Seed")) no_more))

abbrev payload : Json
payload = object (member (str "list") (array (element offer end)) no_more)

walk_iff_example :
    In (string (str "p1")) (walk (str "list[]" ∷ str "id" ∷ []) payload)
    ↔ Reaches (str "list[]" ∷ str "id" ∷ []) payload (string (str "p1"))
walk_iff_example = walk_iff (str "list[]" ∷ str "id" ∷ []) payload (string (str "p1"))

abbrev paths : Paths
paths = record { provider_id = str "list[].id"; capability_code = str "list[].type" }

abbrev binding : Binding
binding = record { participant_id = str "p1"; capability_code = str "Seed" }

binding_in-IsTheBinding_example : IsTheBinding paths payload binding
unfolding binding_in values_at count_at count_along walk texts child_of collect is_marked field_name
    marked_name strip_prefix split distinct distinct_into append_distinct lookup str_eq as_object
    member_list as_array element_list as_string
binding_in-IsTheBinding_example = binding_in-IsTheBinding paths payload binding refl

budget-within_example :
    (0 < budget_timeout 45000)
    × ((budget_timeout 45000 ≤ max_timeout) × (budget_retries 9 ≤ max_retry_max))
budget-within_example = budget-within 45000 9 (omega arith)

budget_timeout-is_negative_example : is_negative (budget_timeout 9300000000000) ≡ true
budget_timeout-is_negative_example =
    budget_timeout-is_negative 9300000000000 (omega arith) (omega arith)

-- A first attempt that fails with a 503, and a second that answers.
abbrev world : World
world = record {
  outcome = λ n. if n == 1 then failed false (plain (str "503")) else answered (str "ok");
  ended_before = λ n. false;
  interrupted = λ n. false;
  ended = none;
  is_context_error = λ e. false;
}

call_iff_example : (call (λ e. e) world 2 ≡ ok (str "ok")) ↔ Answers world (str "ok") 1 3
unfolding budget_retries
call_iff_example = call_iff (λ e. e) world 2 (str "ok")

abbrev plan : ActionPlan
plan = record {
  method = str "GET";
  path = str "/prices";
  mappings = str "https://m.example/prices";
  timeout_ms = 0;
  retry_max = 0;
}

abbrev provider : Provider
provider = record {
  decode = λ body. ok payload;
  action_of = λ body. str "search";
  verify = λ m j. none;
  transform_request = λ m j l. ok (str "{}");
  transform_response = λ m j l a. ok (str "{catalogs}");
  error_member = λ t. absent;
  prerequisites = [];
  no_local = payload;
  has_auth = λ p. true;
  provider_record = λ k. found (record {
    binding_key = k;
    base_url = str "https://p1.example";
    actions = (str "search", plan) ∷ [];
  });
  hosted_elsewhere = [];
  envelopes = [];
  call = λ who base a request. ok (str "{}");
}

abbrev step : ProviderStep
step = record {
  provider = provider;
  binding_keys = str "p1|Seed" ∷ [];
  paths = paths ∷ [];
  networks =
      some (ok (record { id = str "other.example"; is_source = true; is_requester = false } ∷ []));
  beckn_context = λ body. ok ((str "receiverId", string (str "B.example")) ∷ []);
  url_parse = λ s. ok some_url;
  has_host = λ u. true;
}

run-IsLawful_example : IsLawful step a_context (run step a_context).0
run-IsLawful_example = run-IsLawful step a_context
