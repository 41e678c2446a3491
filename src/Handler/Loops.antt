-- ===== src/Handler/Loops.antt =====
-- The handler of a module, a request and what becomes of it, and the loops over the steps.
use network_adapter.Prelude.{ℕ, Bool, Option, none, some, List, [], ◌∷◌, Str, lookup, insert}
use network_adapter.Text.{str}
use network_adapter.Errors.{GoErr}
use network_adapter.Result.{Res}
use network_adapter.Model.{Role, Url, StepContext, ResponseContext, Header}
use network_adapter.Ports.{Step, ResponseStep}
use network_adapter.Response.{Reply, AckSigner}

-- definition.Publisher: a message to a queue; none where it was published.
abbrev pub Publisher : Type 0
Publisher = Str → Str → Option GoErr

-- stdHandler, with what the pipeline reads.
pub record Module : Type 0 where
  pub steps : List Step
  pub response_steps : List ResponseStep
  pub ack_signer : Option AckSigner
  pub has_provider_steps : Bool
  pub subscriber_id : Str
  pub role : Role
  pub module_name : Str
  pub publisher : Option Publisher

-- *http.Request; the body is none where reading it fails, and `subscriber` is the subscriber id in
-- its context.
pub record Request : Type 0 where
  pub method : Str
  pub url : Url
  pub host : Str
  pub header : Header
  pub body : Option Str
  pub subscriber : Option Str

-- The request that the proxy sends on.
pub record Forwarded : Type 0 where
  pub url : Url
  pub header : Header
  pub body : Str

-- The transport: the status, the header and the body of the upstream response; reading the body
-- may fail.
abbrev pub Transport : Type 0
Transport = Forwarded → Res (ℕ × Header × Res Str)

-- What one call of ServeHTTP does: the reply, the body for the audit log, the request sent
-- upstream and the message given to the publisher.
pub record Served : Type 0 where
  pub reply : Reply
  pub audited : Str
  pub forwarded : Option Forwarded
  pub published : Option (Str × Str)

unfoldable pub role_text : Role → Str
role_text Role.bap = str "bap"
role_text Role.bpp = str "bpp"
role_text Role.gateway = str "gateway"
role_text Role.registry = str "registery"
role_text Role.discovery = str "discovery"

-- InstrumentedStep.Run: the step works on a copy, of which these fields are copied back; the header
-- maps are shared.
unfoldable pub instrumented : Step → Step
instrumented step ctx =
    let (c, e) = step ctx in
    (
      record ctx {
        body = c.body;
        response_body = c.response_body;
        route = c.route;
        sub_id = c.sub_id;
        role = c.role;
        context = c.context;
        req_header = c.req_header;
        resp_header = c.resp_header;
      },
      e,
    )

abbrev pub next_step :
    (StepContext → StepContext × Option GoErr)
    → StepContext × Option GoErr
    → StepContext × Option GoErr
next_step rest (ctx, some e) = (ctx, some e)
next_step rest (ctx, none) = rest ctx

-- The loop over the steps: it ends at the first error.
unfoldable pub run_steps : List Step → StepContext → StepContext × Option GoErr
run_steps [] ctx = (ctx, none)
run_steps (step ∷ steps) ctx = next_step (λ c. run_steps steps c) (step ctx)

abbrev pub next_response :
    (StepContext → Option ResponseContext → StepContext × Option ResponseContext × Option GoErr)
    → StepContext × Option ResponseContext × Option GoErr
    → StepContext × Option ResponseContext × Option GoErr
next_response rest (ctx, r, some e) = (ctx, r, some e)
next_response rest (ctx, r, none) = rest ctx r

-- The loop over the response steps.
unfoldable pub run_response_steps : List ResponseStep → ResponseStep
run_response_steps [] ctx r = (ctx, r, none)
run_response_steps (step ∷ steps) ctx r =
    next_response (λ c q. run_response_steps steps c q) (step ctx r)

abbrev pub written : Reply → Served
written reply = record { reply = reply; audited = reply.body; forwarded = none; published = none }

-- net/http's copy of a header into another, read by Get: a key that is there keeps its value.
unfoldable pub copy_header : Header → Header → Header
copy_header dst [] = dst
copy_header dst ((k, v) ∷ src) =
    copy_header (elim (lookup k dst) [ some w ↦ dst | none ↦ insert k v dst ]) src
