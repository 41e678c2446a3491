-- ===== src/Handler/Serve.antt =====
-- ServeHTTP, stepCtx, signNackResponse, route and proxy.
use network_adapter.Prelude.{
  ℕ, not, ◌||◌, Option, none, some, [], ◌∷◌, ◌++◌, if◌then◌else◌, is_empty, Str, str_eq, get_or,
}
use network_adapter.Text.{str}
use network_adapter.Errors.{GoErr, plain, new_not_found_err}
use network_adapter.Result.{Res, ok, err}
use network_adapter.Version.{is_at_least_v2}
use network_adapter.Auth.{extract_auth_signature}
use network_adapter.Model.{
  Url, Route, StepContext, ResponseContext, Header, header_set, header_get, auth_header_subscriber,
}
use network_adapter.Ports.{Clock, Codec, extract_field}
use network_adapter.Response.{
  Reply, AckSigner, send_nack, send_ack, send_response, verify_envelope, nack_bytes,
  sign_body_and_set_header,
}
use network_adapter.Handler.Direction.{derive_direction, is_caller}
use network_adapter.Handler.Loops.{
  Publisher, Module, Request, Forwarded, Transport, Served, role_text, run_steps,
  run_response_steps, written, copy_header,
}

module _ (codec : Codec) (clock : Clock) (h : Module) where
  abbrev pub sign_nack_with : Option AckSigner → StepContext → GoErr → StepContext
  sign_nack_with none ctx e = ctx
  sign_nack_with (some a) ctx e =
      if not (is_at_least_v2 ctx.protocol_version) || is_empty ctx.sub_id
      then ctx
      else (sign_body_and_set_header codec clock a ctx (nack_bytes codec ctx.context e)).0

  -- signNackResponse; a failure to sign leaves the context as it is.
  unfoldable pub sign_nack_response : StepContext → GoErr → StepContext
  sign_nack_response ctx e = sign_nack_with h.ack_signer ctx e

  -- `h.signNackResponse(…)` and then `sendNack(…)`
  unfoldable pub refuse : StepContext → GoErr → Served
  refuse ctx e =
      let signed = sign_nack_response ctx e in
      written (send_nack codec signed.context signed.resp_header e)

  abbrev pub answered :
      (StepContext → Reply) → StepContext × Option ResponseContext × Option GoErr → Served
  answered send (ctx, r, some e) = refuse ctx e
  answered send (ctx, r, none) = written (send ctx)

  -- The response steps of the no-route path, and the answer.
  unfoldable pub finish : (StepContext → Reply) → StepContext → Served
  finish send ctx = answered send (run_response_steps h.response_steps ctx none)

  abbrev pub finish_checked : StepContext → Option GoErr → Served
  finish_checked ctx (some e) = refuse ctx e
  finish_checked ctx none = finish (send_response codec) ctx

  -- ServeHTTP where no step set a route.
  unfoldable pub answer_unrouted : StepContext → Served
  answer_unrouted ctx =
      if is_empty ctx.response_body
      then (if h.has_provider_steps
          then refuse ctx (
              new_not_found_err []
                (plain (str "this module serves no capability matching the request")))
          else finish (send_response codec) ctx)
      else finish_checked ctx (verify_envelope codec ctx.response_body)

  abbrev pub sent_to : Str → Str → Served → Served
  sent_to queue message s = record s { published = some (queue, message) }

  abbrev pub publish : StepContext → Route → Option GoErr → Served
  publish ctx r (some e) = refuse ctx e
  publish ctx r none = finish (send_ack codec) ctx

  abbrev pub publish_with : StepContext → Route → Option Publisher → Served
  publish_with ctx r none = refuse ctx (plain (str "publisher plugin not configured"))
  publish_with ctx r (some pb) =
      sent_to r.publisher_id ctx.body (publish ctx r (pb r.publisher_id ctx.body))

  abbrev pub bad_gateway : StepContext → Forwarded → Served
  bad_gateway ctx f = record {
    reply = record { status = 502; header = ctx.resp_header; body = [] };
    audited = [];
    forwarded = some f;
    published = none;
  }

  abbrev pub relayed :
      Forwarded → ℕ → Str → StepContext × Option ResponseContext × Option GoErr → Served
  relayed f status body (ctx, r, some e) = bad_gateway ctx f
  relayed f status body (ctx, none, none) = bad_gateway ctx f
  relayed f status body (ctx, some r, none) = record {
    reply = record { status = status; header = copy_header ctx.resp_header r.header; body = body };
    audited = body;
    forwarded = some f;
    published = none;
  }

  -- modifyResponse, and what the reverse proxy makes of its result.
  abbrev pub proxied : StepContext → Forwarded → Res (ℕ × Header × Res Str) → Served
  proxied ctx f (err e) = bad_gateway ctx f
  proxied ctx f (ok (status, header, err e)) = bad_gateway ctx f
  proxied ctx f (ok (status, header, ok body)) = relayed f status body (
      run_response_steps h.response_steps ctx
        (some (record { status_code = status; header = header; body = body })))

  -- proxy; the removal of hop-by-hop headers by the reverse proxy is not modelled.
  unfoldable pub proxy : Transport → Str → StepContext → Url → Served
  proxy transport host ctx target =
      let f : Forwarded = record {
        url = target;
        header = header_set (str "X-Forwarded-Host") host ctx.req_header;
        body = ctx.body;
      } in
      proxied ctx f (transport f)

  abbrev pub proxy_to : Transport → Str → StepContext → Option Url → Option Served
  proxy_to transport host ctx none = none
  proxy_to transport host ctx (some u) = some (proxy transport host ctx u)

  -- route, none where it dereferences a nil URL.
  unfoldable pub route : Transport → Str → StepContext → Route → Option Served
  route transport host ctx r =
      if str_eq r.target_type (str "url")
      then proxy_to transport host ctx r.url
      else if str_eq r.target_type (str "publisher")
      then some (publish_with ctx r h.publisher)
      else some (refuse ctx (plain (str "unknown route type: " ++ r.target_type)))

  abbrev pub dispatch : Transport → Str → StepContext → Option Route → Option Served
  dispatch transport host ctx none = some (answer_unrouted ctx)
  dispatch transport host ctx (some r) = route transport host ctx r

  -- ServeHTTP after the processing steps.
  unfoldable pub after_steps : Transport → Str → StepContext × Option GoErr → Option Served
  after_steps transport host (ctx, some e) = some (refuse ctx e)
  after_steps transport host (ctx, none) = dispatch transport host ctx ctx.route

  -- The headers that ServeHTTP adds for its instrumentation.
  unfoldable pub marked_header : Header → Header
  marked_header header =
      header_set (str "X-Role") (role_text h.role)
        (header_set (str "X-Module-Name") h.module_name header)

  -- subID
  unfoldable pub request_sub_id : Request → Str
  request_sub_id r = get_or r.subscriber h.subscriber_id

  -- stepCtx, over a body that was read.
  unfoldable pub step_ctx : Request → Str → StepContext
  step_ctx r body = record {
    context = record {
      version = some (extract_field codec (str "version") body);
      msg_id = some (extract_field codec (str "messageId") body);
    };
    method = r.method;
    req_url = r.url;
    req_header = marked_header r.header;
    body = body;
    route = none;
    sub_id = request_sub_id r;
    own_subscriber_id = h.subscriber_id;
    role = h.role;
    resp_header = [];
    protocol_version = extract_field codec (str "version") body;
    message_id = extract_field codec (str "messageId") body;
    inbound_auth_signature =
        extract_auth_signature (header_get auth_header_subscriber (marked_header r.header));
    is_caller_handler =
        is_caller (derive_direction h.role (extract_field codec (str "action") body));
    response_body = [];
  }

  -- `http.Error(w, "failed to read request body", 500)`
  abbrev unreadable : Served
  unreadable = record {
    reply = record {
      status = 500;
      header =
          (str "Content-Type", str "text/plain; charset=utf-8")
          ∷ (str "X-Content-Type-Options", str "nosniff")
          ∷ [];
      body = str "failed to read request body\n";
    };
    audited = [];
    forwarded = none;
    published = none;
  }

  abbrev pub serve_body : Transport → Request → Option Str → Option Served
  serve_body transport r none = some unreadable
  serve_body transport r (some body) =
      after_steps transport r.host (run_steps h.steps (step_ctx r body))

  -- ServeHTTP, without tracing, metrics and audit output.
  unfoldable pub serve_http : Transport → Request → Option Served
  serve_http transport r = serve_body transport r r.body
