-- ===== src/Steps/Other.antt =====
-- The steps for the schema, the route, the policy, the mediation and the payload store.
use network_adapter.Prelude.{◌&&◌, Option, none, some, [], if◌then◌else◌, is_empty, Str, str_eq}
use network_adapter.Text.{str, trim_prefix}
use network_adapter.Errors.{GoErr, plain, wrapped, new_bad_req_err}
use network_adapter.Result.{Res, ok, err}
use network_adapter.Model.{StepContext, Url, Route}
use network_adapter.Ports.{PayloadStore, Step}

-- stripBasePath of a URL that is not nil.
unfoldable pub strip_base_path : Url → Str → Url
strip_base_path u base_path = record u {
  path = trim_prefix (str "/") (trim_prefix base_path u.path);
}

-- definition.SchemaValidator, over the URL and the body; none where the body is valid.
abbrev pub SchemaValidator : Type 0
SchemaValidator = Url → Str → Option GoErr

abbrev schema_failed : Option GoErr → Option GoErr
schema_failed none = none
schema_failed (some e) = some (wrapped (str "schema validation failed: ") e)

-- (*validateSchemaStep).Run
unfoldable pub run_validate_schema : SchemaValidator → Str → Step
run_validate_schema validator base_path ctx =
    if is_empty ctx.body && str_eq ctx.method (str "POST")
    then (
      ctx,
      some (
          wrapped (str "schema validation failed: ")
            (new_bad_req_err [] (plain (str "POST request requires a body")))),
    )
    else (ctx, schema_failed (validator (strip_base_path ctx.req_url base_path) ctx.body))

-- definition.Router, over a URL that is not nil.
abbrev pub RouteFinder : Type 0
RouteFinder = Url → Str → Res Route

abbrev pub with_route : StepContext → Res Route → StepContext × Option GoErr
with_route ctx (err e) = (ctx, some (wrapped (str "failed to determine route: ") e))
with_route ctx (ok r) = (record ctx { route = some r }, none)

-- (*addRouteStep).Run
unfoldable pub run_add_route : RouteFinder → Str → Step
run_add_route router base_path ctx =
    with_route ctx (router (strip_base_path ctx.req_url base_path) ctx.body)

-- (*storePayloadStep).Run
unfoldable pub run_store_payload : PayloadStore → Step
run_store_payload store ctx = (ctx, store.store ctx)

-- The constructors of the steps that hold one plugin: the plugin, or the error for a nil one.
unfoldable pub configured {ℓ} : {A : Type ℓ} → Str → Option A → Res A
configured message none = err (plain message)
configured message (some p) = ok p
