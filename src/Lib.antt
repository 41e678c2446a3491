-- ===== src/Lib.antt =====
-- Verification of the network adapter: a Beckn protocol adapter whose modules receive a request,
-- run it through a list of steps, and answer it, publish it or send it on.
--
-- How the parts fit together. The handler of a module (core/module/handler/stdHandler.go) reads a
-- body, builds a step context and runs the configured steps (step.go): signing, checking a
-- signature, checking a schema, choosing a route. The first error ends the run and is answered with
-- a NACK. Otherwise the handler answers itself, publishes the message, or proxies the request to
-- the URL of the route; response steps (responsestep.go) sign the answer or check that of the
-- upstream. The route comes from the table of the router plugin, and the error of a step decides
-- the status and the body of the NACK (pkg/model/error.go). Beside the request path, the catalog
-- crawler keeps a work queue and the state of each catalog in SQL tables. A provider step
-- (pkg/plugin/implementation/internal/common) is a step of the pipeline that recognises the binding
-- a payload names, looks up its call plan, and answers the request by calling the provider, or sends
-- the request on to another network. A pipeline of the catalog publisher
-- (pkg/plugin/implementation/catalogpublisher/pipeline) collects records step by step, groups and
-- splits them into catalogs, writes these to a directory, and publishes the catalogs that it finds
-- there.
--
-- Files and the code that each is about:
--   Prelude, Text, Json, Result: shared names; Go strings as lists of code points, and the
--     functions of the package strings that the code calls; decoded JSON; results.
--   Errors: pkg/model/error.go. Every dynamic type of an error is a constructor of GoErr.
--   Version, Model: pkg/model/model.go. StepContext is the record of the same name; the functions
--     keep their names in snake case.
--   Router: pkg/plugin/implementation/router/router.go. Load is New, loadRules and validateRules;
--     Choose is Route, routeBodyless and handleProtocolMapping. Table, Invariant, Loaded and Chosen
--     hold the theorems.
--   Auth: the composing and the parsing of the two signature headers, of step.go and
--     responsestep.go.
--   Ports: the interfaces of pkg/plugin/definition that core calls, as records of functions.
--   Response: core/module/handler/responsestep.go.
--   Steps: core/module/handler/step.go. Verified, Same, Laws and Handshake hold the theorems.
--   Handler: core/module/handler/stdHandler.go and the step wrapper of step_instrumentor.go. Serve
--     is the code; Stable, Answered, Signed, Outcome, Leak and Mismatch hold the theorems.
--   Crawl: pkg/plugin/implementation/catalogcrawler/internal/store. Queue is queue.go, Cursor is
--     cursor.go with Complete; a table is the list of its rows, and a SQL statement one atomic
--     step with its own clock: the two updates of a sweep are two steps. Claim and Reachable hold
--     the sequences of statements.
--   Provider: pkg/plugin/implementation/internal/common. Paths is paths.go, Binding is binding.go
--     with bindingFor, Retry is util/retry.go, Call is http.go, Serve is serve and hosts.go, Run is
--     Run and routeElsewhere; Reaches, Bound, Budget, Tried and Lawful hold the theorems.
--   Pipeline: pkg/plugin/implementation/catalogpublisher/pipeline. Spec is spec.go; Expand and
--     Context are expressions.go. Of interpreter.go, Calls, Rows, Primitives and Interpreter are the
--     stepRunner, Value and Order its helpers, and Rule, Retirement and Publish are PublishCatalogs.
--     Of run.go, Catalog, Render, Build and Files are the building and the writing of catalogs;
--     Files is also catalogFiles, and Path is the filepath.Join of WriteCatalogs. Fault holds the
--     errors. Chunked, Grouped, Accounted, Named, Written, Retired, Deduped, Joined and Reauth hold
--     the theorems.
--   Base64: base64.StdEncoding of the package encoding/base64, and that decoding undoes encoding.
--   Signature: pkg/plugin/implementation/signer/signer.go. Header is parseAuthHeader and Validate
--     the rest of pkg/plugin/implementation/signvalidator/signvalidator.go; Parts and ReadBack are
--     about reading a header back, Accepted and Handshake about what the validator accepts.
--   Tests: the theorems at concrete inputs.
--
-- State. Stateful code takes the state and returns the new one: a step takes a StepContext and
-- returns the new context with an error or none; a statement takes the rows and returns the rows. A
-- nil dereference is the result none. All loops are structural, over the steps, the rules, the
-- rows, a path or a text, or count down the attempts that are left, so no fuel is needed. Numbers
-- are natural numbers; the code modelled here does not subtract below 0. A time.Duration is kept
-- modulo 2 ^ 64, and the integers that strconv.Atoi and ParseInt read keep their sign and their
-- 64-bit range check.
--
-- Parameters. Code that is not in this repository is an argument: BLAKE2b and Ed25519, with the
-- hypothesis that a signature verifies under its own key (IsSound), the texts of dates and quoted
-- strings; and, where the plugins are behind an interface, signing and verifying, the key manager,
-- the payload store, the mapper, the registry, the credentials and the envelopes of the provider
-- step, encoding/json (Codec), net/url's Parse, the YAML decoder, the clock, the transport of the
-- proxy, the ids that the database generates, and the rows that other transactions lock. For the
-- pipelines: JSONata, the texts of %q and %v, json.Marshal, json.Indent and json.Unmarshal, the
-- numbers of float64 by their decimal form, strings.ToLower, the resolving of a reference, the
-- mapper (Engine); the upstream, its credentials and ctx.Err, whose answers depend on how much was
-- asked before (Upstream); the errors of the file system (Disk); and the publisher (Publisher).
--
-- Not modelled: tracing, metrics, logs and audit output, which change no result; plugin loading;
-- the hop-by-hop headers of the reverse proxy; failing writes to the client and failing databases,
-- but for violated constraints; of a pipeline, the run around its steps, the fetching and the
-- checking of its file, its HTTP client and its schedule, and an uuid or a time that differs between
-- two uses in one expression; a nil slice of records is an empty one. A sort of Go's package sort is
-- an insertion sort, which gives the same order for a strict weak order; the iteration order of Go
-- maps, for which every order of the list stands.
pub mod Prelude
pub mod Text
pub mod Errors
pub mod Json
pub mod Result
pub mod Version
pub mod Model
pub mod Router
pub mod Auth
pub mod Base64
pub mod Signature
pub mod Ports
pub mod Response
pub mod Steps
pub mod Handler
pub mod Crawl
pub mod Pipeline
pub mod Provider
pub mod Tests
