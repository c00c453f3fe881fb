-- ===== src/Lib.antt =====
-- The verification library of Barbacane, an API gateway that compiles OpenAPI specifications and
-- runs WASM plugins as middlewares.
--
-- The compiler reads specifications, resolves their references and checks them, and gives the
-- operations of an artifact, which the gateway registers in the router. A request is checked against
-- the limits, matched by the router, validated, goes through the on_request handlers of an operation's
-- middlewares, is dispatched, and the response goes back through the on_response handlers. Plugins
-- share a rate limiter, a response cache and the circuit breakers of upstreams, which the host
-- keeps.
--
--   Router           crates/barbacane/src/router/trie.rs. `Path` has the templates and
--                    `normalize_path`, `Trie` the nodes, `insert` and `lookup`.
--   CircuitBreaker   crates/barbacane-wasm/src/circuit_breaker.rs. One step for each method.
--   RateLimiter      crates/barbacane-wasm/src/rate_limiter.rs. `check`, `check_and_record` and
--                    `maybe_cleanup`.
--   ResponseCache    crates/barbacane-wasm/src/cache.rs. `get`, `set`, `invalidate`, `clear`.
--   Chain            crates/barbacane-wasm/src/chain.rs, trap.rs, error.rs, body_access.rs and the
--                    part of instance.rs that they call.
--   Gateway          crates/barbacane/src/main.rs. The loops `execute_middleware_on_request` and
--                    `execute_middleware_on_response`, which use Chain (`Requests` and its
--                    siblings), `build_response_from_plugin` with the http crate as the record
--                    `Http` (`Replies`), `handle_request` up to the dispatch of an operation
--                    (`Incoming` and `Serving`), and the registration of routes by `load`, which
--                    use Router, Validator and Compiler.
--   Compiler         crates/barbacane-compiler/src/. `Parser` is `parse_spec` of
--                    spec_parser/parser.rs for OpenAPI and AsyncAPI, from the value that the YAML
--                    is read as; `Refs` is its `resolve_schema_refs`; `Specs` has the types of
--                    spec_parser/model.rs and artifact.rs. `Templates`, `Schemas`, `Settings`,
--                    `Operations` and `Compile` are the checks of `compile_inner` in artifact.rs
--                    up to the sorted operations, here `compile_routes`, with `Errors` for
--                    error.rs. `Routes` relates the operations to what the router registers.
--   Validator        crates/barbacane/src/validator.rs. The limits, `percent_decode`, the parameters
--                    of a path, query and headers, and bodies.
--   Mcp              crates/barbacane/src/mcp/. The session store of session.rs (`Sessions`), the
--                    tools of tools.rs (`Tools`) with `decompose_arguments` (`Arguments`), and the
--                    server of mod.rs and jsonrpc.rs (`Server`); `Endpoint` is
--                    `handle_mcp_endpoint` of main.rs up to the dispatch of a tool's operation.
--   Secrets          crates/barbacane-wasm/src/secrets.rs. References in configurations, their
--                    resolution from a `Host` (environment and files), and scoped stores.
--   Plugins          crates/barbacane-plugin-sdk/src/types.rs and errors.rs (`Sdk`), and
--                    plugins/acl/src/lib.rs (`Acl`) and plugins/ip-restriction/src/lib.rs
--                    (`IpRestriction`), which parses addresses by the record `Parser`.
--   Capabilities     crates/barbacane-wasm/src/manifest.rs and validate.rs. A plugin's manifest, and the
--                    check of its module's exports and imports.
--   Common           Boolean tests, lists, texts, association lists, the clocks, and the values of
--                    serde_json (`Json`).
--
-- Numbers are natural numbers. A `u32` or `u64` that can wrap has its modulus written out; an `i32`
-- return code, which is only compared with 0, and a JSON-RPC error code are given by their bits. An `Instant` and a `Duration`
-- are numbers of nanoseconds, and the clocks are arguments: an operation that reads a clock, or
-- tries a lock, is given a record of what it reads. A `HashMap` is an association list, whose order
-- stands for the iteration order that Rust leaves open. Texts are lists of characters, and
-- `to_uppercase` and `to_lowercase` are those of ASCII, which methods and header names are in.
-- Loops are structural recursion, so that every function is total, but for the resolution of
-- references, which recurses on fuel: none stands for no answer, and as much fuel as references
-- stand in the value and in the root is enough. A mutable borrow that the code changes later, as
-- the node that `traverse_or_create` returns, is a function that is applied there.
--
-- The guest inside wasmtime, serde_json and the messages that thiserror derives are the parameter
-- `Runtime` of Chain. Elsewhere what is not under crates/ or plugins/ is a parameter of the
-- definitions that use it: serde_yaml, serde_json's reading of a request and writing of a value,
-- toml, regex_lite and semver, jsonschema, the UTF-8 coding of texts, `char::is_alphanumeric`, the
-- derived `Debug` texts that errors are sorted by, and the reading of a body under a limit. A JSON
-- number is its text, and an object is the list of its fields. Logs are left out; of a metric its
-- measured time is. A file named Runs holds tests and the theorems at concrete inputs.
--
-- Not modelled: the compiler's manifests, archives, signatures and the verification of an artifact;
-- the dispatch of an operation, the instance pool and the host functions behind the WASM engine,
-- which call foreign code throughout; the HTTP server around `handle_request` and the endpoints that
-- it serves itself; the control plane; and the plugins other than the two above.
pub mod Common
pub mod Router
pub mod CircuitBreaker
pub mod RateLimiter
pub mod ResponseCache
pub mod Chain
pub mod Gateway
pub mod Plugins
pub mod Secrets
pub mod Compiler
pub mod Validator
pub mod Mcp
pub mod Capabilities
