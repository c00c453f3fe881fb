-- ===== src/Compiler/Routes/Runs.antt =====
-- Runs of the compiler at concrete specifications.
use Prim.Native.Char.{Char, code}
use barbacane.Common.{lookup, to_uppercase}
use barbacane.Router.Path.{parse_path_template}
use barbacane.Router.Table.{template, methods_at}
use barbacane.Router.Trie.{new}
use barbacane.Compiler.Specs.{ApiSpec, CompiledOperation}
use barbacane.Compiler.Settings.{
  resolve_middlewares, resolve_mcp_config, extract_upstream_url, extract_root_mcp_config,
}
use barbacane.Compiler.Templates.{
  validate_path_template, scan, normalize_path_template, normalize_in,
}
use barbacane.Compiler.Operations.{CompileOptions, get_pair}
use barbacane.Compiler.Compile.{
  compile_routes, compile_specs, compile_operations, sort_operations, reindex,
}
use barbacane.Compiler.Routes.Distinct.{AllApart}
use barbacane.Compiler.Routes.Accepted.{compile_routes-AllApart}
use barbacane.Compiler.Routes.Segments.{fixed, one_param, rest_param}
use barbacane.Compiler.Routes.Registered.{Ready, entry_at, http_method, register}
use barbacane.Compiler.Routes.Artifact.{compile_routes-register}
use barbacane.Compiler.Routes.Collisions.{get_of, spec_of, accepted, colliding_paths_accepted}
use barbacane.Common.{
  ◌≡◌, refl, Bool, false, ◌||◌, ◌&&◌, leb, String, List, [], ◌∷◌, some, length, All, ℕ, split,
}
use barbacane.Common.Json.{get_field}
use barbacane.Common.Results.{ok}

abbrev ascii : Char → Bool
ascii c =
    (leb b'0' (code c) && leb (code c) b'9')
    || (leb b'A' (code c) && leb (code c) b'Z')
    || (leb b'a' (code c) && leb (code c) b'z')

abbrev strict : CompileOptions
strict = record { allow_plaintext = false; max_schema_depth = 32; max_schema_properties = 256 }

abbrev api : List ApiSpec
api = spec_of (get_of "/users/{id}" ∷ get_of "/users" ∷ get_of "/files/{path+}" ∷ []) ∷ []

abbrev at : String → ℕ → CompiledOperation
at path index = accepted ascii strict path index

abbrev routes : List CompiledOperation
routes = at "/files/{path+}" 0 ∷ at "/users" 1 ∷ at "/users/{id}" 2 ∷ []

compiles : compile_routes ascii api [] strict ≡ ok routes
unfolding compile_routes compile_specs compile_operations get_pair validate_path_template scan
    normalize_path_template normalize_in resolve_middlewares resolve_mcp_config extract_upstream_url
    extract_root_mcp_config sort_operations reindex lookup get_field split
compiles = refl

compile_routes-AllApart_example : AllApart routes
compile_routes-AllApart_example = compile_routes-AllApart ascii api [] strict routes compiles

checked_routes : All Ready routes
unfolding parse_path_template split to_uppercase
checked_routes = (files, (users, (user_by_id, tt)))
  where
    get_is_http : (to_uppercase "GET" ≡ "GET") × (http_method "GET" ≡ "GET")
    get_is_http = (refl, refl)

    files : Ready (at "/files/{path+}" 0)
    files = ((refl, (fixed "files" refl, (rest_param "path" refl refl, tt))), get_is_http)

    users : Ready (at "/users" 1)
    users = ((refl, (fixed "users" refl, tt)), get_is_http)

    user_by_id : Ready (at "/users/{id}" 2)
    user_by_id = ((refl, (fixed "users" refl, (one_param "id" refl refl, tt))), get_is_http)

compile_routes-register_example :
    entry_at (at "/users" 1) (register routes new) ≡ some (record { operation_index = 1 })
compile_routes-register_example =
    compile_routes-register ascii api [] strict routes new 1 (at "/users" 1) compiles checked_routes
      refl

colliding_paths_accepted_example :
    (ops : List CompiledOperation) × (compile_routes ascii
        (spec_of (get_of "/a" ∷ get_of "/a/" ∷ []) ∷ [])
        []
        strict
      ≡ ok ops)
    × (length ops ≡ 2)
    × (length (methods_at (template "/a") (register ops new).root) ≡ 1)
unfolding split
colliding_paths_accepted_example =
    colliding_paths_accepted ascii strict "/a" "/a/" refl refl refl refl
