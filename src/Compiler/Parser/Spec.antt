-- ===== src/Compiler/Parser/Spec.antt =====
-- crates/barbacane-compiler/src/spec_parser/parser.rs: `parse_spec`, from the value that the YAML text is
-- read as.
use barbacane.Common.{String, List, Option, none, some, unwrap_or}
use barbacane.Common.Json.{Value, Fields, get_str}
use barbacane.Common.Results.{Result, ok, err}
use barbacane.Compiler.Refs.{parse_error, schema_error}
use barbacane.Compiler.Specs.{ApiSpec, Operation, SpecFormat, open_api, async_api}
use barbacane.Compiler.Parser.{
  Parsed, parse_then, as_object_if, get_object, detect_format, extract_extensions,
  extract_middlewares,
}
use barbacane.Compiler.Parser.OpenApi.{parse_openapi_paths}
use barbacane.Compiler.Parser.AsyncApi.{parse_asyncapi_channels}

abbrev pub title_of : Option String → Parsed String
title_of none = err (schema_error "missing 'info.title'")
title_of (some title) = ok title

abbrev pub info_of : Option Fields → Parsed Fields
info_of none = err (schema_error "missing 'info' object")
info_of (some info) = ok info

abbrev pub root_of : Option Fields → Parsed Fields
root_of none = err (parse_error "spec root must be an object")
root_of (some root) = ok root

abbrev pub parse_operations : SpecFormat → Fields → Value → Parsed (List Operation)
parse_operations open_api root_obj root = parse_openapi_paths root root_obj
parse_operations async_api root_obj root = parse_asyncapi_channels root root_obj

unfoldable pub parse_root : Value → Parsed ApiSpec
parse_root root = parse_then (root_of (as_object_if (some root))) (λ root_obj.
    parse_then (detect_format root_obj) (λ detected.
      parse_then (info_of (get_object "info" root_obj)) (λ info.
        parse_then (title_of (get_str "title" info)) (λ title.
          parse_then (parse_operations detected.0 root_obj root) (λ operations. ok (record {
            filename = none;
            spec_format = detected.0;
            version = detected.1;
            title = title;
            api_version = unwrap_or (get_str "version" info) "0.0.0";
            operations = operations;
            global_middlewares = extract_middlewares root_obj;
            extensions = extract_extensions root_obj;
          }))))))

-- `serde_yaml::from_str`, with the text of its error.
abbrev pub parse_spec : (String → Result Value String) → String → Parsed ApiSpec
parse_spec from_str input = of_yaml (from_str input)
  where
    of_yaml : Result Value String → Parsed ApiSpec
    of_yaml (err e) = err (parse_error e)
    of_yaml (ok root) = parse_root root
