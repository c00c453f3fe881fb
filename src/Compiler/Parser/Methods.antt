-- ===== src/Compiler/Parser/Methods.antt =====
-- crates/barbacane-compiler/src/spec_parser/parser.rs: every method of a parsed specification is in upper
-- case.
use Prim.Native.String.{[]}
use barbacane.Common.{
  String, ◌≡◌, refl, subst, List, [], ◌∷◌, ◌++◌, Option, none, some, All, All-append, Dict,
  to_uppercase, str_eq, Bool-cases, inl, inr,
}
use barbacane.Common.Uppercase.{to_uppercase-to_uppercase}
use barbacane.Common.Json.{Value, Fields, no_field, field, get_field, get_str}
use barbacane.Common.Results.{ok, err}
use barbacane.Compiler.Specs.{ApiSpec, Operation, Parameter, SpecFormat, open_api, async_api}
use barbacane.Compiler.Parser.{Parsed, parse_then, as_object_if, get_object, detect_format}
use barbacane.Compiler.Parser.Contents.{parse_parameters, parse_request_body, parse_responses}
use barbacane.Compiler.Parser.OpenApi.{
  object_or, http_methods, parse_operation, parse_method, parse_methods, parse_additional,
  parse_additional_if, parse_path, parse_paths, paths_in,
}
use barbacane.Compiler.Parser.AsyncApi.{
  ChannelInfo, action_method, parse_async_operation, parse_async_operations, async_operations_in,
  resolve_channel_ref, parse_operation_messages, build_channel_lookup,
}
use barbacane.Compiler.Parser.Spec.{parse_root, root_of, info_of, title_of, parse_operations}

-- A property of what is parsed, if nothing is refused.
abbrev IfParsed : {A : Type 0} → (A → Type 0) → Parsed A → Type 0
IfParsed P (ok a) = P a
IfParsed P (err e) = Unit

IfParsed-object :
    {B : Type 0} (Q : B → Type 0) (message : List String) (o : Option Fields)
    (go : Fields → Parsed B)
    → ((fs : Fields) → IfParsed Q (go fs))
    → IfParsed Q (object_or message o go)
IfParsed-object Q message none go k = tt
IfParsed-object Q message (some fs) go k = k fs

module _ {A B : Type 0} (Q : B → Type 0) where
  IfParsed-then :
      (P : A → Type 0) (r : Parsed A) (go : A → Parsed B)
      → IfParsed P r
      → ((a : A) → P a → IfParsed Q (go a))
      → IfParsed Q (parse_then r go)
  IfParsed-then P (err e) go h k = tt
  IfParsed-then P (ok a) go h k = k a h

  IfParsed-any :
      (r : Parsed A) (go : A → Parsed B)
      → ((a : A) → IfParsed Q (go a))
      → IfParsed Q (parse_then r go)
  IfParsed-any (err e) go k = tt
  IfParsed-any (ok a) go k = k a

abbrev pub IsUpper : Operation → Type 0
IsUpper op = to_uppercase op.method ≡ op.method

abbrev Uppers : List Operation → Type 0
Uppers = All IsUpper

abbrev path_message : String → List String
path_message path = "path item for '" ∷ path ∷ "' must be an object" ∷ []

abbrev additional_message : String → String → List String
additional_message path m = "additionalOperations." ∷ m ∷ " on " ∷ path ∷ " must be an object" ∷ []

abbrev async_message : String → List String
async_message op_id = "operation '" ∷ op_id ∷ "' must be an object" ∷ []

module _ (root : Value) where
  parse_operation-IsUpper :
      (path method : String) (params : List Parameter) (op_obj : Fields)
      → to_uppercase method ≡ method
      → IfParsed IsUpper (parse_operation root path params method op_obj)
  parse_operation-IsUpper path method params op_obj h =
      IfParsed-any IsUpper (parse_parameters root op_obj) _ λ own.
        IfParsed-any IsUpper (parse_request_body root op_obj) _
          λ body. IfParsed-any IsUpper (parse_responses root op_obj) _ λ responses. h

  parse_method-IsUpper :
      (path method : String) (params : List Parameter) (o : Option Value)
      → IfParsed Uppers (parse_method root path params method o)
  parse_method-IsUpper path method params none = tt
  parse_method-IsUpper path method params (some v) =
      IfParsed-object Uppers
        ("operation " ∷ to_uppercase method ∷ " " ∷ path ∷ " must be an object" ∷ [])
        (as_object_if (some v)) _
        λ op_obj.
          IfParsed-then Uppers IsUpper
            (parse_operation root path params (to_uppercase method) op_obj) (λ op. ok (op ∷ []))
            (parse_operation-IsUpper path (to_uppercase method) params op_obj
              (to_uppercase-to_uppercase method))
            (λ op h. (h, tt))

  both : (first rest : List Operation) → Uppers first → Uppers rest → Uppers (first ++ rest)
  both first rest h g = All-append IsUpper first rest h g

  parse_methods-IsUpper :
      (path : String) (params : List Parameter) (path_obj : Fields) (methods : List String)
      → IfParsed Uppers (parse_methods root path params path_obj methods)
  unfolding parse_methods
  parse_methods-IsUpper path params path_obj [] = tt
  parse_methods-IsUpper path params path_obj (m ∷ ms) =
      IfParsed-then Uppers Uppers (parse_method root path params m (get_field m path_obj)) _
        (parse_method-IsUpper path m params (get_field m path_obj))
        λ first h.
          IfParsed-then Uppers Uppers (parse_methods root path params path_obj ms) _
            (parse_methods-IsUpper path params path_obj ms) λ rest g. both first rest h g

  parse_additional-IsUpper :
      (path : String) (params : List Parameter) (fs : Fields)
      → IfParsed Uppers (parse_additional root path params fs)
  unfolding parse_additional
  parse_additional-IsUpper path params no_field = tt
  parse_additional-IsUpper path params (field m v fs) =
      IfParsed-then Uppers IsUpper
        (object_or (additional_message path m) (as_object_if (some v))
          (parse_operation root path params (to_uppercase m)))
        (λ first. parse_then (parse_additional root path params fs) (λ rest. ok (first ∷ rest)))
        (IfParsed-object IsUpper (additional_message path m) (as_object_if (some v))
          (parse_operation root path params (to_uppercase m))
          λ op_obj.
            parse_operation-IsUpper path (to_uppercase m) params op_obj
              (to_uppercase-to_uppercase m))
        λ first h.
          IfParsed-then Uppers Uppers (parse_additional root path params fs)
            (λ rest. ok (first ∷ rest)) (parse_additional-IsUpper path params fs) λ rest g. (h, g)

  parse_additional_if-IsUpper :
      (path : String) (params : List Parameter) (o : Option Fields)
      → IfParsed Uppers (parse_additional_if root path params o)
  parse_additional_if-IsUpper path params none = tt
  parse_additional_if-IsUpper path params (some fs) = parse_additional-IsUpper path params fs

  parse_path-IsUpper :
      (path : String) (path_obj : Fields) → IfParsed Uppers (parse_path root path path_obj)
  parse_path-IsUpper path path_obj =
      IfParsed-any Uppers (parse_parameters root path_obj) _ λ params.
        IfParsed-then Uppers Uppers (parse_methods root path params path_obj http_methods) _
          (parse_methods-IsUpper path params path_obj http_methods)
          λ known h.
            IfParsed-then Uppers Uppers
              (parse_additional_if root path params (get_object "additionalOperations" path_obj)) _
              (parse_additional_if-IsUpper path params (get_object "additionalOperations" path_obj))
              λ additional g. both known additional h g

  parse_paths-IsUpper : (fs : Fields) → IfParsed Uppers (parse_paths root fs)
  unfolding parse_paths
  parse_paths-IsUpper no_field = tt
  parse_paths-IsUpper (field path v fs) =
      IfParsed-then Uppers Uppers
        (object_or (path_message path) (as_object_if (some v)) (parse_path root path))
        (λ first. parse_then (parse_paths root fs) (λ rest. ok (first ++ rest)))
        (IfParsed-object Uppers (path_message path) (as_object_if (some v)) (parse_path root path)
          (parse_path-IsUpper path))
        λ first h.
          IfParsed-then Uppers Uppers (parse_paths root fs) (λ rest. ok (first ++ rest))
            (parse_paths-IsUpper fs) λ rest g. both first rest h g

  action_method-IsUpper :
      (op_id : String) (o : Option String)
      → IfParsed (λ method. to_uppercase method ≡ method) (action_method root op_id o)
  unfolding to_uppercase
  action_method-IsUpper op_id none = tt
  action_method-IsUpper op_id (some action) = elim (Bool-cases (str_eq action "send")) [
    | inl e ↦ rw e refl
    | inr e ↦ elim (Bool-cases (str_eq action "receive")) [
      | inl f ↦ rw (e, f) refl
      | inr f ↦ rw (e, f) tt
    ]
  ]

  parse_async_operation-IsUpper :
      (channels : Dict ChannelInfo) (op_id : String) (op_obj : Fields)
      → IfParsed IsUpper (parse_async_operation root channels op_id op_obj)
  parse_async_operation-IsUpper channels op_id op_obj =
      IfParsed-then IsUpper _ (action_method root op_id (get_str "action" op_obj)) _
        (action_method-IsUpper op_id (get_str "action" op_obj))
        λ method h. IfParsed-any IsUpper (resolve_channel_ref root op_obj channels) _ λ channel.
          IfParsed-any IsUpper (parse_operation_messages root op_obj channel.messages) _
            λ messages. h

  parse_async_operations-IsUpper :
      (channels : Dict ChannelInfo) (fs : Fields)
      → IfParsed Uppers (parse_async_operations root channels fs)
  unfolding parse_async_operations
  parse_async_operations-IsUpper channels no_field = tt
  parse_async_operations-IsUpper channels (field op_id v fs) =
      IfParsed-then Uppers IsUpper
        (object_or (async_message op_id) (as_object_if (some v))
          (parse_async_operation root channels op_id))
        (λ first. parse_then (parse_async_operations root channels fs) (λ rest. ok (first ∷ rest)))
        (IfParsed-object IsUpper (async_message op_id) (as_object_if (some v))
          (parse_async_operation root channels op_id)
          (parse_async_operation-IsUpper channels op_id))
        λ first h.
          IfParsed-then Uppers Uppers (parse_async_operations root channels fs)
            (λ rest. ok (first ∷ rest)) (parse_async_operations-IsUpper channels fs)
            λ rest g. (h, g)

  parse_operations-IsUpper :
      (format : SpecFormat) (root_obj : Fields)
      → IfParsed Uppers (parse_operations format root_obj root)
  parse_operations-IsUpper open_api root_obj = paths (get_object "paths" root_obj)
    where
      paths : (o : Option Fields) → IfParsed Uppers (paths_in root o)
      paths none = tt
      paths (some fs) = parse_paths-IsUpper fs
  parse_operations-IsUpper async_api root_obj = operations (get_object "operations" root_obj)
    where
      operations :
          (o : Option Fields)
          → IfParsed Uppers (async_operations_in root (get_object "channels" root_obj) o)
      operations none = tt
      operations (some fs) =
          IfParsed-any Uppers (build_channel_lookup root (get_object "channels" root_obj)) _
            λ channels. parse_async_operations-IsUpper channels fs

abbrev SpecUpper : ApiSpec → Type 0
SpecUpper spec = All IsUpper spec.operations

parse_root-SpecUpper : (root : Value) → IfParsed SpecUpper (parse_root root)
unfolding parse_root
parse_root-SpecUpper root =
    IfParsed-any SpecUpper (root_of (as_object_if (some root))) _ λ root_obj.
      IfParsed-any SpecUpper (detect_format root_obj) _ λ detected.
        IfParsed-any SpecUpper (info_of (get_object "info" root_obj)) _ λ info.
          IfParsed-any SpecUpper (title_of (get_str "title" info)) _ λ title.
            IfParsed-then SpecUpper Uppers (parse_operations detected.0 root_obj root) _
              (parse_operations-IsUpper root detected.0 root_obj) λ ops h. h

-- Every operation that is parsed, from an OpenAPI or an AsyncAPI document, has its method in upper
-- case, which is how the router keeps it.
pub parse_root-IsUpper :
    (root : Value) (spec : ApiSpec) → parse_root root ≡ ok spec → All IsUpper spec.operations
parse_root-IsUpper root spec e = subst (IfParsed SpecUpper) e (parse_root-SpecUpper root)
