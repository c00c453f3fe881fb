-- ===== src/Compiler/Specs.antt =====
-- crates/barbacane-compiler/src/spec_parser/model.rs and artifact.rs: parsed specifications
-- and compiled operations.
use barbacane.Common.{ℕ, String, Bool, List, Option, Dict}
use barbacane.Common.Json.{Value}

pub record ContentSchema : Type 0 where
  pub schema : Option Value

pub record ResponseContent : Type 0 where
  pub content : Dict ContentSchema

pub record Parameter : Type 0 where
  pub name : String
  pub location : String
  pub required : Bool
  pub schema : Option Value

pub record DispatchConfig : Type 0 where
  pub name : String
  pub config : Value

pub record MiddlewareConfig : Type 0 where
  pub name : String
  pub config : Value

pub record RequestBody : Type 0 where
  pub required : Bool
  pub content : Dict ContentSchema

pub record Message : Type 0 where
  pub name : String
  pub payload : Option Value
  pub content_type : Option String
  pub bindings : Dict Value

pub record Operation : Type 0 where
  pub path : String
  pub method : String
  pub operation_id : Option String
  pub summary : Option String
  pub description : Option String
  pub parameters : List Parameter
  pub request_body : Option RequestBody
  pub dispatch : Option DispatchConfig
  pub middlewares : Option (List MiddlewareConfig)
  pub deprecated : Bool
  pub sunset : Option String
  pub extensions : Dict Value
  pub messages : List Message
  pub bindings : Dict Value
  pub responses : Dict ResponseContent

pub data SpecFormat : Type 0 where
  open_api async_api : SpecFormat

pub record ApiSpec : Type 0 where
  pub filename : Option String
  pub spec_format : SpecFormat
  pub version : String
  pub title : String
  pub api_version : String
  pub operations : List Operation
  pub global_middlewares : List MiddlewareConfig
  pub extensions : Dict Value

pub record CompiledOperation : Type 0 where
  pub index : ℕ
  pub path : String
  pub method : String
  pub operation_id : Option String
  pub summary : Option String
  pub description : Option String
  pub parameters : List Parameter
  pub request_body : Option RequestBody
  pub dispatch : DispatchConfig
  pub middlewares : List MiddlewareConfig
  pub deprecated : Bool
  pub sunset : Option String
  pub messages : List Message
  pub bindings : Dict Value
  pub responses : Dict ResponseContent
  pub mcp_enabled : Option Bool
  pub mcp_description : Option String

pub record CompileWarning : Type 0 where
  pub warning_code : String
  pub message : String
  pub location : Option String

pub record McpConfig : Type 0 where
  pub enabled : Bool
  pub server_name : Option String
  pub server_version : Option String
