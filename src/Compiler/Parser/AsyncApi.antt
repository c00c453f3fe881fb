-- ===== src/Compiler/Parser/AsyncApi.antt =====
-- crates/barbacane-compiler/src/spec_parser/parser.rs: the channels and operations of an AsyncAPI
-- document.
use Prim.Native.String.{[]}
use barbacane.Common.{
  String, true, false, ◌&&◌, if◌then◌else◌, List, [], ◌∷◌, ◌++◌, Option, none, some, Dict, insert,
  lookup, get_elem?, length, leb, split, str_eq, unwrap_or,
}
use barbacane.Common.Json.{
  Value, object, Values, no_value, value, Fields, no_field, field, get_field, get_str, strip_prefix,
}
use barbacane.Common.Results.{ok, err}
use barbacane.Compiler.Refs.{schema_error}
use barbacane.Compiler.Errors.{format}
use barbacane.Compiler.Specs.{Parameter, Operation, RequestBody, Message}
use barbacane.Compiler.Parser.{
  Parsed, parse_then, as_object_if, get_object, get_array, get_bool, entries_if, resolve_if,
  extract_extensions, extract_dispatch,
}
use barbacane.Compiler.Parser.Contents.{schema_of}
use barbacane.Compiler.Parser.OpenApi.{own_middlewares, object_or}

pub record ChannelInfo : Type 0 where
  pub address : String
  pub messages : List Message
  pub parameters : List Parameter
  pub bindings : Dict Value

module _ (spec_root : Value) where
  abbrev pub message_of : String → Fields → Parsed (List Message)
  message_of name msg_obj =
      parse_then (resolve_if spec_root (get_field "payload" msg_obj)) (λ payload. ok (
        record {
          name = name;
          payload = payload;
          content_type = get_str "contentType" msg_obj;
          bindings = entries_if (get_object "bindings" msg_obj);
        }
        ∷ []))

  abbrev pub message_if : String → Option Fields → Parsed (List Message)
  message_if name none = ok []
  message_if name (some msg_obj) = message_of name msg_obj

  unfoldable pub channel_messages : Fields → Parsed (List Message)
  channel_messages no_field = ok []
  channel_messages (field name msg_value fs) =
      parse_then (message_if name (as_object_if (some msg_value)))
        (λ first. parse_then (channel_messages fs) (λ rest. ok (first ++ rest)))

  abbrev pub channel_messages_in : Option Fields → Parsed (List Message)
  channel_messages_in none = ok []
  channel_messages_in (some messages_obj) = channel_messages messages_obj

  abbrev pub parse_channel_messages : Fields → Parsed (List Message)
  parse_channel_messages channel = channel_messages_in (get_object "messages" channel)

  unfoldable pub channel_parameters : Fields → Parsed (List Parameter)
  channel_parameters no_field = ok []
  channel_parameters (field name param_value fs) =
      parse_then (resolve_if spec_root (schema_of (as_object_if (some param_value)))) (λ schema.
        parse_then (channel_parameters fs) (λ rest.
          ok (record { name = name; location = "path"; required = true; schema = schema } ∷ rest)))

  abbrev pub channel_parameters_in : Option Fields → Parsed (List Parameter)
  channel_parameters_in none = ok []
  channel_parameters_in (some params) = channel_parameters params

  abbrev pub parse_channel_parameters : Fields → Parsed (List Parameter)
  parse_channel_parameters channel = channel_parameters_in (get_object "parameters" channel)

  abbrev pub parse_channel : String → Fields → Parsed ChannelInfo
  parse_channel default_address channel_obj =
      parse_then (parse_channel_messages channel_obj) (λ messages.
        parse_then (parse_channel_parameters channel_obj) (λ parameters. ok (record {
          address = unwrap_or (get_str "address" channel_obj) default_address;
          messages = messages;
          parameters = parameters;
          bindings = entries_if (get_object "bindings" channel_obj);
        })))

  abbrev pub channel_if : String → Option Fields → Parsed (Dict ChannelInfo)
  channel_if name none = ok []
  channel_if name (some channel_obj) =
      parse_then (parse_channel name channel_obj) (λ info. ok ((name, info) ∷ []))

  unfoldable pub channels_of : Fields → Parsed (Dict ChannelInfo)
  channels_of no_field = ok []
  channels_of (field name channel_value fs) =
      parse_then (channel_if name (as_object_if (some channel_value)))
        (λ first. parse_then (channels_of fs) (λ rest. ok (first ++ rest)))

  abbrev pub build_channel_lookup : Option Fields → Parsed (Dict ChannelInfo)
  build_channel_lookup none = ok []
  build_channel_lookup (some channels) = channels_of channels

  abbrev pub defined_channel : String → Option ChannelInfo → Parsed ChannelInfo
  defined_channel channel_name none =
      err (schema_error (format ("channel '" ∷ channel_name ∷ "' referenced but not defined" ∷ [])))
  defined_channel channel_name (some info) = ok info

  abbrev pub referenced_channel : Dict ChannelInfo → String → Option String → Parsed ChannelInfo
  referenced_channel channel_lookup ref_str none = err (
      schema_error
        (format ("invalid channel $ref '" ∷ ref_str ∷ "' (expected #/channels/...)" ∷ [])))
  referenced_channel channel_lookup ref_str (some channel_name) =
      defined_channel channel_name (lookup channel_name channel_lookup)

  abbrev pub channel_ref_or : Dict ChannelInfo → Fields → Option String → Parsed ChannelInfo
  channel_ref_or channel_lookup channel_obj (some ref_str) =
      referenced_channel channel_lookup ref_str (strip_prefix "#/channels/" ref_str)
  channel_ref_or channel_lookup channel_obj none = parse_channel "" channel_obj

  abbrev pub channel_at : Dict ChannelInfo → Option Value → Parsed ChannelInfo
  channel_at channel_lookup none = err (schema_error "operation missing 'channel' field")
  channel_at channel_lookup (some (object channel_obj)) =
      channel_ref_or channel_lookup channel_obj (get_str "$ref" channel_obj)
  channel_at channel_lookup (some _) =
      err (schema_error "operation 'channel' must be an object (either $ref or inline)")

  abbrev pub resolve_channel_ref : Fields → Dict ChannelInfo → Parsed ChannelInfo
  resolve_channel_ref op channel_lookup = channel_at channel_lookup (get_field "channel" op)

  abbrev pub find_message : String → List Message → List Message
  find_message name [] = []
  find_message name (m ∷ ms) = if str_eq m.name name then m ∷ [] else find_message name ms

  -- "#/channels/channelName/messages/messageName"
  abbrev pub referenced_message : List String → List Message → List Message
  referenced_message parts messages =
      if leb 5 (length parts) && str_eq (unwrap_or (get_elem? parts 3) "") "messages"
      then find_message (unwrap_or (get_elem? parts 4) "") messages
      else []

  abbrev pub message_ref_or : List Message → Fields → Option String → Parsed (List Message)
  message_ref_or messages obj (some ref_str) = ok (referenced_message (split b'/' ref_str) messages)
  message_ref_or messages obj none = message_of (unwrap_or (get_str "name" obj) "default") obj

  abbrev pub operation_message : List Message → Option Fields → Parsed (List Message)
  operation_message messages none = ok []
  operation_message messages (some obj) = message_ref_or messages obj (get_str "$ref" obj)

  unfoldable pub operation_messages : List Message → Values → Parsed (List Message)
  operation_messages messages no_value = ok []
  operation_messages messages (value msg msgs) =
      parse_then (operation_message messages (as_object_if (some msg)))
        (λ first. parse_then (operation_messages messages msgs) (λ rest. ok (first ++ rest)))

  abbrev pub messages_or : List Message → Option Values → Parsed (List Message)
  messages_or messages none = ok messages
  messages_or messages (some msgs) = operation_messages messages msgs

  abbrev pub parse_operation_messages : Fields → List Message → Parsed (List Message)
  parse_operation_messages op messages = messages_or messages (get_array "messages" op)

  abbrev pub body_of_payload : Option String → Option Value → Option RequestBody
  body_of_payload content_type none = none
  body_of_payload content_type (some schema) = some (record {
    required = true;
    content = (unwrap_or content_type "application/json", record { schema = some schema }) ∷ [];
  })

  -- A message that is sent is a request's body.
  abbrev pub message_body : String → List Message → Option RequestBody
  message_body method [] = none
  message_body method (m ∷ ms) =
      if str_eq method "SEND" then body_of_payload m.content_type m.payload else none

  abbrev pub merge_bindings : Dict Value → Dict Value → Dict Value
  merge_bindings bindings [] = bindings
  merge_bindings bindings ((protocol, config) ∷ rest) =
      merge_bindings (insert protocol config bindings) rest

  abbrev pub action_method : String → Option String → Parsed String
  action_method op_id none =
      err (schema_error (format ("operation '" ∷ op_id ∷ "' missing 'action' field" ∷ [])))
  action_method op_id (some action) =
      if str_eq action "send"
      then ok "SEND"
      else if str_eq action "receive"
      then ok "RECEIVE"
      else err (
          schema_error (
            format (
              "operation '" ∷ op_id ∷ "' has invalid action '" ∷ action
              ∷ "' (must be 'send' or 'receive')" ∷ [])))

  abbrev pub parse_async_operation : Dict ChannelInfo → String → Fields → Parsed Operation
  parse_async_operation channel_lookup op_id op_obj =
      parse_then (action_method op_id (get_str "action" op_obj)) (λ method.
        parse_then (resolve_channel_ref op_obj channel_lookup) (λ channel.
          parse_then (parse_operation_messages op_obj channel.messages) (λ messages. ok (record {
            path = channel.address;
            method = method;
            operation_id = some op_id;
            summary = none;
            description = none;
            parameters = channel.parameters;
            request_body = message_body method messages;
            dispatch = extract_dispatch op_obj;
            middlewares = own_middlewares op_obj;
            deprecated = unwrap_or (get_bool "deprecated" op_obj) false;
            sunset = get_str "x-sunset" op_obj;
            extensions = extract_extensions op_obj;
            messages = messages;
            bindings = merge_bindings channel.bindings (entries_if (get_object "bindings" op_obj));
            responses = [];
          }))))

  unfoldable pub parse_async_operations : Dict ChannelInfo → Fields → Parsed (List Operation)
  parse_async_operations channel_lookup no_field = ok []
  parse_async_operations channel_lookup (field op_id op_value fs) =
      parse_then
        (object_or ("operation '" ∷ op_id ∷ "' must be an object" ∷ [])
          (as_object_if (some op_value)) (parse_async_operation channel_lookup op_id))
        (λ first. parse_then (parse_async_operations channel_lookup fs) (λ rest. ok (first ∷ rest)))

  abbrev pub async_operations_in : Option Fields → Option Fields → Parsed (List Operation)
  async_operations_in channels none = ok []
  async_operations_in channels (some ops) =
      parse_then (build_channel_lookup channels)
        (λ channel_lookup. parse_async_operations channel_lookup ops)

  abbrev pub parse_asyncapi_channels : Fields → Parsed (List Operation)
  parse_asyncapi_channels root =
      async_operations_in (get_object "channels" root) (get_object "operations" root)
