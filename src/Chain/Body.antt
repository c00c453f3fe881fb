-- ===== src/Chain/Body.antt =====
-- crates/barbacane-wasm/src/body_access.rs: which middlewares receive the body.
use barbacane.Common.{Bool, if◌then◌else◌, is_empty, Option, none, unwrap_or}
use barbacane.Chain.Instance.{Bytes, Runtime, PluginInstance, set_request_body, take_output_body}

pub record BodyAccessControl : Type 0 where
  pub metadata_json : Bytes
  pub held_body : Option Bytes

abbrev pub new : Bytes → Option Bytes → BodyAccessControl
new metadata_json body = record { metadata_json = metadata_json; held_body = body }

abbrev pub keep_metadata : BodyAccessControl → Bytes → BodyAccessControl
keep_metadata b output = record b {
  metadata_json = if is_empty output then b.metadata_json else output;
}

abbrev pub finalize : BodyAccessControl → Bytes × Option Bytes
finalize b = (b.metadata_json, b.held_body)

module _ {rt : Runtime} where
  -- The metadata for the handler, and the instance with the body that it may see.
  unfoldable pub prepare_instance :
      BodyAccessControl → PluginInstance rt → Bool → Bytes × PluginInstance rt
  unfolding set_request_body
  prepare_instance b i body_access =
      (b.metadata_json, set_request_body i (if body_access then b.held_body else none))

  -- `None`: the guest neither set nor cleared the body.
  abbrev pub collect_body :
      BodyAccessControl
      → Option (Option Bytes) × PluginInstance rt
      → BodyAccessControl × PluginInstance rt
  collect_body b (body, i) = (record b { held_body = unwrap_or body b.held_body }, i)

  unfoldable pub collect_after :
      BodyAccessControl → PluginInstance rt → Bytes → Bool → BodyAccessControl × PluginInstance rt
  unfolding take_output_body
  collect_after b i output body_access =
      let b' = keep_metadata b output in
      if body_access then collect_body b' (take_output_body i) else (b', i)
