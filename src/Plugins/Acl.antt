-- ===== src/Plugins/Acl.antt =====
-- plugins/acl/src/lib.rs: access control by consumer and group.
use barbacane.Common.{
  String, Bool, not, ◌&&◌, if◌then◌else◌, List, [], ◌∷◌, ◌++◌, Option, none, some, any, is_empty,
  Dict, lookup, str_empty, split, trim, contains,
}
use barbacane.Chain.Instance.{Bytes, Response}
use barbacane.Plugins.Sdk.{
  Request, Action, continue, short_circuit, ProblemDetails, problem, with_detail, with_extension,
  into_response,
}

pub record Acl : Type 0 where
  pub allow : List String
  pub deny : List String
  pub allow_consumers : List String
  pub deny_consumers : List String
  pub consumer_groups : Dict (List String)
  pub message : String
  pub hide_consumer_in_errors : Bool

-- A group is added once.
abbrev pub push_new : String → List String → List String
push_new g groups = if contains g groups then groups else groups ++ g ∷ []

-- The loop over the groups of the header.
abbrev pub push_header_groups : List String → List String → List String
push_header_groups groups [] = groups
push_header_groups groups (g ∷ gs) =
    let trimmed = trim g in
    push_header_groups (if str_empty trimmed then groups else push_new trimmed groups) gs

abbrev pub header_groups : Option String → List String
header_groups none = []
header_groups (some header_val) = push_header_groups [] (split b',' header_val)

-- The loop over the groups of the configuration.
abbrev pub push_groups : List String → List String → List String
push_groups groups [] = groups
push_groups groups (g ∷ gs) = push_groups (push_new g groups) gs

abbrev pub push_static_groups : List String → Option (List String) → List String
push_static_groups groups none = groups
push_static_groups groups (some static_groups) = push_groups groups static_groups

unfoldable pub resolve_groups : Acl → String → Request → List String
resolve_groups acl consumer req =
    push_static_groups (header_groups (lookup "x-auth-consumer-groups" req.headers))
      (lookup consumer acl.consumer_groups)

module _ (serialize : ProblemDetails → Bytes) where
  abbrev pub with_consumer : Acl → Option String → ProblemDetails → ProblemDetails
  with_consumer acl none p = p
  with_consumer acl (some consumer) p =
      if acl.hide_consumer_in_errors then p else with_extension p "consumer" consumer

  unfoldable pub forbidden_response : Acl → Option String → Response
  forbidden_response acl consumer = into_response serialize (
      with_consumer acl consumer
        (with_detail (problem 403 "urn:barbacane:error:acl-denied" "Forbidden") acl.message))

  abbrev pub check_groups : Acl → Request → String → List String → Action
  check_groups acl req consumer groups =
      if any (λ g. contains g groups) acl.deny
      then short_circuit (forbidden_response acl (some consumer))
      else if not (is_empty acl.allow) && not (any (λ g. contains g groups) acl.allow)
      then short_circuit (forbidden_response acl (some consumer))
      else continue req

  abbrev pub check_consumer : Acl → Request → String → Action
  check_consumer acl req consumer =
      if contains consumer acl.deny_consumers
      then short_circuit (forbidden_response acl (some consumer))
      else if contains consumer acl.allow_consumers
      then continue req
      else check_groups acl req consumer (resolve_groups acl consumer req)

  abbrev pub check_identity : Acl → Request → Option String → Action
  check_identity acl req none = short_circuit (forbidden_response acl none)
  check_identity acl req (some consumer) =
      if str_empty consumer
      then short_circuit (forbidden_response acl none)
      else check_consumer acl req consumer

  unfoldable pub on_request : Acl → Request → Action
  unfolding resolve_groups forbidden_response
  on_request acl req = check_identity acl req (lookup "x-auth-consumer" req.headers)
