-- ===== src/Plugins/Sdk.antt =====
-- crates/barbacane-plugin-sdk/src: requests, actions, problem responses, and the client's address.
use barbacane.Common.{
  ℕ, String, Bool, not, ◌&&◌, if◌then◌else◌, List, [], ◌∷◌, map, Option, none, some, any, unwrap_or,
  Dict, lookup, insert, str_eq, str_empty, split, trim,
}
use mathlib.Core.List.{reverse}
use barbacane.Chain.Instance.{Bytes, Response}

pub record Request : Type 0 where
  pub method : String
  pub path : String
  pub query : Option String
  pub headers : Dict String
  pub body : Option Bytes
  pub client_ip : String
  pub path_params : Dict String

pub data Action : Type 0 where
  continue : Request → Action
  short_circuit : Response → Action

-- Extensions are texts wherever the modelled plugins set one.
pub record ProblemDetails : Type 0 where
  pub status : ℕ
  pub type_uri : String
  pub title : String
  pub detail : Option String
  pub extensions : Dict String

-- `ProblemDetails::new`
abbrev pub problem : ℕ → String → String → ProblemDetails
problem status type_uri title = record {
  status = status;
  type_uri = type_uri;
  title = title;
  detail = none;
  extensions = [];
}

-- `ProblemDetails::detail`
abbrev pub with_detail : ProblemDetails → String → ProblemDetails
with_detail p detail = record p { detail = some detail }

-- `ProblemDetails::with`
abbrev pub with_extension : ProblemDetails → String → String → ProblemDetails
with_extension p key value = record p { extensions = insert key value p.extensions }

-- `serialize` is serde_json on the problem's object.
abbrev pub into_response : (serialize : ProblemDetails → Bytes) → ProblemDetails → Response
into_response serialize p = record {
  status = p.status;
  headers = ("content-type", "application/problem+json") ∷ [];
  body = some (serialize p);
}

abbrev pub is_trusted : List String → String → Bool
is_trusted trusted_proxies ip = any (λ p. str_eq (trim p) ip) trusted_proxies

-- The hops of `X-Forwarded-For`, the right-most first.
abbrev pub hops : String → List String
hops xff = reverse (map trim (split b',' xff))

abbrev pub first_untrusted : List String → List String → Option String
first_untrusted trusted_proxies [] = none
first_untrusted trusted_proxies (hop ∷ rest) =
    if not (str_empty hop) && not (is_trusted trusted_proxies hop)
    then some hop
    else first_untrusted trusted_proxies rest

abbrev pub forwarded_for : List String → Option String → Option String
forwarded_for trusted_proxies none = none
forwarded_for trusted_proxies (some xff) = first_untrusted trusted_proxies (hops xff)

abbrev pub real_ip_or : String → Option String → String
real_ip_or peer none = peer
real_ip_or peer (some real) = if str_empty (trim real) then peer else trim real

unfoldable pub resolve_client_ip : Request → List String → String
resolve_client_ip req trusted_proxies =
    let peer = trim req.client_ip in
    if is_trusted trusted_proxies peer
    then unwrap_or (forwarded_for trusted_proxies (lookup "x-forwarded-for" req.headers))
        (real_ip_or peer (lookup "x-real-ip" req.headers))
    else peer
