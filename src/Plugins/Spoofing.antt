-- ===== src/Plugins/Spoofing.antt =====
-- plugins/ip-restriction/src/lib.rs: what a client can do with the headers that it sends.
use barbacane.Common.{String, ◌≡◌, refl, false, List, Option, none, some, Dict, trim}
use barbacane.Chain.Instance.{Bytes, Response}
use barbacane.Plugins.Sdk.{
  Request, Action, continue, short_circuit, ProblemDetails, is_trusted, resolve_client_ip,
}
use barbacane.Plugins.IpRestriction.{IpRestriction, Parser, enforce, refusal, on_request}

resolve_client_ip_untrusted :
    (req : Request) (trusted_proxies : List String)
    → is_trusted trusted_proxies (trim req.client_ip) ≡ false
    → resolve_client_ip req trusted_proxies ≡ trim req.client_ip
unfolding resolve_client_ip
resolve_client_ip_untrusted req trusted_proxies h = rw h

-- The same action, with the headers that the request has.
abbrev pub with_headers : Dict String → Action → Action
with_headers headers (continue req) = continue (record req { headers = headers })
with_headers headers (short_circuit response) = short_circuit response

enforce-with_headers :
    (req : Request) (headers : Dict String) (o : Option Response)
    → enforce (record req { headers = headers }) o ≡ with_headers headers (enforce req o)
enforce-with_headers req headers none = refl
enforce-with_headers req headers (some response) = refl

-- A client that does not come through a trusted proxy cannot change the decision by any header: it
-- is the same for all headers.
pub on_request-with_headers :
    (serialize : ProblemDetails → Bytes) (parser : Parser) (p : IpRestriction) (req : Request)
    (headers : Dict String)
    → is_trusted p.trusted_proxies (trim req.client_ip) ≡ false
    → on_request serialize parser p (record req { headers = headers })
      ≡ with_headers headers (on_request serialize parser p req)
unfolding on_request
on_request-with_headers serialize parser p req headers h =
    let peer = trim req.client_ip in
    rw
      (
        resolve_client_ip_untrusted (record req { headers = headers }) p.trusted_proxies h,
        resolve_client_ip_untrusted req p.trusted_proxies h,
      )
      (enforce-with_headers req headers (refusal serialize parser p peer (parser.parse_ip peer)))
