-- ===== src/Plugins/Runs.antt =====
-- Runs of the plugins' code.
use barbacane.Common.{
  arith, if◌then◌else◌, str_eq, some, true, ◌≡◌, refl, [], ◌∷◌, none, false, lookup, split, trim,
}
use barbacane.Chain.Instance.{Bytes}
use barbacane.Plugins.Sdk.{Request, continue, ProblemDetails, resolve_client_ip}
use barbacane.Plugins.Acl.{Acl, on_request}
use barbacane.Plugins.Forwarding.{resolve_client_ip_rightmost}
use barbacane.Plugins.IpRestriction.{IpRestriction, IpAddr, v4, Parser, bits_match, same_bits}
use barbacane.Plugins.IpRestriction
use barbacane.Plugins.Ranges.{value, bits_match-value}
use barbacane.Plugins.Spoofing.{with_headers, on_request-with_headers}
use barbacane.Plugins.Policy.{on_request-permitted}

abbrev request : Request
request = record {
  method = "GET";
  path = "/orders";
  query = none;
  headers =
      ("x-forwarded-for", "6.6.6.6, 9.9.9.9, 1.2.3.4 ")
      ∷ ("x-auth-consumer", "alice")
      ∷ ("x-auth-consumer-groups", "staff, admin")
      ∷ [];
  body = none;
  client_ip = "10.0.0.1";
  path_params = [];
}

resolve_client_ip_rightmost_example : resolve_client_ip request ("10.0.0.1" ∷ []) ≡ "1.2.3.4"
unfolding lookup split trim
resolve_client_ip_rightmost_example =
    resolve_client_ip_rightmost request ("10.0.0.1" ∷ []) "6.6.6.6, 9.9.9.9" " 1.2.3.4 " refl refl
      refl refl refl

untrusted_peer_example : resolve_client_ip request ("10.0.0.2" ∷ []) ≡ "10.0.0.1"
unfolding resolve_client_ip trim
untrusted_peer_example = refl

abbrev admins_only : Acl
admins_only = record {
  allow = "admin" ∷ [];
  deny = "banned" ∷ [];
  allow_consumers = [];
  deny_consumers = "mallory" ∷ [];
  consumer_groups = [];
  message = "Access denied by ACL policy";
  hide_consumer_in_errors = false;
}

abbrev to_bytes : ProblemDetails → Bytes
to_bytes p = p.status ∷ []

on_request-permitted_example : on_request to_bytes admins_only request ≡ continue request
unfolding lookup split trim
on_request-permitted_example = on_request-permitted to_bytes admins_only request

bits_match-value_example : bits_match (10 ∷ 1 ∷ 2 ∷ 3 ∷ []) (10 ∷ 0 ∷ 0 ∷ 0 ∷ []) 12 32 ≡ true
unfolding value
bits_match-value_example =
    bits_match-value (10 ∷ 1 ∷ 2 ∷ 3 ∷ []) (10 ∷ 0 ∷ 0 ∷ 0 ∷ []) 12 refl
      (omega arith, (omega arith, (omega arith, (omega arith, tt))))
      (omega arith, (omega arith, (omega arith, (omega arith, tt))))

abbrev parser : Parser
parser = record {
  parse_ip = λ s. if str_eq s "10.0.0.1" then some (v4 (10 ∷ 0 ∷ 0 ∷ 1 ∷ [])) else none;
  parse_u8 = λ s. if str_eq s "8" then some 8 else none;
}

abbrev no_tens : IpRestriction
no_tens = record {
  allow = [];
  deny = "10.0.0.1" ∷ [];
  trusted_proxies = "10.0.0.2" ∷ [];
  message = "Access denied";
  status = 403;
}

on_request-with_headers_example :
    IpRestriction.on_request to_bytes parser no_tens
      (record request { headers = ("x-forwarded-for", "8.8.8.8") ∷ [] })
    ≡ with_headers
        (("x-forwarded-for", "8.8.8.8") ∷ [])
        (IpRestriction.on_request to_bytes parser no_tens request)
unfolding trim
on_request-with_headers_example =
    on_request-with_headers to_bytes parser no_tens request (("x-forwarded-for", "8.8.8.8") ∷ [])
      refl
