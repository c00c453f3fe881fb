-- ===== src/Plugins/IpRestriction.antt =====
-- plugins/ip-restriction/src/lib.rs: addresses, ranges, and the decision. The parser of addresses is
-- the standard library's, given by the record `Parser`.
use barbacane.Common.{
  ℕ, String, ◌-◌, ◌*◌, ◌/◌, ◌^◌, min, Bool, true, false, not, ◌&&◌, ◌==◌, ltb, if◌then◌else◌, List,
  [], ◌∷◌, Option, none, some, any, is_empty, trim, split_once,
}
use barbacane.Chain.Instance.{Bytes, Response}
use barbacane.Plugins.Sdk.{
  Request, Action, continue, short_circuit, ProblemDetails, problem, with_detail, with_extension,
  into_response, resolve_client_ip,
}

pub record IpRestriction : Type 0 where
  pub allow : List String
  pub deny : List String
  pub trusted_proxies : List String
  pub message : String
  pub status : ℕ

-- `std::net::IpAddr`, by its octets.
pub data IpAddr : Type 0 where
  v4 v6 : List ℕ → IpAddr

-- `x & mask`, where the mask keeps the first `take` of the eight bits.
abbrev pub masked : ℕ → ℕ → ℕ
masked take x = x / 2 ^ (8 - take) * 2 ^ (8 - take)

-- The loop over the octets of both addresses.
unfoldable pub same_bits : List ℕ → List ℕ → ℕ → Bool
same_bits [] ys remaining = true
same_bits (x ∷ xs) [] remaining = true
same_bits (x ∷ xs) (y ∷ ys) remaining =
    let take = min remaining 8 in
    let rest = same_bits xs ys (remaining - take) in
    if remaining == 0 then true else if masked take x == masked take y then rest else false

unfoldable pub bits_match : List ℕ → List ℕ → ℕ → ℕ → Bool
bits_match a b prefix_len max_bits =
    if ltb max_bits prefix_len then false else same_bits a b prefix_len

unfoldable pub ip_in_cidr : IpAddr → IpAddr → ℕ → Bool
unfolding bits_match
ip_in_cidr (v4 ip) (v4 net) prefix_len = bits_match ip net prefix_len 32
ip_in_cidr (v6 ip) (v6 net) prefix_len = bits_match ip net prefix_len 128
ip_in_cidr _ _ prefix_len = false

-- How the standard library parses an address, and a `u8`.
pub record Parser : Type 0 where
  pub parse_ip : String → Option IpAddr
  pub parse_u8 : String → Option ℕ

abbrev pub same_octets : List ℕ → List ℕ → Bool
same_octets [] [] = true
same_octets (x ∷ xs) (y ∷ ys) = x == y && same_octets xs ys
same_octets _ _ = false

abbrev pub ip_eq : IpAddr → IpAddr → Bool
ip_eq (v4 a) (v4 b) = same_octets a b
ip_eq (v6 a) (v6 b) = same_octets a b
ip_eq _ _ = false

abbrev pub in_range : IpAddr → Option IpAddr → Option ℕ → Bool
in_range client (some network) (some prefix) = ip_in_cidr client network prefix
in_range client _ _ = false

abbrev pub is_address : IpAddr → Option IpAddr → Bool
is_address client none = false
is_address client (some e) = ip_eq e client

module _ (parser : Parser) where
  open parser use {parse_ip, parse_u8}

  abbrev pub matches_split : IpAddr → String → Option (String × String) → Bool
  matches_split client entry (some (network, prefix)) =
      in_range client (parse_ip (trim network)) (parse_u8 (trim prefix))
  matches_split client entry none = is_address client (parse_ip (trim entry))

  unfoldable pub ip_matches : IpAddr → String → Bool
  unfolding ip_in_cidr
  ip_matches client entry = matches_split client entry (split_once b'/' entry)

  abbrev pub is_ip_in_list : IpAddr → List String → Bool
  is_ip_in_list client_ip list = any (λ entry. ip_matches client_ip entry) list

-- The request goes on unless there is a refusal.
abbrev pub enforce : Request → Option Response → Action
enforce req none = continue req
enforce req (some response) = short_circuit response

module _ (serialize : ProblemDetails → Bytes) (parser : Parser) where
  open parser use {parse_ip}

  abbrev pub forbidden_response : IpRestriction → String → Response
  forbidden_response p client_ip = into_response serialize (
      with_extension
        (with_detail (problem p.status "urn:barbacane:error:ip-restricted" "Forbidden") p.message)
        "client_ip" client_ip)

  -- The decision for the client's address, if it could be parsed; none is to continue.
  abbrev pub refusal : IpRestriction → String → Option IpAddr → Option Response
  refusal p client_ip_str none =
      if is_empty p.allow && is_empty p.deny
      then none
      else some (forbidden_response p client_ip_str)
  refusal p client_ip_str (some client_ip) =
      if is_ip_in_list parser client_ip p.deny
      then some (forbidden_response p client_ip_str)
      else if not (is_empty p.allow) && not (is_ip_in_list parser client_ip p.allow)
      then some (forbidden_response p client_ip_str)
      else none

  unfoldable pub on_request : IpRestriction → Request → Action
  unfolding ip_matches
  on_request p req =
      let client_ip_str = resolve_client_ip req p.trusted_proxies in
      enforce req (refusal p client_ip_str (parse_ip client_ip_str))
