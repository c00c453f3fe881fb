-- ===== src/Gateway/Replies.antt =====
-- crates/barbacane/src/main.rs: `build_response_from_plugin`. What the http crate accepts is the
-- record `Http`.
use Prim.Native.String.{[], ◌∷◌}
use barbacane.Common.{
  ℕ, String, ◌≡◌, refl, Bool, true, false, if◌then◌else◌, List, [], ◌∷◌, Option, none, some,
  unwrap_or, All, Dict, contains, to_lowercase, Bool-cases, inl, inr,
}
use barbacane.Chain.Instance.{Bytes, Response}

-- `StatusCode::from_u16`, `HeaderName::from_bytes`, `HeaderValue::from_str`, and whether a builder
-- takes so many headers.
pub record Http : Type 0 where
  pub is_status : ℕ → Bool
  pub header_name : String → Option String
  pub is_header_value : String → Bool
  pub fits : List (String × String) → Bool

pub record HttpResponse : Type 0 where
  pub status : ℕ
  pub headers : List (String × String)
  pub body : Bytes

-- The headers that hyper computes from the body.
abbrev pub framing : List String
framing = "content-length" ∷ "transfer-encoding" ∷ "connection" ∷ "keep-alive" ∷ []

-- The bytes of "invalid upstream response".
abbrev invalid_upstream_response : Bytes
invalid_upstream_response =
    105 ∷ 110 ∷ 118 ∷ 97 ∷ 108 ∷ 105 ∷ 100 ∷ 32 ∷ 117 ∷ 112 ∷ 115 ∷ 116 ∷ 114 ∷ 101 ∷ 97 ∷ 109 ∷ 32
    ∷ 114 ∷ 101 ∷ 115 ∷ 112 ∷ 111 ∷ 110 ∷ 115 ∷ 101 ∷ []

module _ (http : Http) where
  open http use {is_status, header_name, is_header_value, fits}

  abbrev pub push_named : Option String → String → List (String × String) → List (String × String)
  push_named none val rest = rest
  push_named (some name) val rest = if is_header_value val then (name, val) ∷ rest else rest

  -- The loop over the plugin's headers; what it adds is the head of the result.
  unfoldable pub response_headers : Dict String → List (String × String)
  response_headers [] = []
  response_headers ((key, val) ∷ headers) =
      let rest = response_headers headers in
      if contains (to_lowercase key) framing then rest else push_named (header_name key) val rest

  abbrev pub bad_gateway : HttpResponse
  bad_gateway = record { status = 502; headers = []; body = invalid_upstream_response }

  unfoldable pub build_response_from_plugin : Response → HttpResponse
  unfolding response_headers
  build_response_from_plugin r =
      let headers = response_headers r.headers in
      if fits headers
      then record {
        status = if is_status r.status then r.status else 200;
        headers = headers;
        body = unwrap_or r.body [];
      }
      else bad_gateway

  -- A header that may be sent: its name is no framing header, its value is valid.
  abbrev pub IsSafe : String × String → Type 0
  IsSafe (name, val) = (contains name framing ≡ false) × (is_header_value val ≡ true)

  push_named-IsSafe :
      (key val : String) (o : Option String) (rest : List (String × String))
      → ((name : String) → o ≡ some name → name ≡ to_lowercase key)
      → contains (to_lowercase key) framing ≡ false
      → All IsSafe rest
      → All IsSafe (push_named o val rest)
  push_named-IsSafe key val none rest lower other safe = safe
  push_named-IsSafe key val (some name) rest lower other safe =
      elim (Bool-cases (is_header_value val)) [
        | inl good ↦ rw good ((rw (lower name refl) other, good), safe)
        | inr bad ↦ rw bad safe
      ]

  response_headers-IsSafe :
      (headers : Dict String)
      → ((key name : String) → header_name key ≡ some name → name ≡ to_lowercase key)
      → All IsSafe (response_headers headers)
  unfolding response_headers
  response_headers-IsSafe [] lower = tt
  response_headers-IsSafe ((key, val) ∷ headers) lower =
      let ih = response_headers-IsSafe headers lower in
      elim (Bool-cases (contains (to_lowercase key) framing)) [
        | inl frames ↦ rw frames ih
        | inr other ↦ rw other (push_named-IsSafe key val (header_name key) _ (lower key) other ih)
      ]

  -- If the http crate keeps a name that it takes in lower case, then whatever headers a plugin sets,
  -- the response to the client has no framing header of the plugin's and no value that the http
  -- crate refuses.
  pub build_response_from_plugin-IsSafe :
      (r : Response)
      → ((key name : String) → header_name key ≡ some name → name ≡ to_lowercase key)
      → All IsSafe (build_response_from_plugin r).headers
  unfolding build_response_from_plugin
  build_response_from_plugin-IsSafe r lower =
      elim (Bool-cases (fits (response_headers r.headers))) [
        | inl small ↦ rw small (response_headers-IsSafe r.headers lower)
        | inr large ↦ rw large tt
      ]
