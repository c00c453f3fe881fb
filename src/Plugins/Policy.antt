-- ===== src/Plugins/Policy.antt =====
-- plugins/acl/src/lib.rs: the access-control decision as one condition.
use barbacane.Common.{
  String, ◌≡◌, refl, ap, ◌∙◌, Bool, false, not, ◌&&◌, ◌||◌, if◌then◌else◌, List, [], ◌∷◌, Option,
  none, some, any, is_empty, lookup, str_empty, str_eq, str_eq_iff, split, trim, contains,
  contains-append, arith, Bool-cases, inl, inr,
}
use barbacane.Chain.Instance.{Bytes}
use barbacane.Plugins.Sdk.{Request, continue, short_circuit, ProblemDetails}
use barbacane.Plugins.Acl.{
  Acl, push_new, push_header_groups, header_groups, push_groups, push_static_groups, resolve_groups,
  forbidden_response, check_consumer, check_identity, on_request,
}

contains-push_new :
    (g h : String) (groups : List String)
    → contains g (push_new h groups) ≡ (str_eq h g || contains g groups)
contains-push_new g h groups = ground (arith, contains-append g groups (h ∷ []), str_eq_iff h g)

-- The text names the group, spaces aside, and names one.
abbrev pub names : String → List String → Bool
names g [] = false
names g (t ∷ ts) = (str_eq (trim t) g && not (str_empty (trim t))) || names g ts

contains-push_header_groups :
    (g : String) (groups ts : List String)
    → contains g (push_header_groups groups ts) ≡ (contains g groups || names g ts)
contains-push_header_groups g groups [] = ground arith
contains-push_header_groups g groups (t ∷ ts) =
    let next = if str_empty (trim t) then groups else push_new (trim t) groups in
    contains-push_header_groups g next ts ∙ ground (arith, contains-push_new g (trim t) groups)

contains-push_groups :
    (g : String) (groups ts : List String)
    → contains g (push_groups groups ts) ≡ (contains g groups || contains g ts)
contains-push_groups g groups [] = ground arith
contains-push_groups g groups (t ∷ ts) =
    contains-push_groups g (push_new t groups) ts ∙ ground (arith, contains-push_new g t groups)

-- The groups that a header lists, and those of the configuration.
abbrev pub listed : String → Option String → Bool
listed g none = false
listed g (some header_val) = names g (split b',' header_val)

abbrev pub configured : String → Option (List String) → Bool
configured g none = false
configured g (some groups) = contains g groups

-- The consumer is a member of the group by the header or by the configuration.
abbrev pub is_member : Acl → String → Request → String → Bool
is_member acl consumer req g =
    listed g (lookup "x-auth-consumer-groups" req.headers)
    || configured g (lookup consumer acl.consumer_groups)

contains-header_groups :
    (g : String) (h : Option String) → contains g (header_groups h) ≡ listed g h
contains-header_groups g none = refl
contains-header_groups g (some v) = contains-push_header_groups g [] (split b',' v)

contains-push_static_groups :
    (g : String) (groups : List String) (o : Option (List String))
    → contains g (push_static_groups groups o) ≡ (contains g groups || configured g o)
contains-push_static_groups g groups none = ground arith
contains-push_static_groups g groups (some ts) = contains-push_groups g groups ts

contains-resolve_groups :
    (acl : Acl) (consumer : String) (req : Request) (g : String)
    → contains g (resolve_groups acl consumer req) ≡ is_member acl consumer req g
unfolding resolve_groups
contains-resolve_groups acl consumer req g =
    contains-push_static_groups g _ (lookup consumer acl.consumer_groups)
    ∙ ap (λ b. b || configured g (lookup consumer acl.consumer_groups))
        (contains-header_groups g (lookup "x-auth-consumer-groups" req.headers))

any_same :
    (p q : String → Bool) (xs : List String) → ((x : String) → p x ≡ q x) → any p xs ≡ any q xs
any_same p q [] h = refl
any_same p q (x ∷ xs) h = rw (h x, any_same p q xs h)

-- What the policy grants a named consumer: a denied consumer nothing, an allowed one everything, and
-- any other what its groups allow, where a denied group counts before an allowed one and an empty
-- list of allowed groups allows all.
abbrev pub granted : Acl → String → Request → Bool
granted acl consumer req =
    not (contains consumer acl.deny_consumers)
    && (contains consumer acl.allow_consumers
        || (not (any (is_member acl consumer req) acl.deny)
            && (is_empty acl.allow || any (is_member acl consumer req) acl.allow)))

-- The consumer that an authentication plugin named in the header; an empty name is none.
abbrev pub identity : Option String → Option String
identity none = none
identity (some consumer) = if str_empty consumer then none else some consumer

abbrev pub permitted : Acl → Request → Option String → Bool
permitted acl req none = false
permitted acl req (some consumer) = granted acl consumer req

module _ (serialize : ProblemDetails → Bytes) where
  check_consumer_lem :
      (acl : Acl) (req : Request) (consumer : String)
      → check_consumer serialize acl req consumer ≡ (
          if granted acl consumer req
          then continue req
          else short_circuit (forbidden_response serialize acl (some consumer)))
  check_consumer_lem acl req consumer =
      let groups = resolve_groups acl consumer req in
      let same = contains-resolve_groups acl consumer req in
      ground (
        arith,
        any_same (λ g. contains g groups) (is_member acl consumer req) acl.deny same,
        any_same (λ g. contains g groups) (is_member acl consumer req) acl.allow same,
      )

  check_identity_lem :
      (acl : Acl) (req : Request) (o : Option String)
      → check_identity serialize acl req o ≡ (
          if permitted acl req (identity o)
          then continue req
          else short_circuit (forbidden_response serialize acl (identity o)))
  check_identity_lem acl req none = refl
  check_identity_lem acl req (some consumer) = elim (Bool-cases (str_empty consumer)) [
    | inl e ↦ rw e
    | inr e ↦ rw e (check_consumer_lem acl req consumer)
  ]

  -- A request goes on, unchanged, exactly if the policy permits its consumer, and is refused with
  -- the problem response otherwise; a request without a consumer is never permitted.
  pub on_request-permitted :
      (acl : Acl) (req : Request)
      → let consumer = identity (lookup "x-auth-consumer" req.headers) in
        on_request serialize acl req ≡ (
          if permitted acl req consumer
          then continue req
          else short_circuit (forbidden_response serialize acl consumer))
  unfolding on_request
  on_request-permitted acl req = check_identity_lem acl req (lookup "x-auth-consumer" req.headers)
