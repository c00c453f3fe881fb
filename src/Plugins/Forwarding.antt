-- ===== src/Plugins/Forwarding.antt =====
-- crates/barbacane-plugin-sdk/src/types.rs: which forwarded address is believed.
use Prim.Native.Char.{Char, code}
use Prim.Native.String.{[], ◌∷◌, ◌++◌ as text_append}
use Prim.Native.String.append as appending
use barbacane.Common.{
  ℕ, String, ◌≡◌, refl, ap, ◌∙◌, true, false, ◌==◌, List, [], ◌∷◌, ◌++◌, map, some, lookup,
  str_empty, split, trim, Bool-cases, inl, inr, push_front, arith,
}
use mathlib.Core.List.{reverse-append, map-append}
use barbacane.Plugins.Sdk.{Request, is_trusted, resolve_client_ip}

push_front-append_cons :
    (d e : Char) (ps ts : List String)
    → push_front d (push_front e ps ++ ts) ≡ push_front d (push_front e ps) ++ ts
push_front-append_cons d e [] ts = refl
push_front-append_cons d e (p ∷ ps) ts = refl

push_front-split_append :
    (sep : ℕ) (d : Char) (s : String) (ts : List String)
    → push_front d (split sep s ++ ts) ≡ push_front d (split sep s) ++ ts
unfolding split
push_front-split_append sep d [] ts = refl
push_front-split_append sep d (e ∷ s) ts = elim (Bool-cases (code e == sep)) [
  | inl p ↦ rw p
  | inr p ↦ rw p (push_front-append_cons d e (split sep s) ts)
]

eq_refl : (n : ℕ) → (n == n) ≡ true
eq_refl n = ground arith

-- What stands behind a separator is split by itself.
split-append :
    (c : Char) (s t : String)
    → split (code c) (text_append s (c ∷ t)) ≡ split (code c) s ++ split (code c) t
unfolding split
split-append c [] t = rw (appending.nil (c ∷ t), eq_refl (code c))
split-append c (d ∷ s) t = elim (Bool-cases (code d == code c)) [
  | inl p ↦ rw (appending.cons d s (c ∷ t), split, p) (ap (◌∷◌ "") (split-append c s t))
  | inr p ↦
      rw (appending.cons d s (c ∷ t), split, p)
        (ap (push_front d) (split-append c s t)
          ∙ push_front-split_append (code c) d s (split (code c) t))
]

-- Behind a trusted proxy the client is the last address of `X-Forwarded-For`, if that is neither
-- empty nor a trusted proxy, whatever the client itself had put before it: a proxy appends the
-- address that it saw, which has no comma.
pub resolve_client_ip_rightmost :
    (req : Request) (trusted_proxies : List String) (forged hop : String)
    → is_trusted trusted_proxies (trim req.client_ip) ≡ true
    → lookup "x-forwarded-for" req.headers ≡ some (text_append forged ("," ∷ hop))
    → split b',' hop ≡ hop ∷ []
    → str_empty (trim hop) ≡ false
    → is_trusted trusted_proxies (trim hop) ≡ false
    → resolve_client_ip req trusted_proxies ≡ trim hop
unfolding resolve_client_ip
resolve_client_ip_rightmost req trusted_proxies forged hop peer header one named untrusted = rw (
  peer,
  header,
  split-append "," forged hop,
  one,
  map-append trim (split b',' forged) (hop ∷ []),
  reverse-append (map trim (split b',' forged)) (trim hop ∷ []),
  named,
  untrusted,
)
