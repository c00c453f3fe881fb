-- ===== src/Router/Shadowing.antt =====
-- crates/barbacane/src/router/trie.rs: the traversal does not backtrack from a node without methods.
use barbacane.Common.{
  String, ◌≡◌, refl, [], ◌∷◌, lookup as dict_lookup, insert as dict_insert, str_eq_refl,
  to_uppercase,
}
use barbacane.Router.Path.{static, param, parse_path_template, split_path}
use barbacane.Router.Normalize.{split_path-normalize_path}
use barbacane.Router.Trie.{
  RouteEntry, new, insert, lookup, found, not_found, get_static, entry_or_default,
  traverse_or_create, traverse_and_match,
}

-- A route `/a/{x}` answers the request `/a/b`. Once a longer route `/a/b/c` is registered too, the
-- same request is not found: the traversal stops at the node of `/a/b`, which has no method, and
-- never tries the parameter.
pub static_shadows_param :
    (short long request a b c x method : String) (e₁ e₂ : RouteEntry)
    → parse_path_template short ≡ static a ∷ param x ∷ []
    → parse_path_template long ≡ static a ∷ static b ∷ static c ∷ []
    → split_path request ≡ a ∷ b ∷ []
    → (lookup (insert new short method e₁) request method ≡ found e₁ ((x, b) ∷ []))
      × (lookup (insert (insert new short method e₁) long method e₂) request method ≡ not_found)
unfolding lookup insert traverse_or_create traverse_and_match get_static entry_or_default
    dict_lookup dict_insert
static_shadows_param short long request a b c x method e₁ e₂ hs hl hr =
    rw (hs, hl, split_path-normalize_path request, hr)
      (simp (str_eq_refl a, str_eq_refl b, str_eq_refl (to_uppercase method)) (refl, refl))
