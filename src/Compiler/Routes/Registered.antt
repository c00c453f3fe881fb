-- ===== src/Compiler/Routes/Registered.antt =====
-- crates/barbacane/src/main.rs: the routes of an artifact in the gateway's router.
use barbacane.Common.{
  String, ◌≡◌, refl, sym, ap, ◌∙◌, true, false, if◌then◌else◌, List, [], ◌∷◌, map, Option, some,
  All, lookup as dict_lookup, lookup-insert, str_eq, str_eq_iff, str_eq_refl, str_eq_comm,
  to_uppercase, Bool-cases, inl, inr, arith,
}
use barbacane.Router.Table.{
  Shape, literal, any_segment, all_segments, template, same_shape, methods_at, methods_at-insert,
}
use barbacane.Router.Trie.{Router, RouteEntry, insert}
use barbacane.Compiler.Specs.{CompiledOperation}
use barbacane.Compiler.Templates.{normalize_path_template}
use barbacane.Compiler.Routes.Distinct.{Apart, AllApart}
use barbacane.Compiler.Operations.{same_pair}
use barbacane.Compiler.Routes.Segments.{print_shape}
use barbacane.Compiler.Routes.Shapes.{Canonical, rooted, normalize_path_template-print}

-- An AsyncAPI action as the method of its bridge.
abbrev pub http_method : String → String
http_method method =
    if str_eq "SEND" method then "POST" else if str_eq "RECEIVE" method then "GET" else method

abbrev pub register_operation : Router → CompiledOperation → Router
register_operation router op =
    insert router op.path (http_method op.method) (record { operation_index = op.index })

unfoldable pub register : List CompiledOperation → Router → Router
register [] router = router
register (op ∷ ops) router = register ops (register_operation router op)

same_shape-eq : (xs ys : List Shape) → same_shape xs ys ≡ true → xs ≡ ys
unfolding same_shape
same_shape-eq [] [] h = refl
same_shape-eq (literal s ∷ xs) (literal t ∷ ys) h =
    ground (arith, h, str_eq_iff s t, same_shape-eq xs ys)
same_shape-eq (any_segment ∷ xs) (any_segment ∷ ys) h = ap (◌∷◌ any_segment) (same_shape-eq xs ys h)
same_shape-eq (all_segments ∷ xs) (all_segments ∷ ys) h =
    ap (◌∷◌ all_segments) (same_shape-eq xs ys h)
same_shape-eq [] (y ∷ ys) h = cc
same_shape-eq (literal s ∷ xs) [] h = cc
same_shape-eq (any_segment ∷ xs) [] h = cc
same_shape-eq (all_segments ∷ xs) [] h = cc
same_shape-eq (literal s ∷ xs) (any_segment ∷ ys) h = cc
same_shape-eq (literal s ∷ xs) (all_segments ∷ ys) h = cc
same_shape-eq (any_segment ∷ xs) (literal s ∷ ys) h = cc
same_shape-eq (any_segment ∷ xs) (all_segments ∷ ys) h = cc
same_shape-eq (all_segments ∷ xs) (literal s ∷ ys) h = cc
same_shape-eq (all_segments ∷ xs) (any_segment ∷ ys) h = cc

pub same_shape_refl : (xs : List Shape) → same_shape xs xs ≡ true
unfolding same_shape
same_shape_refl [] = refl
same_shape_refl (literal s ∷ xs) = rw (str_eq_refl s) (same_shape_refl xs)
same_shape_refl (any_segment ∷ xs) = same_shape_refl xs
same_shape_refl (all_segments ∷ xs) = same_shape_refl xs

-- The method of an OpenAPI operation: in upper case, and no action of AsyncAPI.
abbrev pub IsHttp : CompiledOperation → Type 0
IsHttp op = (to_uppercase op.method ≡ op.method) × (http_method op.method ≡ op.method)

-- The entry that the router holds for an operation.
abbrev pub entry_at : CompiledOperation → Router → Option RouteEntry
entry_at op router = dict_lookup op.method (methods_at (template op.path) router.root)

abbrev pub Ready : CompiledOperation → Type 0
Ready op = Canonical op.path × IsHttp op

entry_at-register_operation :
    (router : Router) (op : CompiledOperation)
    → IsHttp op
    → entry_at op (register_operation router op) ≡ some (record { operation_index = op.index })
entry_at-register_operation router op h =
    rw
      (
        h.1,
        methods_at-insert router op.path op.method (record { operation_index = op.index })
            (template op.path),
        same_shape_refl (template op.path),
        h.0,
        lookup-insert op.method op.method (record { operation_index = op.index })
            (methods_at (template op.path) router.root),
        str_eq_refl op.method,
      )
      refl

entry_at-register_other :
    (router : Router) (op e : CompiledOperation)
    → Ready op
    → Ready e
    → Apart op e
    → entry_at op (register_operation router e) ≡ entry_at op router
entry_at-register_other router op e h g a =
    rw
      (
        g.1.1,
        methods_at-insert router e.path e.method (record { operation_index = e.index })
            (template op.path),
      )
      (elim (Bool-cases (same_shape (template e.path) (template op.path))) [
        | inl q ↦
            rw
              (
                q,
                g.1.0,
                lookup-insert e.method op.method (record { operation_index = e.index })
                    (methods_at (template op.path) router.root),
                other q,
              )
              refl
        | inr q ↦ rw q refl
      ])
  where
    one_form :
        template e.path ≡ template op.path
        → normalize_path_template e.path ≡ normalize_path_template op.path
    one_form t =
        normalize_path_template-print e.path g.0
        ∙ ap (λ xs. rooted (map print_shape xs)) t
        ∙ sym (normalize_path_template-print op.path h.0)

    true_or_false : true ≡ false → ⊥
    true_or_false x = cc

    both : (s t m n : String) → s ≡ t → str_eq m n ≡ true → same_pair (s, m) (t, n) ≡ true
    both s t m n p q = rw (p, str_eq_refl t, q) refl

    same :
        same_shape (template e.path) (template op.path) ≡ true
        → str_eq op.method e.method ≡ true
        → ⊥
    same q m = true_or_false (
        sym (both _ _ op.method e.method (sym (one_form (same_shape-eq (template e.path) _ q))) m)
        ∙ a)

    other :
        same_shape (template e.path) (template op.path) ≡ true → str_eq e.method op.method ≡ false
    other q = elim (Bool-cases (str_eq op.method e.method)) [
      | inl m ↦ absurd (same q m)
      | inr m ↦ str_eq_comm e.method op.method ∙ m
    ]

entry_at-register :
    (op : CompiledOperation) (ops : List CompiledOperation) (router : Router)
    → Ready op
    → All Ready ops
    → All (Apart op) ops
    → entry_at op (register ops router) ≡ entry_at op router
unfolding register
entry_at-register op [] router h g a = refl
entry_at-register op (e ∷ ops) router h g a =
    entry_at-register op ops (register_operation router e) h g.1 a.1
    ∙ entry_at-register_other router op e h g.0 a.0

-- Every operation keeps its own entry in the router, at its shape and its method, when all are
-- registered.
pub register-keeps :
    (ops : List CompiledOperation) (router : Router)
    → AllApart ops
    → All Ready ops
    → All
        (λ op. entry_at op (register ops router) ≡ some (record { operation_index = op.index }))
        ops
unfolding register
register-keeps [] router a h = tt
register-keeps (op ∷ ops) router a h = (
  entry_at-register op ops (register_operation router op) h.0 h.1 a.0
      ∙ entry_at-register_operation router op h.0.1,
  register-keeps ops (register_operation router op) a.1 h.1,
)
