-- ===== src/Gateway/Serving/Loading.antt =====
-- crates/barbacane/src/main.rs: a gateway that is loaded from an artifact's routes never indexes out of
-- bounds.
use barbacane.Common.{
  String, ◌≡◌, subst, List, [], ◌∷◌, map, some, All, Dict, AllValues, insert-AllValues,
  lookup as dict_lookup, str_eq, to_uppercase, Bool-cases, inl, inr,
}
use barbacane.Compiler.Specs.{CompiledOperation}
use barbacane.Compiler.Routes.Registered.{register, register_operation, http_method}
use barbacane.Router.Table.{
  Shape, template, same_shape, methods_at, methods_at-insert, methods_at-empty_node,
}
use barbacane.Router.Path.{split_path}
use barbacane.Router.Sound.{lookup-Justified, IsFound, Justified}
use barbacane.Router.Trie.{Router, RouteEntry, found, lookup, new}
use barbacane.Validator.Limits.{RequestLimits}
use barbacane.Validator.Operation.{OperationValidator}
use barbacane.Validator.Operation
use barbacane.Gateway.Serving.{Libraries, Gateway}

-- The gateway that `load` builds from the operations of an artifact.
unfoldable pub load : (lib : Libraries) → RequestLimits → List CompiledOperation → Gateway lib
load lib limits ops = record {
  router = register ops new;
  operations = ops;
  validators = map (λ op. Operation.new lib.js op.parameters op.request_body) ops;
  limits = limits;
}

lookup-AllValues_some :
    {V : Type 0} (P : V → Type 0) (k : String) (m : Dict V) (v : V)
    → AllValues P m
    → dict_lookup k m ≡ some v
    → P v
unfolding dict_lookup
lookup-AllValues_some P k [] v h e = absurd cc
lookup-AllValues_some P k ((j, w) ∷ m) v h e = elim (Bool-cases (str_eq j k)) [
  | inl q ↦ subst P (some_eq (simp q at e)) h.0
  | inr q ↦ lookup-AllValues_some P k m v h.1 (simp q at e)
]
  where
    some_eq : some w ≡ some v → w ≡ v
    some_eq x = cc

module _ (P : RouteEntry → Type 0) where
  abbrev OpHas : CompiledOperation → Type 0
  OpHas op = P (record { operation_index = op.index })

  register-AllValues :
      (ops : List CompiledOperation) (router : Router) (xs : List Shape)
      → All OpHas ops
      → ((ys : List Shape) → AllValues P (methods_at ys router.root))
      → AllValues P (methods_at xs (register ops router).root)
  unfolding register
  register-AllValues [] router xs h r = r xs
  register-AllValues (op ∷ ops) router xs h r =
      register-AllValues ops (register_operation router op) xs h.1 inserted
    where
      entry : RouteEntry
      entry = record { operation_index = op.index }

      inserted : (ys : List Shape) → AllValues P (methods_at ys (register_operation router op).root)
      inserted ys =
          rw (methods_at-insert router op.path (http_method op.method) entry ys)
            (elim (Bool-cases (same_shape (template op.path) ys)) [
              | inl e ↦ rw e (
                  insert-AllValues P (to_uppercase (http_method op.method)) entry
                    (methods_at ys router.root) h.0 (r ys))
              | inr e ↦ rw e (r ys)
            ])

  pub lookup-register :
      (ops : List CompiledOperation) (path method : String) (entry : RouteEntry)
      (params : List (String × String))
      → All OpHas ops
      → lookup (register ops new) path method ≡ found entry params
      → P entry
  lookup-register ops path method entry params h e = at_shape (
      subst (Justified (register ops new) (split_path path) method) e
        (lookup-Justified (register ops new) path method))
    where
      at_shape : IsFound (register ops new) (split_path path) method entry params → P entry
      at_shape f =
          lookup-AllValues_some P (to_uppercase method) (methods_at f.0 (register ops new).root)
            entry (register-AllValues ops new f.0 h (λ ys. rw (methods_at-empty_node ys) tt)) f.2
