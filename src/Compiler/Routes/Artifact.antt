-- ===== src/Compiler/Routes/Artifact.antt =====
-- crates/barbacane-compiler/src/artifact.rs and crates/barbacane/src/main.rs: the routes of an artifact
-- that the compiler wrote, in the router of the gateway that loads it.
use Prim.Native.Char.{Char}
use barbacane.Common.Results.{Result, ok, err}
use barbacane.Compiler.Errors.{CompileError}
use barbacane.Compiler.Specs.{ApiSpec}
use barbacane.Compiler.Operations.{PluginBundle, CompileOptions, Compilation, begin}
use barbacane.Compiler.Compile.{compile_routes, compile_specs, finish, reindex, sort_operations}
use barbacane.Compiler.Routes.Accepted.{compile_routes-AllApart}
use barbacane.Compiler.Routes.Distinct.{ok_injective}
use barbacane.Common.{
  get_elem?, zero, suc, ◌+◌, ℕ, ◌≡◌, ap, ◌∙◌, subst, Bool, List, [], ◌∷◌, some, All, arith,
}
use barbacane.Router.Trie.{Router}
use barbacane.Compiler.Specs.{CompiledOperation}
use barbacane.Compiler.Routes.Registered.{Ready, entry_at, register, register-keeps}

get_elem?-All :
    (P : CompiledOperation → Type 0) (ops : List CompiledOperation) (i : ℕ) (op : CompiledOperation)
    → All P ops
    → get_elem? ops i ≡ some op
    → P op
get_elem?-All P [] i op h e = absurd cc
get_elem?-All P (x ∷ xs) zero op h e = subst P (cc e) h.0
get_elem?-All P (x ∷ xs) (suc i) op h e = get_elem?-All P xs i op h.1 e

get_elem?-reindex :
    (j : ℕ) (ops : List CompiledOperation) (i : ℕ) (op : CompiledOperation)
    → get_elem? (reindex j ops) i ≡ some op
    → op.index ≡ j + i
unfolding reindex
get_elem?-reindex j [] i op e = absurd cc
get_elem?-reindex j (x ∷ xs) zero op e = index_of (record x { index = j }) e ∙ omega arith
  where
    index_of : (y : CompiledOperation) → some y ≡ some op → op.index ≡ y.index
    index_of y q = cc
get_elem?-reindex j (x ∷ xs) (suc i) op e = omega (arith, get_elem?-reindex (suc j) xs i op e)

compile_routes-index :
    (is_alphanumeric : Char → Bool) (specs : List ApiSpec) (plugins : List PluginBundle)
    (options : CompileOptions) (ops : List CompiledOperation) (i : ℕ) (op : CompiledOperation)
    → compile_routes is_alphanumeric specs plugins options ≡ ok ops
    → get_elem? ops i ≡ some op
    → op.index ≡ i
unfolding compile_routes
compile_routes-index is_alphanumeric specs plugins options ops i op e g =
    of_result (compile_specs is_alphanumeric options _ _ specs begin) e
  where
    of_result : (r : Result Compilation CompileError) → finish r ≡ ok ops → op.index ≡ i
    of_result (err x) e = absurd cc
    of_result (ok c) e =
        get_elem?-reindex 0 (sort_operations c.operations) i op
          (ap (λ l. get_elem? l i) (ok_injective e) ∙ g)
        ∙ omega arith

-- When the compiler accepts specifications and the gateway registers the operations of the artifact,
-- the router holds for each of them, at the shape of its path and its method, the position of that
-- operation in the artifact: none is lost to another. The paths are written canonically (a leading
-- slash, no empty segment, each segment either fixed or one parameter), and the methods are HTTP
-- methods in upper case.
pub compile_routes-register :
    (is_alphanumeric : Char → Bool) (specs : List ApiSpec) (plugins : List PluginBundle)
    (options : CompileOptions) (ops : List CompiledOperation) (router : Router) (i : ℕ)
    (op : CompiledOperation)
    → compile_routes is_alphanumeric specs plugins options ≡ ok ops
    → All Ready ops
    → get_elem? ops i ≡ some op
    → entry_at op (register ops router) ≡ some (record { operation_index = i })
compile_routes-register is_alphanumeric specs plugins options ops router i op e h g =
    get_elem?-All _ ops i op
      (register-keeps ops router
        (compile_routes-AllApart is_alphanumeric specs plugins options ops e) h)
      g
    ∙ ap (λ j. some (record { operation_index = j }))
        (compile_routes-index is_alphanumeric specs plugins options ops i op e g)
