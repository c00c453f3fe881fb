-- ===== src/Compiler/Routes/Distinct.antt =====
-- crates/barbacane-compiler/src/artifact.rs: what the checks for conflicts and for ambiguous routes leave.
use barbacane.Common.{
  String, ◌≡◌, refl, sym, ap, ◌∙◌, subst, true, false, List, [], ◌∷◌, ◌++◌, Option, none, some, All,
  All-append, All-implies, str_eq, str_eq_iff, str_eq_refl, str_eq_comm, Bool-cases, inl, inr,
  arith, lookup,
}
use barbacane.Common.Results.{Result, ok, err}
use barbacane.Compiler.Errors.{CompileError}
use barbacane.Compiler.Specs.{Operation, CompiledOperation}
use barbacane.Compiler.Templates.{normalize_path_template}
use barbacane.Compiler.Operations.{
  Pairs, same_pair, get_pair, Compilation, try_then, check_operation_id, seen_operation_id,
  check_route, seen_route, check_structure, seen_structure, record_structure,
}

abbrev pub structure : CompiledOperation → String × String
structure op = (normalize_path_template op.path, op.method)

-- Another structure or another method.
abbrev pub Apart : CompiledOperation → CompiledOperation → Type 0
Apart a b = same_pair (structure a) (structure b) ≡ false

abbrev pub AllApart : List CompiledOperation → Type 0
AllApart [] = Unit
AllApart (op ∷ ops) = All (Apart op) ops × AllApart ops

pub Apart-sym : (a b : CompiledOperation) → Apart a b → Apart b a
Apart-sym a b h =
    rw (str_eq_comm (normalize_path_template b.path) _, str_eq_comm b.method a.method) h

pub AllApart-append :
    (ops : List CompiledOperation) (op : CompiledOperation)
    → AllApart ops
    → All (λ e. Apart e op) ops
    → AllApart (ops ++ op ∷ [])
AllApart-append [] op h g = (tt, tt)
AllApart-append (e ∷ ops) op h g =
    (All-append (Apart e) ops (op ∷ []) h.0 (g.0, tt), AllApart-append ops op h.1 g.1)

pub try_then_parts :
    {A B : Type 0} (r : Result A CompileError) (go : A → Result B CompileError) (b : B)
    → try_then r go ≡ ok b
    → (a : A) × (r ≡ ok a) × (go a ≡ ok b)
try_then_parts (err x) go b e = cc
try_then_parts (ok a) go b e = (a, refl, e)

abbrev pub accept : {A : Type 0} → A → Result A CompileError
accept a = ok a

pub ok_injective : {A : Type 0} {a b : A} → accept a ≡ ok b → a ≡ b
ok_injective e = cc

-- An operation's route and structure are in the maps, the structure with the operation's path.
abbrev pub Recorded : Compilation → CompiledOperation → Type 0
Recorded c op =
    ((s : String) × (get_pair (op.path, op.method) c.seen_routes ≡ some s))
    × ((s : String) × (get_pair (structure op) c.seen_structural ≡ some (op.path, s)))

abbrev pub Inv : Compilation → Type 0
Inv c = All (Recorded c) c.operations × AllApart c.operations

pub check_operation_id-Inv :
    (location : String) (id : Option String) (c c' : Compilation)
    → check_operation_id location id c ≡ ok c'
    → Inv c
    → Inv c'
check_operation_id-Inv location none c c' e h = subst Inv (ok_injective e) h
check_operation_id-Inv location (some op_id) c c' e h =
    at_found (lookup op_id c.seen_operation_ids) e
  where
    at_found : (o : Option String) → seen_operation_id op_id location o c ≡ ok c' → Inv c'
    at_found none e = subst Inv (ok_injective e) h
    at_found (some first) e = absurd cc

same_pair_refl : (k : String × String) → same_pair k k ≡ true
same_pair_refl (a, b) = rw (str_eq_refl a, str_eq_refl b) refl

same_pair-eq : (k l : String × String) → same_pair k l ≡ true → k ≡ l
same_pair-eq (a, b) (c, d) h = ground (arith, str_eq_iff a c, str_eq_iff b d)

-- An operation that is about to be pushed has its own route and structure in the maps.
abbrev pub Pending : Operation → Compilation → Type 0
Pending op c =
    Inv c
    × ((s : String) × (get_pair (op.path, op.method) c.seen_routes ≡ some s))
    × ((s : String) × (get_pair (normalize_path_template op.path, op.method) c.seen_structural
          ≡ some (op.path, s)))
    × All (λ e. same_pair (structure e) (normalize_path_template op.path, op.method) ≡ false)
        c.operations

get_pair-cons_same :
    {V : Type 0} (k : String × String) (v : V) (m : Pairs V) → get_pair k ((k, v) ∷ m) ≡ some v
unfolding get_pair
get_pair-cons_same k v m = rw (same_pair_refl k) refl

get_pair-cons_other :
    {V : Type 0} (k l : String × String) (v : V) (m : Pairs V)
    → same_pair l k ≡ false
    → get_pair k ((l, v) ∷ m) ≡ get_pair k m
unfolding get_pair
get_pair-cons_other k l v m h = rw h refl

get_pair-cons_some :
    {V : Type 0} (k l : String × String) (v w : V) (m : Pairs V)
    → get_pair k m ≡ some w
    → (x : V) × (get_pair k ((l, v) ∷ m) ≡ some x)
unfolding get_pair
get_pair-cons_some k l v w m h = elim (Bool-cases (same_pair l k)) [
  | inl e ↦ (v, rw e refl)
  | inr e ↦ (w, rw (e, h) refl)
]

pub check_route_parts :
    (spec_file : String) (op : Operation) (c c' : Compilation)
    → check_route spec_file op c ≡ ok c'
    → (get_pair (op.path, op.method) c.seen_routes ≡ none)
      × (c' ≡ record c { seen_routes = ((op.path, op.method), spec_file) ∷ c.seen_routes })
check_route_parts spec_file op c c' e = at_found (get_pair (op.path, op.method) c.seen_routes) e
  where
    at_found :
        (o : Option String)
        → seen_route spec_file op o c ≡ ok c'
        → (o ≡ none)
          × (c' ≡ record c { seen_routes = ((op.path, op.method), spec_file) ∷ c.seen_routes })
    at_found none e = (refl, sym (ok_injective e))
    at_found (some other) e = absurd cc

pub check_structure_parts :
    (spec_file : String) (op : Operation) (c c' : Compilation)
    → check_structure spec_file op c ≡ ok c'
    → ((path s : String)
        → get_pair (normalize_path_template op.path, op.method) c.seen_structural ≡ some (path, s)
        → path ≡ op.path)
      × (c' ≡ record_structure spec_file op c)
check_structure_parts spec_file op c c' e =
    at_found (get_pair (normalize_path_template op.path, op.method) c.seen_structural) e
  where
    at_found :
        (o : Option (String × String))
        → seen_structure spec_file op o c ≡ ok c'
        → ((path s : String) → o ≡ some (path, s) → path ≡ op.path)
          × (c' ≡ record_structure spec_file op c)
    at_found none e = (λ path s q. absurd cc, sym (ok_injective e))
    at_found (some (other, t)) e = elim (Bool-cases (str_eq other op.path)) [
      | inl q ↦
          (λ path s p. cc (p, (str_eq_iff other op.path).0 q), sym (ok_injective (simp q at e)))
      | inr q ↦ absurd (cc (simp q at e))
    ]

module _ (spec_file : String) (op : Operation) (c : Compilation)
    (new : get_pair (op.path, op.method) c.seen_routes ≡ none)
    (own : (path s : String)
      → get_pair (normalize_path_template op.path, op.method) c.seen_structural ≡ some (path, s)
      → path ≡ op.path) where
  abbrev key : String × String
  key = (normalize_path_template op.path, op.method)

  abbrev after : Compilation
  after =
      record_structure spec_file op
        (record c { seen_routes = ((op.path, op.method), spec_file) ∷ c.seen_routes })

  Recorded-not_same : (e : CompiledOperation) → Recorded c e → same_pair (structure e) key ≡ false
  Recorded-not_same e r = elim (Bool-cases (same_pair (structure e) key)) [
    | inl q ↦ absurd (clash (same_pair-eq (structure e) key q))
    | inr q ↦ q
  ]
    where
      clash : structure e ≡ key → ⊥
      clash k = none_or_some (sym new ∙ route ∙ r.0.1)
        where
          path_eq : e.path ≡ op.path
          path_eq = own e.path r.1.0 (ap (λ x. get_pair x c.seen_structural) (sym k) ∙ r.1.1)

          route :
              get_pair (op.path, op.method) c.seen_routes
              ≡ get_pair (e.path, e.method) c.seen_routes
          route = rw (path_eq, ap (λ x. x.1) k) refl

          none_or_some : {s : String} → none ≡ some s → ⊥
          none_or_some q = cc

  Recorded-after : (e : CompiledOperation) → Recorded c e → Recorded after e
  Recorded-after e r = (
    get_pair-cons_some (e.path, e.method) (op.path, op.method) spec_file r.0.0 c.seen_routes r.0.1,
    (
      r.1.0,
      get_pair-cons_other (structure e) key (op.path, spec_file) c.seen_structural
            (rw (str_eq_comm (normalize_path_template op.path) _, str_eq_comm op.method e.method)
              (Recorded-not_same e r))
          ∙ r.1.1,
    ),
  )

  pub after-Pending : Inv c → Pending op after
  after-Pending h = (
    (All-implies (Recorded c) (Recorded after) Recorded-after c.operations h.0, h.1),
    (spec_file, get_pair-cons_same (op.path, op.method) spec_file c.seen_routes),
    (spec_file, get_pair-cons_same key (op.path, spec_file) c.seen_structural),
    All-implies (Recorded c) _ Recorded-not_same c.operations h.0,
  )

pub checks-Pending :
    (spec_file : String) (op : Operation) (c c₂ c₃ : Compilation)
    → check_route spec_file op c ≡ ok c₂
    → check_structure spec_file op c₂ ≡ ok c₃
    → Inv c
    → Pending op c₃
checks-Pending spec_file op c c₂ c₃ e f h =
    (let route = check_route_parts spec_file op c c₂ e in
      let own = check_structure_parts spec_file op c₂ c₃ f in
      rw own.1 (
        rw route.1
          (after-Pending spec_file op c route.0 (λ path s q. own.0 path s (rw route.1 q)) h)))
