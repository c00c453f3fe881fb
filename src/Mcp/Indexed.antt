-- ===== src/Mcp/Indexed.antt =====
-- crates/barbacane/src/mcp/mod.rs and tools.rs: the tools of the operations, and the index of their names.
use Prim.Native.Nat.{zero, suc}
use barbacane.Common.{
  ℕ, String, ◌+◌, ◌≡◌, refl, sym, ◌∙◌, subst, ap, Bool, true, false, List, [], ◌∷◌, ◌++◌, Option,
  none, some, get_elem?, Dict, lookup, insert, lookup-insert, Memᴰ, str_eq, str_eq_iff, Bool-cases,
  inl, inr, arith,
}
use barbacane.Compiler.Specs.{CompiledOperation}
use barbacane.Mcp.Arguments.{ToolEntry}
use barbacane.Mcp.Tools.{generate_tools, tool_of, tool_entry}
use barbacane.Mcp.Server.{index_tools}

-- The tool at a position has the name.
pub record IsNamed (entries : List ToolEntry) (name : String) (i : ℕ) : Type 0 where
  pub entry : ToolEntry
  pub at : get_elem? entries i ≡ some entry
  pub name_eq : entry.tool.name ≡ name

module _ (P : String → ℕ → Type 0) where
  abbrev Holds : Dict ℕ → Type 0
  Holds index = (name : String) (i : ℕ) → lookup name index ≡ some i → P name i

  insert-Holds :
      (name : String) (k : ℕ) (index : Dict ℕ)
      → P name k
      → Holds index
      → Holds (insert name k index)
  insert-Holds name k index p h other i e = elim (Bool-cases (str_eq name other)) [
    | inl q ↦
        let found : lookup other (insert name k index) ≡ some k =
          lookup-insert name other k index ∙ rw q refl in
        let same : k ≡ i = some_eq (sym found ∙ e) in
        subst (λ n. P n i) ((str_eq_iff name other).0 q) (subst (P name) same p)
    | inr q ↦
        let kept : lookup other (insert name k index) ≡ lookup other index =
          lookup-insert name other k index ∙ rw q refl in
        h other i (sym kept ∙ e)
  ]
    where
      some_eq : some k ≡ some i → k ≡ i
      some_eq x = cc

  index_tools-Holds :
      (k : ℕ) (entries : List ToolEntry) (index : Dict ℕ)
      → ((j : ℕ) (e : ToolEntry) → get_elem? entries j ≡ some e → P e.tool.name (j + k))
      → Holds index
      → Holds (index_tools k entries index)
  index_tools-Holds k [] index step h = h
  index_tools-Holds k (x ∷ entries) index step h =
      index_tools-Holds (suc k) entries (insert x.tool.name k index)
        (λ j e q. subst (P e.tool.name) (omega arith) (step (suc j) e q))
        (insert-Holds x.tool.name k index (subst (P x.tool.name) (omega arith) (step zero x refl))
          h)

-- What the index gives for a name is the position of a tool of that name.
pub index_tools-IsNamed :
    (entries : List ToolEntry) (name : String) (i : ℕ)
    → lookup name (index_tools zero entries []) ≡ some i
    → IsNamed entries name i
unfolding lookup
index_tools-IsNamed entries =
    index_tools-Holds (IsNamed entries) zero entries []
      (λ j e q. record {
        entry = e;
        at = subst (λ n. get_elem? entries n ≡ some e) (omega arith) q;
        name_eq = refl;
      })
      (λ name i e. absurd cc)

abbrev IsIndexed : String → Dict ℕ → Type 0
IsIndexed name index = (i : ℕ) × (lookup name index ≡ some i)

insert-IsIndexed :
    (name other : String) (k : ℕ) (index : Dict ℕ)
    → IsIndexed name index
    → IsIndexed name (insert other k index)
insert-IsIndexed name other k index (i, e) = elim (Bool-cases (str_eq other name)) [
  | inl q ↦ (k, lookup-insert other name k index ∙ rw q refl)
  | inr q ↦ (i, lookup-insert other name k index ∙ rw q e)
]

index_tools-IsIndexed :
    (name : String) (k : ℕ) (entries : List ToolEntry) (index : Dict ℕ)
    → IsIndexed name index
    → IsIndexed name (index_tools k entries index)
index_tools-IsIndexed name k [] index h = h
index_tools-IsIndexed name k (x ∷ entries) index h =
    index_tools-IsIndexed name (suc k) entries (insert x.tool.name k index)
      (insert-IsIndexed name x.tool.name k index h)

-- The index has the name of every tool.
pub index_tools_complete :
    (entry : ToolEntry) (k : ℕ) (entries : List ToolEntry) (index : Dict ℕ)
    → Memᴰ entry entries
    → IsIndexed entry.tool.name (index_tools k entries index)
index_tools_complete entry k [] index h = elim h [ ]
index_tools_complete entry k (x ∷ entries) index (Memᴰ.head p) =
    index_tools-IsIndexed entry.tool.name (suc k) entries (insert x.tool.name k index)
      (k, lookup-insert x.tool.name entry.tool.name k index ∙ rw (same_name) refl)
  where
    same_name : str_eq x.tool.name entry.tool.name ≡ true
    same_name = (str_eq_iff x.tool.name entry.tool.name).1 (ap (λ e. e.tool.name) (sym p))
index_tools_complete entry k (x ∷ entries) index (Memᴰ.tail h) =
    index_tools_complete entry (suc k) entries (insert x.tool.name k index) h

-- The operation that a tool is made of.
pub record IsToolOf (operations : List CompiledOperation) (entry : ToolEntry) : Type 0 where
  pub op : CompiledOperation
  pub compiled : Memᴰ op operations
  pub enabled : op.mcp_enabled ≡ some true
  pub named : op.operation_id ≡ some entry.tool.name
  pub index_eq : op.index ≡ entry.operation_index
  pub path_eq : op.path ≡ entry.path

tool_of-IsToolOf :
    (op : CompiledOperation) (ops : List CompiledOperation) (entry : ToolEntry)
    (rest : List ToolEntry) (enabled : Option Bool) (name : Option String)
    → op.mcp_enabled ≡ enabled
    → op.operation_id ≡ name
    → (Memᴰ entry rest → IsToolOf (op ∷ ops) entry)
    → Memᴰ entry (tool_of op enabled name ++ rest)
    → IsToolOf (op ∷ ops) entry
tool_of-IsToolOf op ops entry rest none name e n k h = k h
tool_of-IsToolOf op ops entry rest (some false) name e n k h = k h
tool_of-IsToolOf op ops entry rest (some true) none e n k h = k h
tool_of-IsToolOf op ops entry rest (some true) (some name) e n k (Memᴰ.tail h) = k h
tool_of-IsToolOf op ops entry rest (some true) (some name) e n k (Memᴰ.head p) = record {
  op = op;
  compiled = Memᴰ.head refl;
  enabled = e;
  named = rw p n;
  index_eq = rw p refl;
  path_eq = rw p refl;
}

pub generate_tools-IsToolOf :
    (ops : List CompiledOperation) (entry : ToolEntry)
    → Memᴰ entry (generate_tools ops)
    → IsToolOf ops entry
unfolding generate_tools
generate_tools-IsToolOf [] entry h = elim h [ ]
generate_tools-IsToolOf (op ∷ ops) entry h =
    tool_of-IsToolOf op ops entry (generate_tools ops) op.mcp_enabled op.operation_id refl refl
      (λ g. later (generate_tools-IsToolOf ops entry g)) h
  where
    later : IsToolOf ops entry → IsToolOf (op ∷ ops) entry
    later x = record {
      op = x.op;
      compiled = Memᴰ.tail x.compiled;
      enabled = x.enabled;
      named = x.named;
      index_eq = x.index_eq;
      path_eq = x.path_eq;
    }

skip-Memᴰ : (entry : ToolEntry) (xs ys : List ToolEntry) → Memᴰ entry ys → Memᴰ entry (xs ++ ys)
skip-Memᴰ entry [] ys h = h
skip-Memᴰ entry (x ∷ xs) ys h = Memᴰ.tail (skip-Memᴰ entry xs ys h)

-- Every operation that is enabled and has an id is a tool of that name.
pub generate_tools_complete :
    (ops : List CompiledOperation) (op : CompiledOperation) (name : String)
    → Memᴰ op ops
    → op.mcp_enabled ≡ some true
    → op.operation_id ≡ some name
    → Memᴰ (tool_entry op name) (generate_tools ops)
unfolding generate_tools
generate_tools_complete [] op name h e n = elim h [ ]
generate_tools_complete (o ∷ ops) op name (Memᴰ.tail h) e n =
    skip-Memᴰ (tool_entry op name) (tool_of o o.mcp_enabled o.operation_id) (generate_tools ops)
      (generate_tools_complete ops op name h e n)
generate_tools_complete (o ∷ ops) op name (Memᴰ.head p) e n =
    subst
      (λ x.
        Memᴰ (tool_entry op name) (tool_of x x.mcp_enabled x.operation_id ++ generate_tools ops))
      p (rw (e, n) (Memᴰ.head refl))
