-- ===== src/Compiler/Refs/Objects.antt =====
-- A property of every object of a JSON value holds in every value that a reference leads to.
use barbacane.Common.{String, ◌≡◌, subst, List, [], ◌∷◌, Option, none, some, split, arith}
use barbacane.Common.Json.{
  Value, null, bool, number, string, array, object, Values, no_value, value, Fields, no_field,
  field, get_key, get_field, strip_prefix,
}
use barbacane.Compiler.Refs.{walk_pointer, resolve_ref, resolve_path, get_rest}

abbrev IfSome : (Value → Type 0) → Option Value → Type 0
IfSome P none = Unit
IfSome P (some v) = P v

IfSome-some : (P : Value → Type 0) (o : Option Value) (v : Value) → IfSome P o → o ≡ some v → P v
IfSome-some P o v h e = subst (IfSome P) e h

module _ (P : Fields → Type 0) where
  unfoldable mutual
    pub Every : Value → Type 0
    Every null = Unit
    Every (bool b) = Unit
    Every (number n) = Unit
    Every (string s) = Unit
    Every (array vs) = EveryItem vs
    Every (object fs) = P fs × EveryField fs

    pub EveryItem : Values → Type 0
    EveryItem no_value = Unit
    EveryItem (value v vs) = Every v × EveryItem vs

    pub EveryField : Fields → Type 0
    EveryField no_field = Unit
    EveryField (field k v fs) = Every v × EveryField fs

  get_field-Every : (k : String) (fs : Fields) → EveryField fs → IfSome Every (get_field k fs)
  unfolding Every get_field
  get_field-Every k no_field h = tt
  get_field-Every k (field i v fs) h = ground (arith, get_field-Every k fs h.1)

  get_key-Every : (k : String) (v : Value) → Every v → IfSome Every (get_key k v)
  unfolding Every
  get_key-Every k (object fs) h = get_field-Every k fs h.1
  get_key-Every k null h = tt
  get_key-Every k (bool b) h = tt
  get_key-Every k (number n) h = tt
  get_key-Every k (string s) h = tt
  get_key-Every k (array vs) h = tt

  get_rest-Every :
      (go : Value → Option Value)
      → ((v : Value) → Every v → IfSome Every (go v))
      → (o : Option Value) → IfSome Every o
      → IfSome Every (get_rest go o)
  get_rest-Every go h none p = tt
  get_rest-Every go h (some v) p = h v p

  walk_pointer-Every :
      (segments : List String) (v : Value) → Every v → IfSome Every (walk_pointer segments v)
  unfolding walk_pointer
  walk_pointer-Every [] v h = h
  walk_pointer-Every (segment ∷ segments) v h =
      get_rest-Every (walk_pointer segments) (walk_pointer-Every segments) _ (get_key-Every _ v h)

  resolve_path-Every :
      (root : Value) (o : Option String) → Every root → IfSome Every (resolve_path root o)
  resolve_path-Every root none h = tt
  resolve_path-Every root (some rest) h = walk_pointer-Every (split b'/' rest) root h

  pub resolve_ref-Every :
      (root target : Value) (ref_path : String)
      → Every root
      → resolve_ref root ref_path ≡ some target
      → Every target
  unfolding resolve_ref
  resolve_ref-Every root target ref_path h e =
      IfSome-some Every _ target (resolve_path-Every root (strip_prefix "#/" ref_path) h) e
