-- ===== src/Router/Normalize.antt =====
-- crates/barbacane/src/router/trie.rs: what `normalize_path` leaves of a path.
use Prim.Native.String.{[], ◌∷◌}
use Prim.Native.Char.{Char, code}
use barbacane.Common.{
  String, ◌≡◌, refl, ap, sym, ◌∙◌, Bool, true, false, not, List, [], ◌∷◌, ◌==◌, inl, inr,
  Bool-cases, arith, retain, split, str_empty, push_front, ends_with_char, drop_last, ltb,
  char_count, ◌&&◌, and-eq-true,
}
use barbacane.Router.Path.{split_path, collapse, strip_trailing, or_root, normalize_path}

-- The text before the first slash, and the pieces behind it that are not empty.
abbrev first_piece : List String → String
first_piece [] = []
first_piece (p ∷ ps) = p

abbrev rest_pieces : List String → List String
rest_pieces [] = []
rest_pieces (p ∷ ps) = retain (λ s. not (str_empty s)) ps

abbrev nonempty : List String → List String
nonempty = retain (λ s. not (str_empty s))

record SamePieces (s t : String) : Type 0 where
  first : first_piece (split b'/' s) ≡ first_piece (split b'/' t)
  rest : rest_pieces (split b'/' s) ≡ rest_pieces (split b'/' t)

nonempty-push_front :
    (c : Char) (ps : List String)
    → nonempty (push_front c ps) ≡ (c ∷ first_piece ps) ∷ rest_pieces ps
nonempty-push_front c [] = refl
nonempty-push_front c (p ∷ ps) = refl

first_piece-push_front :
    (c : Char) (ps : List String) → first_piece (push_front c ps) ≡ c ∷ first_piece ps
first_piece-push_front c [] = refl
first_piece-push_front c (p ∷ ps) = refl

rest_pieces-push_front :
    (c : Char) (ps : List String) → rest_pieces (push_front c ps) ≡ rest_pieces ps
rest_pieces-push_front c [] = refl
rest_pieces-push_front c (p ∷ ps) = refl

abbrev join_pieces : String → List String → List String
join_pieces [] ps = ps
join_pieces (c ∷ s) ps = (c ∷ s) ∷ ps

nonempty_pieces : (ps : List String) → nonempty ps ≡ join_pieces (first_piece ps) (rest_pieces ps)
nonempty_pieces [] = refl
nonempty_pieces ([] ∷ ps) = refl
nonempty_pieces ((c ∷ s) ∷ ps) = refl

split_path-SamePieces : (s t : String) → SamePieces s t → split_path s ≡ split_path t
split_path-SamePieces s t h =
    nonempty_pieces (split b'/' s) ∙ rw (h.first, h.rest) (sym (nonempty_pieces (split b'/' t)))

split_slash :
    (c : Char) (s : String) → (code c == b'/') ≡ true → split b'/' (c ∷ s) ≡ [] ∷ split b'/' s
unfolding split
split_slash c s e = ground arith

split_other :
    (c : Char) (s : String)
    → (code c == b'/') ≡ false
    → split b'/' (c ∷ s) ≡ push_front c (split b'/' s)
unfolding split
split_other c s e = ground arith

collapse_slash :
    (c : Char) (s : String) → (code c == b'/') ≡ true → collapse false (c ∷ s) ≡ c ∷ collapse true s
unfolding collapse
collapse_slash c s e = ground arith

collapse_slashes :
    (c : Char) (s : String) → (code c == b'/') ≡ true → collapse true (c ∷ s) ≡ collapse true s
unfolding collapse
collapse_slashes c s e = ground arith

collapse_other :
    (b : Bool) (c : Char) (s : String)
    → (code c == b'/') ≡ false
    → collapse b (c ∷ s) ≡ c ∷ collapse false s
unfolding collapse
collapse_other b c s e = ground arith

split_path_slash :
    (c : Char) (s : String) → (code c == b'/') ≡ true → split_path (c ∷ s) ≡ split_path s
split_path_slash c s e = rw (split_slash c s e)

SamePieces-cons_slash :
    (c : Char) (s t : String)
    → (code c == b'/') ≡ true
    → split_path s ≡ split_path t
    → SamePieces (c ∷ s) (c ∷ t)
SamePieces-cons_slash c s t e h = record {
  first = rw (split_slash c s e, split_slash c t e);
  rest = rw (split_slash c s e, split_slash c t e) h;
}

SamePieces-cons_other :
    (c : Char) (s t : String)
    → (code c == b'/') ≡ false
    → SamePieces s t
    → SamePieces (c ∷ s) (c ∷ t)
SamePieces-cons_other c s t e h = record {
  first =
      rw (split_other c s e, split_other c t e, first_piece-push_front, first_piece-push_front)
        (ap (◌∷◌ c) h.first);
  rest =
      rw (split_other c s e, split_other c t e, rest_pieces-push_front, rest_pieces-push_front)
        h.rest;
}

record Collapsed (s : String) : Type 0 where
  pieces : SamePieces (collapse false s) s
  path : split_path (collapse true s) ≡ split_path s

collapse-Collapsed : (s : String) → Collapsed s
collapse-Collapsed [] =
    unfold collapse split in record { pieces = record { first = refl; rest = refl }; path = refl }
collapse-Collapsed (c ∷ s) =
    let ih = collapse-Collapsed s in
    elim (Bool-cases (code c == b'/')) [
      | inl e ↦ record {
        pieces = rw (collapse_slash c s e) (SamePieces-cons_slash c _ s e ih.path);
        path = rw (collapse_slashes c s e, split_path_slash c s e) ih.path;
      }
      | inr e ↦
          let same = SamePieces-cons_other c (collapse false s) s e ih.pieces in
          record {
            pieces = rw (collapse_other false c s e) same;
            path = rw (collapse_other true c s e) (split_path-SamePieces _ _ same);
          }
    ]

drop_last-SamePieces : (s : String) → ends_with_char b'/' s ≡ true → SamePieces (drop_last s) s
drop_last-SamePieces [] e = cc
drop_last-SamePieces (c ∷ []) e = record {
  first = rw (split_slash c [] e) (unfold split in refl);
  rest = rw (split_slash c [] e) (unfold split in refl);
}
drop_last-SamePieces (c ∷ (d ∷ s)) e =
    let ih = drop_last-SamePieces (d ∷ s) e in
    elim (Bool-cases (code c == b'/')) [
      | inl slash ↦ SamePieces-cons_slash c _ _ slash (split_path-SamePieces _ _ ih)
      | inr other ↦ SamePieces-cons_other c _ _ other ih
    ]

split_path-strip_trailing : (s : String) → split_path (strip_trailing s) ≡ split_path s
unfolding strip_trailing
split_path-strip_trailing s = elim (Bool-cases (ltb 1 (char_count s) && ends_with_char b'/' s)) [
  | inl e ↦ rw e (
      split_path-SamePieces _ _ (drop_last-SamePieces s (and-eq-true (ltb 1 (char_count s)) _ e).1))
  | inr e ↦ rw e
]

split_path-or_root : (s : String) → split_path (or_root s) ≡ split_path s
unfolding or_root split
split_path-or_root [] = refl
split_path-or_root (c ∷ s) = refl

-- A request path keeps its segments when it is normalised: runs of slashes and a trailing slash
-- bound no segment.
pub split_path-normalize_path : (path : String) → split_path (normalize_path path) ≡ split_path path
unfolding normalize_path or_root
split_path-normalize_path path =
    split_path-or_root (strip_trailing (collapse false path))
    ∙ split_path-strip_trailing (collapse false path)
    ∙ split_path-SamePieces _ _ (collapse-Collapsed path).pieces
