-- ===== src/Router/Path.antt =====
-- crates/barbacane/src/router/trie.rs: path templates and the normalisation of request paths.
use Prim.Native.String.{[], ◌∷◌}
use Prim.Native.Char.{code}
use barbacane.Common.{
  String, Bool, false, not, ◌&&◌, List, map, ltb, ◌==◌, if◌then◌else◌, retain, split, str_empty,
  starts_with_char, ends_with_char, drop_first, drop_last, char_count,
}

pub data Segment : Type 0 where
  static : String → Segment
  param : String → Segment
  wildcard : String → Segment

-- The closure of `parse_path_template`, on the text between two slashes.
unfoldable pub parse_segment : String → Segment
parse_segment s =
    if starts_with_char b'{' s && ends_with_char b'}' s
    then (let inner = drop_last (drop_first s) in
        if ends_with_char b'+' inner then wildcard (drop_last inner) else param inner)
    else static s

-- `split('/').filter(|s| !s.is_empty())`
abbrev pub split_path : String → List String
split_path path = retain (λ s. not (str_empty s)) (split b'/' path)

unfoldable pub parse_path_template : String → List Segment
parse_path_template path = map parse_segment (split_path path)

-- The loop over the characters of a path; what it pushes is the head of the result.
unfoldable pub collapse : Bool → String → String
collapse prev_slash [] = []
collapse prev_slash (ch ∷ s) =
    let rest = collapse (code ch == b'/') s in
    if code ch == b'/' && prev_slash then rest else ch ∷ rest

-- A text that ends in a slash is longer than one byte when it has more than one character.
unfoldable pub strip_trailing : String → String
strip_trailing s = if ltb 1 (char_count s) && ends_with_char b'/' s then drop_last s else s

unfoldable pub or_root : String → String
or_root normalized = if str_empty normalized then "/" else normalized

unfoldable pub normalize_path : String → String
unfolding collapse strip_trailing or_root
normalize_path path = or_root (strip_trailing (collapse false path))
