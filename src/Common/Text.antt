-- ===== src/Common/Text.antt =====
-- Text as the standard library's `str` handles it. A `String` is the list of its code points.
use Prim.Native.Char.{Char, code}
use Prim.Native.Nat.{ℕ, suc, ◌-◌, Ordering}
use Prim.Native.String.{String, [], ◌∷◌, ◌++◌ as text_append, compare, char_at}
use mathlib.Core.Path.{◌≡◌, refl, ◌∙◌}
use mathlib.Core.Bool.{Bool, true, false, ◌&&◌, ◌||◌}
use mathlib.Core.Logic.{◌↔◌}
use mathlib.Core.List.{List, [], ◌∷◌, ◌++◌}
use mathlib.Core.Option.{Option, none, some}
use native.Mathlib.Omega.{arith}
use text.Mathlib.Text.{◌==◌ as text_eq}
use text.Mathlib.TextEquality.{eq_iff}
use text.Mathlib.TextPositions.{eq_refl}
use barbacane.Common.Tests.{leb, ◌==◌, if◌then◌else◌}

abbrev pub str_eq : String → String → Bool
str_eq s t = text_eq s t

pub str_eq_iff : (s t : String) → (str_eq s t ≡ true) ↔ (s ≡ t)
str_eq_iff s t = eq_iff s t

pub str_eq_refl : (s : String) → str_eq s s ≡ true
str_eq_refl s = eq_refl s

pub str_eq_comm : (s t : String) → str_eq s t ≡ str_eq t s
str_eq_comm s t = ground (arith, str_eq_iff s t, str_eq_iff t s)

abbrev pub str_empty : String → Bool
str_empty [] = true
str_empty (c ∷ s) = false

abbrev pub push_front : Char → List String → List String
push_front c [] = (c ∷ []) ∷ []
push_front c (p ∷ ps) = (c ∷ p) ∷ ps

-- `str::split` at one character, given by its code.
unfoldable pub split : ℕ → String → List String
split sep [] = [] ∷ []
split sep (c ∷ s) = let rest = split sep s in if code c == sep then [] ∷ rest else push_front c rest

abbrev pub starts_with_char : ℕ → String → Bool
starts_with_char k [] = false
starts_with_char k (c ∷ s) = code c == k

abbrev pub ends_with_char : ℕ → String → Bool
ends_with_char k [] = false
ends_with_char k (c ∷ []) = code c == k
ends_with_char k (c ∷ (d ∷ s)) = ends_with_char k (d ∷ s)

abbrev pub drop_first : String → String
drop_first [] = []
drop_first (c ∷ s) = s

-- `String::pop`.
abbrev pub drop_last : String → String
drop_last [] = []
drop_last (c ∷ []) = []
drop_last (c ∷ (d ∷ s)) = c ∷ drop_last (d ∷ s)

abbrev pub char_count : String → ℕ
char_count [] = 0
char_count (c ∷ s) = suc (char_count s)

abbrev push_before : Char → Option (String × String) → Option (String × String)
push_before c none = none
push_before c (some (before, after)) = some (c ∷ before, after)

-- `str::split_once` at one character.
unfoldable pub split_once : ℕ → String → Option (String × String)
split_once sep [] = none
split_once sep (c ∷ s) =
    let rest = split_once sep s in if code c == sep then some ([], s) else push_before c rest

-- `char::is_whitespace`, by code.
is_whitespace : ℕ → Bool
is_whitespace k =
    (leb 9 k && leb k 13)
    || k == 32
    || k == 133
    || k == 160
    || k == 5760
    || (leb 8192 k && leb k 8202)
    || k == 8232
    || k == 8233
    || k == 8239
    || k == 8287
    || k == 12288

trim_start : String → String
unfolding is_whitespace
trim_start [] = []
trim_start (c ∷ s) = if is_whitespace (code c) then trim_start s else c ∷ s

trim_end : String → String
unfolding is_whitespace
trim_end [] = []
trim_end (c ∷ s) =
    let rest = trim_end s in if is_whitespace (code c) && str_empty rest then [] else c ∷ rest

-- `str::trim`
unfoldable pub trim : String → String
unfolding trim_start trim_end
trim s = trim_end (trim_start s)

-- `Vec<String>::contains`
abbrev pub contains : String → List String → Bool
contains s [] = false
contains s (t ∷ ts) = str_eq t s || contains s ts

abbrev pub upper_case : String
upper_case = "ABCDEFGHIJKLMNOPQRSTUVWXYZ"

abbrev lower_case : String
lower_case = "abcdefghijklmnopqrstuvwxyz"

-- `to_uppercase` and `to_lowercase`, over ASCII: another letter stays as it is.
unfoldable pub char_to_uppercase : Char → Char
char_to_uppercase c =
    if leb b'a' (code c) && leb (code c) b'z' then char_at upper_case (code c - b'a') else c

unfoldable pub to_uppercase : String → String
unfolding char_to_uppercase
to_uppercase [] = []
to_uppercase (c ∷ s) = char_to_uppercase c ∷ to_uppercase s

char_to_lowercase : Char → Char
char_to_lowercase c =
    if leb b'A' (code c) && leb (code c) b'Z' then char_at lower_case (code c - b'A') else c

unfoldable pub to_lowercase : String → String
unfolding char_to_lowercase
to_lowercase [] = []
to_lowercase (c ∷ s) = char_to_lowercase c ∷ to_lowercase s

-- `slice::sort` of texts, by code points.
abbrev pub str_leb : String → String → Bool
str_leb s t = elim (compare s t) [ Ordering.gt ↦ false | _ ↦ true ]

sort_insert : String → List String → List String
sort_insert a [] = a ∷ []
sort_insert a (b ∷ bs) = if str_leb a b then a ∷ (b ∷ bs) else b ∷ sort_insert a bs

unfoldable pub sort : List String → List String
unfolding sort_insert
sort [] = []
sort (a ∷ rest) = sort_insert a (sort rest)

contains-sort_insert :
    (s a : String) (bs : List String)
    → contains s (sort_insert a bs) ≡ (str_eq a s || contains s bs)
unfolding sort_insert
contains-sort_insert s a [] = refl
contains-sort_insert s a (b ∷ bs) = ground (arith, contains-sort_insert s a bs)

pub contains-sort : (s : String) (bs : List String) → contains s (sort bs) ≡ contains s bs
unfolding sort
contains-sort s [] = refl
contains-sort s (b ∷ bs) = contains-sort_insert s b (sort bs) ∙ rw (contains-sort s bs)

pub contains-append :
    (g : String) (xs ys : List String) → contains g (xs ++ ys) ≡ (contains g xs || contains g ys)
contains-append g [] ys = refl
contains-append g (x ∷ xs) ys = ground (arith, contains-append g xs ys)

-- `[&str]::join`.
unfoldable pub join : String → List String → String
join sep [] = []
join sep (s ∷ []) = s
join sep (s ∷ (t ∷ ts)) = text_append s (text_append sep (join sep (t ∷ ts)))
