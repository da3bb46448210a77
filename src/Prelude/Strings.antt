-- ===== src/Prelude/Strings.antt =====
-- Go's `string` as its list of code points (the texts are valid UTF-8), and the functions of the
-- package strings that the program calls.
pub mod Laws
use Prim.Native.Nat.{ℕ}
use Prim.Native.Char.{code}
use Prim.Native.String.{String}
use mathlib.Core.Bool.{Bool, true, false, ◌&&◌, ◌||◌}
use mathlib.Core.List.{List, [], ◌∷◌, ◌++◌}
use dns_box.Prelude.Tests.{◌==◌, leb, if◌then◌else◌}

abbrev pub Text : Type 0
Text = List ℕ

-- The text of a literal.
abbrev pub codes : String → Text
codes String.[] = []
codes (String.◌∷◌ c s) = code c ∷ codes s

-- `s == t`
unfoldable pub text_eq : Text → Text → Bool
text_eq [] [] = true
text_eq (a ∷ s) (b ∷ t) = a == b && text_eq s t
text_eq [] (b ∷ t) = false
text_eq (a ∷ s) [] = false

-- strings.HasPrefix(s, p)
unfoldable pub has_prefix : Text → Text → Bool
has_prefix s [] = true
has_prefix [] (b ∷ p) = false
has_prefix (a ∷ s) (b ∷ p) = a == b && has_prefix s p

-- The text behind a prefix of the same length as `p`.
abbrev pub after : Text → Text → Text
after s [] = s
after [] (b ∷ p) = []
after (a ∷ s) (b ∷ p) = after s p

-- strings.TrimPrefix(s, p)
unfoldable pub trim_prefix : Text → Text → Text
unfolding has_prefix
trim_prefix s p = if has_prefix s p then after s p else s

-- strings.Contains(s, sub)
unfoldable pub contains_text : Text → Text → Bool
unfolding has_prefix
contains_text [] sub = has_prefix [] sub
contains_text (a ∷ s) sub = has_prefix (a ∷ s) sub || contains_text s sub

-- strings.TrimSuffix(s, c) for a text `c` of one character
unfoldable pub trim_suffix : Text → ℕ → Text
trim_suffix [] c = []
trim_suffix (x ∷ []) c = if x == c then [] else x ∷ []
trim_suffix (x ∷ y ∷ s) c = x ∷ trim_suffix (y ∷ s) c

-- Puts a character before the first part.
abbrev pub push : ℕ → List Text → List Text
push x [] = (x ∷ []) ∷ []
push x (w ∷ ws) = (x ∷ w) ∷ ws

-- strings.Split(s, c) for a separator `c` of one character
unfoldable pub split : Text → ℕ → List Text
split [] c = [] ∷ []
split (x ∷ s) c = let rest = split s c in if x == c then [] ∷ rest else push x rest

-- strings.Join(parts, c) for a separator `c` of one character
unfoldable pub join : List Text → ℕ → Text
join [] c = []
join (w ∷ []) c = w
join (w ∷ v ∷ ws) c = w ++ (c ∷ join (v ∷ ws) c)

-- unicode.IsSpace
unfoldable pub is_space : ℕ → Bool
is_space c =
    leb 9 c && leb c 13
    || c == 32
    || c == 0x85
    || c == 0xa0
    || c == 0x1680
    || leb 0x2000 c && leb c 0x200a
    || c == 0x2028
    || c == 0x2029
    || c == 0x202f
    || c == 0x205f
    || c == 0x3000

trim_left : Text → Text
unfolding is_space
trim_left [] = []
trim_left (x ∷ s) = let rest = trim_left s in if is_space x then rest else x ∷ s

is_empty : Text → Bool
is_empty [] = true
is_empty (x ∷ s) = false

trim_right : Text → Text
unfolding is_space is_empty
trim_right [] = []
trim_right (x ∷ s) = let rest = trim_right s in if is_space x && is_empty rest then [] else x ∷ rest

-- strings.TrimSpace
unfoldable pub trim_space : Text → Text
unfolding trim_left trim_right
trim_space s = trim_right (trim_left s)

-- The parts between white space.
split_space : Text → List Text
unfolding is_space
split_space [] = [] ∷ []
split_space (x ∷ s) = let rest = split_space s in if is_space x then [] ∷ rest else push x rest

keep_words : List Text → List Text
unfolding is_empty
keep_words [] = []
keep_words (w ∷ ws) = let rest = keep_words ws in if is_empty w then rest else w ∷ rest

-- strings.Fields
unfoldable pub fields : Text → List Text
unfolding split_space keep_words
fields s = keep_words (split_space s)
