-- ===== src/Text.antt =====
-- The functions of Go's packages strings and unicode that the program calls, and
-- NormalizeHumanName of internal/domain/normalize.go.
-- A string is its characters; Go strings that are not UTF-8 are left out. The tables of package
-- unicode that map a character to lower case, and to the representative of its class under simple
-- case folding, are a parameter.
pub mod Words
pub mod Folding
mod Examples
use Prim.Native.Char.{Char, code}
use Prim.Native.String.{[] as ε, ◌∷◌ as ◌▹◌, ◌++◌ as ◌·◌, count}
use Prim.Native.String.{compare}
use text.Mathlib.Text.{is_lt}
use eastbay_overland_rally_p.Prelude.{
  ℕ, String, Bool, true, false, List, [], ◌∷◌, ◌||◌, ◌&&◌, leb, ◌==◌, nat_eq, string_eq,
  if◌then◌else◌,
}

pub record Unicode : Type 0 where
  pub to_lower_char : Char → Char
  pub fold_char : Char → Char

-- unicode.IsSpace
unfoldable pub is_space : Char → Bool
is_space c =
    let n = code c in
    leb 9 n && leb n 13
    || n == 32
    || n == 0x85
    || n == 0xa0
    || n == 0x1680
    || leb 0x2000 n && leb n 0x200a
    || n == 0x2028
    || n == 0x2029
    || n == 0x202f
    || n == 0x205f
    || n == 0x3000

trim_left : String → String
trim_left ε = ε
trim_left (c ▹ s) = if is_space c then trim_left s else c ▹ s

-- a character before a text that is already trimmed on its right
abbrev before_trimmed : Char → String → String
before_trimmed c ε = if is_space c then ε else c ▹ ε
before_trimmed c (d ▹ s) = c ▹ d ▹ s

trim_right : String → String
trim_right ε = ε
trim_right (c ▹ s) = before_trimmed c (trim_right s)

-- strings.TrimSpace
unfoldable pub trim_space : String → String
unfolding trim_left trim_right is_space
trim_space s = trim_right (trim_left s)

abbrev pub push_word : String → List String → List String
push_word ε ws = ws
push_word (c ▹ w) ws = (c ▹ w) ∷ ws

-- one more character in front of the first word, which is empty before a space, and the other words
abbrev pub add_char : Bool → Char → String × List String → String × List String
add_char true c (w, ws) = (ε, push_word w ws)
add_char false c (w, ws) = (c ▹ w, ws)

unfoldable pub split_words : String → String × List String
split_words ε = (ε, [])
split_words (c ▹ s) = add_char (is_space c) c (split_words s)

-- strings.Fields
unfoldable pub fields : String → List String
unfolding split_words is_space
fields s = let (w, ws) = split_words s in push_word w ws

-- strings.Join
unfoldable pub join : List String → String → String
join [] sep = ε
join (w ∷ []) sep = w
join (w ∷ v ∷ ws) sep = w · sep · join (v ∷ ws) sep

-- NormalizeHumanName
unfoldable pub normalize_human_name : String → String
unfolding fields join
normalize_human_name s = join (fields s) " "

unfoldable pub map_chars : (Char → Char) → String → String
map_chars f ε = ε
map_chars f (c ▹ s) = f c ▹ map_chars f s

-- strings.ToLower
unfoldable pub to_lower : Unicode → String → String
unfolding map_chars
to_lower u s = map_chars u.to_lower_char s

-- strings.EqualFold
unfoldable pub equal_fold : Unicode → String → String → Bool
unfolding map_chars
equal_fold u s t = map_chars u.fold_char s == map_chars u.fold_char t

unfoldable pub has_prefix : String → String → Bool
has_prefix s ε = true
has_prefix ε (d ▹ t) = false
has_prefix (c ▹ s) (d ▹ t) = code c == code d && has_prefix s t

-- strings.Contains
unfoldable pub contains : String → String → Bool
unfolding has_prefix
contains ε t = has_prefix ε t
contains (c ▹ s) t = has_prefix (c ▹ s) t || contains s t

-- s < t on strings
abbrev pub str_lt : String → String → Bool
str_lt s t = is_lt (compare s t)

-- len([]rune(s))
abbrev pub rune_count : String → ℕ
rune_count s = count s
