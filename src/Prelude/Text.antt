-- ===== src/Prelude/Text.antt =====
-- Text as its code points, with the operations of `str` that the program uses.
use zenbench.Prelude.{
  ℕ, ◌+◌, ◌*◌, ◌-◌, ◌≡◌, refl, Bool, true, false, Option, none, some, List, [], ◌∷◌, ◌++◌, ◌==◌,
  ltb, ◌&&◌, ◌||◌, if◌then◌else◌, arith, list_eq, any, leb,
}
use zenbench.Prelude.Word.{u64_mod}
use Prim.Native.Char.{code}
use Prim.Native.String.{String}

abbrev pub Text : Type 0
Text = List ℕ

abbrev pub codes : String → Text
codes String.[] = []
codes (String.◌∷◌ c s) = code c ∷ codes s

-- the bytes of a character in UTF-8, and `text.len()`
abbrev pub utf8_width : ℕ → ℕ
utf8_width c = if ltb c 0x80 then 1 else if ltb c 0x800 then 2 else if ltb c 0x1_0000 then 3 else 4

abbrev pub byte_length : Text → ℕ
byte_length [] = 0
byte_length (c ∷ cs) = utf8_width c + byte_length cs

-- `text.starts_with(pattern)`
abbrev pub starts_with : Text → Text → Bool
starts_with text [] = true
starts_with [] (p ∷ ps) = false
starts_with (c ∷ cs) (p ∷ ps) = c == p && starts_with cs ps

-- `text.contains(pattern)`
abbrev pub has : Text → Text → Bool
has [] pattern = starts_with [] pattern
has (c ∷ cs) pattern = starts_with (c ∷ cs) pattern || has cs pattern

-- `text.strip_prefix(pattern)`
abbrev pub strip_prefix : Text → Text → Option Text
strip_prefix text [] = some text
strip_prefix [] (p ∷ ps) = none
strip_prefix (c ∷ cs) (p ∷ ps) = if c == p then strip_prefix cs ps else none

-- `text.split_once(separator)`, at one character
abbrev pub split_once : ℕ → Text → Option (Text × Text)
split_once sep [] = none
split_once sep (c ∷ cs) =
    if c == sep
    then some ([], cs)
    else elim (split_once sep cs) [ none ↦ none | some (before, after) ↦ some (c ∷ before, after) ]

-- `text.split(separator)`, at one character
abbrev pub split_on : ℕ → Text → List Text
split_on sep [] = [] ∷ []
split_on sep (c ∷ cs) =
    if c == sep
    then [] ∷ split_on sep cs
    else elim (split_on sep cs) [ [] ↦ (c ∷ []) ∷ [] | item ∷ items ↦ (c ∷ item) ∷ items ]

-- The order of texts: by the first difference.
abbrev pub text_lt : Text → Text → Bool
text_lt xs [] = false
text_lt [] (y ∷ ys) = true
text_lt (x ∷ xs) (y ∷ ys) = ltb x y || (x == y && text_lt xs ys)

abbrev pub is_digit : ℕ → Bool
is_digit c = leb b'0' c && leb c b'9'

-- `char::is_whitespace`, the Unicode property `White_Space`
abbrev pub is_whitespace : ℕ → Bool
is_whitespace c =
    (leb 9 c && leb c 13)
    || (c == 0x20)
    || (c == 0x85)
    || (c == 0xa0)
    || (c == 0x1680)
    || (leb 0x2000 c && leb c 0x200a)
    || (c == 0x2028)
    || (c == 0x2029)
    || (c == 0x202f)
    || (c == 0x205f)
    || (c == 0x3000)

abbrev pub trim_start : Text → Text
trim_start [] = []
trim_start (c ∷ cs) = if is_whitespace c then trim_start cs else c ∷ cs

-- `text.trim_end()`
abbrev pub trim_end : Text → Text
trim_end [] = []
trim_end (c ∷ cs) = elim (trim_end cs) [
  | [] ↦ if is_whitespace c then [] else c ∷ []
  | d ∷ ds ↦ c ∷ d ∷ ds
]

-- `text.trim()`
abbrev pub trim : Text → Text
trim text = trim_end (trim_start text)

abbrev pub is_empty : Text → Bool
is_empty [] = true
is_empty (c ∷ cs) = false

-- Decimal digits after the value `n`, while the value stays below `2 ^ 64`.
abbrev pub parse_digits : ℕ → Text → Option ℕ
parse_digits n [] = some n
parse_digits n (c ∷ cs) =
    if is_digit c && ltb (n * 10 + (c - b'0')) u64_mod
    then parse_digits (n * 10 + (c - b'0')) cs
    else none

-- Digits, at least one.
abbrev pub parse_number : Text → Option ℕ
parse_number [] = none
parse_number (c ∷ cs) = parse_digits 0 (c ∷ cs)

-- `text.parse::<usize>()` and `parse::<u64>()`: a plus sign may stand before the digits.
abbrev pub parse_usize : Text → Option ℕ
parse_usize [] = none
parse_usize (c ∷ cs) = if c == b'+' then parse_number cs else parse_number (c ∷ cs)

-- `list.contains(&text)`
abbrev pub listed : List Text → Text → Bool
listed ts text = any (λ t. list_eq t text) ts

-- `text.ends_with(pattern)`
abbrev pub ends_with : Text → Text → Bool
ends_with [] pattern = list_eq [] pattern
ends_with (c ∷ cs) pattern = list_eq (c ∷ cs) pattern || ends_with cs pattern

pub strip_prefix-append : (prefix rest : Text) → strip_prefix (prefix ++ rest) prefix ≡ some rest
strip_prefix-append [] rest = refl
strip_prefix-append (p ∷ ps) rest = ground (arith, strip_prefix-append ps rest)
