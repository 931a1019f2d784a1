-- ===== src/Str.antt =====
-- Text as a list of code points, and what the program uses of Rust's `str`.
-- Byte lengths are used by the source only as differences or sums of lengths of ASCII pieces, or to
-- cut a text where one of its own pieces ends, so lengths in code points serve.
pub mod Laws
use Prim.Native.Char.{code}
use wkp.Base.{
  or_else, ℕ, String, Bool, true, false, not, ◌&&◌, ◌||◌, List, [], ◌∷◌, ◌++◌, Option, none, some,
  leb, ◌==◌, if◌then◌else◌, map_option,
}

abbrev pub Text : Type 0
Text = List ℕ

-- The code points of a literal.
abbrev pub codes : String → Text
codes String.[] = []
codes (String.◌∷◌ c s) = code c ∷ codes s

-- `==` on `str`
unfoldable pub text_eq : Text → Text → Bool
text_eq [] [] = true
text_eq (x ∷ xs) (y ∷ ys) = x == y && text_eq xs ys
text_eq _ _ = false

abbrev between : ℕ → ℕ → ℕ → Bool
between lo hi c = leb lo c && leb c hi

-- `char::is_whitespace`: the code points with the property White_Space
unfoldable pub is_whitespace : ℕ → Bool
is_whitespace c =
    between 9 13 c
    || c == 32
    || c == 0x85
    || c == 0xa0
    || c == 0x1680
    || between 0x2000 0x200a c
    || c == 0x2028
    || c == 0x2029
    || c == 0x202f
    || c == 0x205f
    || c == 0x3000

-- `char::is_ascii_digit`
abbrev pub is_digit : ℕ → Bool
is_digit c = between b'0' b'9' c

-- `trim_start_matches`
unfoldable pub trim_start_by : (ℕ → Bool) → Text → Text
trim_start_by p [] = []
trim_start_by p (c ∷ cs) = let rest = trim_start_by p cs in if p c then rest else c ∷ cs

abbrev pub keep_unless : Bool → ℕ → Text → Text
keep_unless b c [] = if b then [] else c ∷ []
keep_unless b c (d ∷ ds) = c ∷ d ∷ ds

-- `trim_end_matches`
unfoldable pub trim_end_by : (ℕ → Bool) → Text → Text
trim_end_by p [] = []
trim_end_by p (c ∷ cs) = keep_unless (p c) c (trim_end_by p cs)

abbrev pub trim_start : Text → Text
trim_start = trim_start_by is_whitespace

abbrev pub trim_end : Text → Text
trim_end = trim_end_by is_whitespace

abbrev pub trim : Text → Text
trim t = trim_end (trim_start t)

-- `strip_prefix`
unfoldable pub strip_prefix : Text → Text → Option Text
strip_prefix [] t = some t
strip_prefix (p ∷ ps) [] = none
strip_prefix (p ∷ ps) (c ∷ cs) = if p == c then strip_prefix ps cs else none

-- `strip_suffix` of one character
unfoldable pub strip_last : ℕ → Text → Option Text
strip_last q [] = none
strip_last q (c ∷ []) = if c == q then some [] else none
strip_last q (c ∷ d ∷ ds) = map_option (λ r. c ∷ r) (strip_last q (d ∷ ds))

abbrev pub push_first : ℕ → List Text → List Text
push_first c [] = (c ∷ []) ∷ []
push_first c (l ∷ ls) = (c ∷ l) ∷ ls

-- `split_inclusive('\n')`
unfoldable pub split_inclusive : Text → List Text
split_inclusive [] = []
split_inclusive (c ∷ cs) =
    let rest = split_inclusive cs in if c == b'\n' then (c ∷ []) ∷ rest else push_first c rest

-- `split(p)`: always at least one piece
unfoldable pub split_by : (ℕ → Bool) → Text → List Text
split_by p [] = [] ∷ []
split_by p (c ∷ cs) = let rest = split_by p cs in if p c then [] ∷ rest else push_first c rest

-- `split_once(c)`
unfoldable pub split_once : ℕ → Text → Option (Text × Text)
split_once q [] = none
split_once q (c ∷ cs) =
    let rest = split_once q cs in
    if c == q then some ([], cs) else elim rest [ none ↦ none | some (a, b) ↦ some (c ∷ a, b) ]

-- `[T]::join(sep)`
unfoldable pub join : Text → List Text → Text
join sep [] = []
join sep (x ∷ []) = x
join sep (x ∷ y ∷ ys) = x ++ (sep ++ join sep (y ∷ ys))

abbrev chomped : Text → Option Text → Text
chomped l none = l
chomped l (some m) = or_else (strip_last b'\r' m) m

-- what `str::lines` makes of one piece of `split_inclusive`
unfoldable pub chomp : Text → Text
chomp l = chomped l (strip_last b'\n' l)
