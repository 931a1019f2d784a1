-- ===== src/Frontmatter/Lines.antt =====
-- The delimiters of the block and its logical lines: `strip_opening_delimiter`,
-- `split_at_closing_delimiter` and `logical_lines` of frontmatter.rs.
pub mod Split
use wkp.Base.{
  ℕ, ◌+◌, ◌-◌, Bool, ◌||◌, List, [], ◌∷◌, Option, none, some, map, ◌==◌, if◌then◌else◌, length,
  take, drop, filter_map, is_empty,
}
use wkp.Str.{
  Text, codes, text_eq, trim, trim_end, trim_start_by, trim_end_by, split_inclusive, chomp,
  is_whitespace, strip_last,
}

unfoldable pub is_delimiter_line : Text → Bool
is_delimiter_line line =
    text_eq (trim (trim_end_by (λ c. c == b'\n' || c == b'\r') line)) (codes "---")

abbrev pub first_line : Text → List Text → Option Text
first_line input [] = none
first_line input (l ∷ _) = if is_delimiter_line l then some (drop (length l) input) else none

-- The text after the first line, if that is a delimiter.
unfoldable pub strip_opening_delimiter : Text → Option Text
strip_opening_delimiter input = first_line input (split_inclusive input)

-- The loop of `split_at_closing_delimiter`, with its `offset`.
unfoldable pub split_at : Text → ℕ → List Text → Option (Text × Text)
split_at after_open offset [] = none
split_at after_open offset (line ∷ lines) =
    let later = split_at after_open (offset + length line) lines in
    if is_delimiter_line line
    then some (take offset after_open, drop (offset + length line) after_open)
    else later

unfoldable pub split_at_closing_delimiter : Text → Option (Text × Text)
unfolding split_at
split_at_closing_delimiter after_open = split_at after_open 0 (split_inclusive after_open)

pub record Line : Type 0 where
  pub indent : ℕ
  pub content : Text

abbrev pub logical_line_of : ℕ → Text → Option Line
logical_line_of indent [] = none
logical_line_of indent (c ∷ cs) =
    if c == b'#' then none else some (record { indent = indent; content = c ∷ cs })

-- The closure of `logical_lines`, on one raw line.
unfoldable pub logical_line : Text → Option Line
logical_line raw =
    let content = trim_end_by (λ c. c == b'\r') raw in
    let trimmed = trim_start_by (λ c. c == b' ') content in
    logical_line_of (length content - length trimmed) (trim_end trimmed)

unfoldable pub logical_lines : Text → List Line
logical_lines block = filter_map logical_line (map chomp (split_inclusive block))
