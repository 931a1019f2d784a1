-- ===== src/Frontmatter/Parse.antt =====
-- `parse_block` and `parse` of frontmatter.rs.
pub mod Lossless
use wkp.Base.{
  ℕ, zero, suc, Bool, not, List, [], ◌∷◌, ◌++◌, Option, none, some, ◌==◌, if◌then◌else◌, length,
  take_while, is_empty,
}
use wkp.Str.{Text}
use wkp.Frontmatter.Types.{
  Frontmatter, default, Warning, unterminated, unexpected_indent, no_key, ParseResult,
}
use wkp.Frontmatter.Lines.{Line, strip_opening_delimiter, split_at_closing_delimiter, logical_lines}
use wkp.Frontmatter.Values.{Parsing, split_key_value, apply_scalar_value, apply_block_value}

-- The lines that stand indented at the head of a list.
abbrev pub children_of : List Line → List Line
children_of lines = take_while (λ (l : Line). not (l.indent == 0)) lines

-- How many lines the round of the loop at a line passes, besides that line: `j - (i + 1)`.
abbrev pub passed_by : Line → Option (Text × Text) → List Line → ℕ
passed_by line none rest = 0
passed_by line (some (key, value)) rest =
    if line.indent == 0 then (if is_empty value then length (children_of rest) else 0) else 0

-- What that round does to the frontmatter and the warnings.
abbrev pub round : Parsing → Line → Option (Text × Text) → List Line → Parsing
round (fm, warnings) line none rest =
    if line.indent == 0
    then (fm, warnings ++ no_key line.content ∷ [])
    else (fm, warnings ++ unexpected_indent line.content ∷ [])
round (fm, warnings) line (some (key, value)) rest =
    if line.indent == 0
    then (if is_empty value
        then apply_block_value (fm, warnings) key (children_of rest)
        else apply_scalar_value (fm, warnings) key value)
    else (fm, warnings ++ unexpected_indent line.content ∷ [])

-- The `while` loop: the first argument counts the lines that the last round took as children, which
-- `i = j` passes over.
unfoldable pub parse_lines : ℕ → List Line → Parsing → Parsing
parse_lines skip [] s = s
parse_lines (suc skip) (line ∷ rest) s = parse_lines skip rest s
parse_lines zero (line ∷ rest) s =
    let pair = split_key_value line.content in
    parse_lines (passed_by line pair rest) rest (round s line pair rest)

unfoldable pub parse_block : Text → Parsing
parse_block block = parse_lines 0 (logical_lines block) (default, [])

abbrev pub result : Text → Parsing → ParseResult
result body (fm, warnings) = record { frontmatter = fm; body = body; warnings = warnings }

abbrev pub parse_split : Text → Option (Text × Text) → ParseResult
parse_split input none = record {
  frontmatter = default;
  body = input;
  warnings = unterminated ∷ [];
}
parse_split input (some (block, body)) = result body (parse_block block)

abbrev pub parse_opened : Text → Option Text → ParseResult
parse_opened input none = record { frontmatter = default; body = input; warnings = [] }
parse_opened input (some after_open) = parse_split input (split_at_closing_delimiter after_open)

unfoldable pub parse : Text → ParseResult
parse input = parse_opened input (strip_opening_delimiter input)
