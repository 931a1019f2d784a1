-- ===== src/Frontmatter/Lines/Split.antt =====
-- Cutting a file at the delimiters loses nothing.
use wkp.Base.{
  ◌≡◌, ap, inl, inr, true, some, List, [], ◌∷◌, ◌++◌, append_assoc, arith, Bool-cases, length,
  flatten, length-append, take-append, drop-append, drop_past,
}
use wkp.Str.{Text, split_inclusive}
use wkp.Str.Laws.{flatten-split_inclusive}
use wkp.Frontmatter.Lines.{
  is_delimiter_line, strip_opening_delimiter, split_at, split_at_closing_delimiter, first_line,
}

-- `text` is `before`, then a delimiter line, then `after`.
pub record CutAt (text before after : Text) : Type 0 where
  pub delimiter : Text
  pub is_delimiter : is_delimiter_line delimiter ≡ true
  pub joins : text ≡ before ++ (delimiter ++ after)

first_line-CutAt :
    (ls : List Text) (rest : Text)
    → first_line (flatten ls) ls ≡ some rest
    → CutAt (flatten ls) [] rest
first_line-CutAt [] rest h = cc
first_line-CutAt (l ∷ ls) rest h = elim (Bool-cases (is_delimiter_line l)) [
  | inl e ↦ record {
    delimiter = l;
    is_delimiter = e;
    joins = ap (λ r. l ++ r) (ground (arith, drop-append l (flatten ls)));
  }
  | inr e ↦ cc
]

pub strip_opening_delimiter-CutAt :
    (input : Text) {rest : Text} → strip_opening_delimiter input ≡ some rest → CutAt input [] rest
unfolding strip_opening_delimiter
strip_opening_delimiter-CutAt input {rest} h =
    rw flatten-split_inclusive at
      (first_line-CutAt (split_inclusive input) rest (rw flatten-split_inclusive h))

split_at-CutAt :
    (ls : List Text) (seen block body : Text)
    → split_at (seen ++ flatten ls) (length seen) ls ≡ some (block, body)
    → CutAt (seen ++ flatten ls) block body
unfolding split_at
split_at-CutAt [] seen block body h = cc
split_at-CutAt (l ∷ ls) seen block body h = elim (Bool-cases (is_delimiter_line l)) [
  | inl e ↦ record {
    delimiter = l;
    is_delimiter = e;
    joins = ground (arith, take-append seen (l ++ flatten ls), drop_past seen l (flatten ls));
  }
  | inr e ↦
      rw append_assoc at
        (split_at-CutAt ls (seen ++ l) block body (rw (append_assoc, length-append) (ground arith)))
]

pub split_at_closing_delimiter-CutAt :
    (after_open : Text) {block body : Text}
    → split_at_closing_delimiter after_open ≡ some (block, body)
    → CutAt after_open block body
unfolding split_at_closing_delimiter
split_at_closing_delimiter-CutAt after_open {block} {body} h =
    rw flatten-split_inclusive at
      (split_at-CutAt (split_inclusive after_open) [] block body (rw flatten-split_inclusive h))
