-- ===== src/Frontmatter/Parse/Lossless.antt =====
-- `parse` recovers the body, and falls back to the whole input.
use wkp.Base.{◌∷◌, ◌≡◌, refl, ◌⊎◌, inl, inr, [], Option-cases}
use wkp.Str.{Text}
use wkp.Frontmatter.Types.{default, unterminated}
use wkp.Frontmatter.Lines.{strip_opening_delimiter, split_at_closing_delimiter}
use wkp.Frontmatter.Lines.Split.{
  CutAt, strip_opening_delimiter-CutAt, split_at_closing_delimiter-CutAt,
}
use wkp.Frontmatter.Parse.{parse_block, parse, result}

-- The file is an opening delimiter line, the block, a closing delimiter line and the body.
pub record Framed (input block body : Text) : Type 0 where
  pub rest : Text
  pub opening : CutAt input [] rest
  pub closing : CutAt rest block body

-- For every input, either the frontmatter is the default, the body is the whole input and there is
-- no warning but `unterminated`; or the input is a delimiter line, a block, a delimiter line and
-- the body, and the frontmatter and the warnings are those of the block.
pub parse_lossless :
    (input : Text)
    → (parse input ≡ record { frontmatter = default; body = input; warnings = [] })
      ⊎ (parse input ≡ record { frontmatter = default; body = input; warnings = unterminated ∷ [] })
      ⊎ ((block : Text) × (body : Text) × Framed input block body
          × (parse input ≡ result body (parse_block block)))
unfolding parse
parse_lossless input = elim (Option-cases (strip_opening_delimiter input)) [
  | inl e ↦ inl (rw e refl)
  | inr (rest, e) ↦ elim (Option-cases (split_at_closing_delimiter rest)) [
    | inl f ↦ inr (inl (rw (e, f) refl))
    | inr ((block, body), f) ↦ inr (
        inr (
          block,
          body,
          record {
            rest = rest;
            opening = strip_opening_delimiter-CutAt input e;
            closing = split_at_closing_delimiter-CutAt rest f;
          },
          rw (e, f) refl,
        ))
  ]
]
