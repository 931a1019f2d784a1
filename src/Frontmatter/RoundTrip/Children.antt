-- ===== src/Frontmatter/RoundTrip/Children.antt =====
-- What the loop of `parse_block` makes of the rendered provenance.
use wkp.Base.{
  String, ◌≡◌, refl, sym, ap, ◌∙◌, subst, inl, inr, true, not, Option, none, some, List, [], ◌∷◌,
  ◌++◌, append-nil, arith, ◌==◌, Option-cases, length, all,
}
use wkp.Str.{Text, codes}
use wkp.Frontmatter.Types.{Frontmatter, Provenance, Warning}
use wkp.Frontmatter.Lines.{Line, logical_lines}
use wkp.Frontmatter.Values.{Parsing, apply_provenance_children, apply_provenance_field, unquote}
use wkp.Frontmatter.Parse.{parse_lines, children_of}
use wkp.Frontmatter.Render.{optional}
use wkp.Frontmatter.RoundTrip.Plain.{is_inline}
use wkp.Frontmatter.RoundTrip.Blocks.{
  IsBlock, IsBlock-nil, IsBlock-line, is_delimiter_line-child, logical_lines-cons,
  logical_line-child,
}
use wkp.Frontmatter.RoundTrip.Steps.{
  is_key, pair_line, ends_solid-pair_line, has_no-pair_line, split_key_value-pair_line,
  line-pair_line,
}

-- The logical lines of an optional child.
abbrev pub child_lines {ℓ} : {A : Type ℓ} → Text → (A → Text) → Option A → List Line
child_lines k show none = []
child_lines k show (some a) = record { indent = 2; content = pair_line k (show a) } ∷ []

module _ {ℓ} {A : Type ℓ} (head : String) (k : Text) (show : A → Text) (o : Option A)
    (is_head : codes head ≡ (b' ' ∷ b' ' ∷ k) ++ codes ": ") (hk : is_key k ≡ true)
    (inline : (a : A) → o ≡ some a → is_inline (show a) ≡ true) where
  child_line :
      (k v : Text)
      → is_key k ≡ true
      → is_inline v ≡ true
      → IsBlock (pair_line (b' ' ∷ b' ' ∷ k) v ++ b'\n' ∷ [])
        × ((rest : Text)
            → logical_lines (pair_line (b' ' ∷ b' ' ∷ k) v ++ b'\n' ∷ rest)
              ≡ record { indent = 2; content = pair_line k v } ∷ logical_lines rest)
  child_line [] v hk hv = cc
  child_line (c ∷ k) v hk hv =
      let no_newline = has_no-pair_line (b' ' ∷ b' ' ∷ c ∷ k) v (ground arith) (ground arith) in
      let solid = ends_solid-pair_line (c ∷ k) v (ground arith) in
      (
        IsBlock-line (pair_line (b' ' ∷ b' ' ∷ c ∷ k) v) no_newline (
            is_delimiter_line-child c ((k ++ (b':' ∷ b' ' ∷ v)) ++ b'\n' ∷ []) (ground arith)
              (ground arith) (ground arith)),
        λ rest.
            logical_lines-cons (pair_line (b' ' ∷ b' ' ∷ c ∷ k) v) rest
              (record { indent = 2; content = pair_line (c ∷ k) v }) no_newline solid
              (logical_line-child c (k ++ (b':' ∷ b' ' ∷ v)) (ground arith) (ground arith) solid),
      )

  pub logical_lines-child :
      (rest : Text)
      → logical_lines (optional head show o ++ rest) ≡ child_lines k show o ++ logical_lines rest
  logical_lines-child rest = elim (Option-cases o) [
    | inl e ↦ rw e refl
    | inr (a, e) ↦ rw e (
        ap logical_lines (line-pair_line head (b' ' ∷ b' ' ∷ k) (show a) rest is_head)
        ∙ (child_line k (show a) hk (inline a e)).1 rest)
  ]

  pub child-IsBlock : IsBlock (optional head show o)
  child-IsBlock = elim (Option-cases o) [
    | inl e ↦ rw e IsBlock-nil
    | inr (a, e) ↦ rw e (
        subst IsBlock
          (sym (line-pair_line head (b' ' ∷ b' ' ∷ k) (show a) [] is_head) ∙ append-nil _)
          (child_line k (show a) hk (inline a e)).0)
  ]

  -- A child sets its field of the provenance.
  pub apply-child :
      (fm : Frontmatter) (ws : List Warning) (set : Option A → Provenance) (more : List Line)
      → ((a : A)
          → o ≡ some a
          → apply_provenance_field (set none) k (unquote (show a)) ≡ set (some a))
      → apply_provenance_children
          (record fm { provenance = set none }, ws)
          (child_lines k show o ++ more)
        ≡ apply_provenance_children (record fm { provenance = set o }, ws) more
  unfolding apply_provenance_children
  apply-child fm ws set more applies = elim (Option-cases o) [
    | inl e ↦ rw e refl
    | inr (a, e) ↦ rw (e, split_key_value-pair_line k (show a) hk (inline a e), applies a e) refl
  ]

-- The loop at `provenance:` takes the children and passes over them.
pub children_of-children :
    (cs ls : List Line)
    → all (λ (l : Line). not (l.indent == 0)) cs ≡ true
    → children_of ls ≡ []
    → children_of (cs ++ ls) ≡ cs
children_of-children [] ls h e = e
children_of-children (c ∷ cs) ls h e = ground (arith, children_of-children cs ls)

pub parse_lines_past :
    (cs ls : List Line) (s : Parsing) → parse_lines (length cs) (cs ++ ls) s ≡ parse_lines 0 ls s
unfolding parse_lines
parse_lines_past [] ls s = refl
parse_lines_past (c ∷ cs) ls s = parse_lines_past cs ls s
