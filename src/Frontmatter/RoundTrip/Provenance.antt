-- ===== src/Frontmatter/RoundTrip/Provenance.antt =====
-- The piece of the provenance.
use wkp.Base.{
  ℕ, ◌≡◌, refl, sym, ap, ◌∙◌, subst, ◌⊎◌, inl, inr, Bool, true, not, Option, none, some, List, [],
  ◌∷◌, ◌++◌, append-nil, append_assoc, ◌==◌, Option-cases, length, all, all-append,
}
use wkp.Str.{split_once, trim_start_by, trim_end_by, is_whitespace, Text, codes}
use wkp.Frontmatter.Types.{show_source_kind, SourceKind, Frontmatter, Provenance, Warning}
use wkp.Frontmatter.Lines.{Line, logical_lines}
use wkp.Frontmatter.Values.{
  split_key_value, Parsing, apply_provenance_children, apply_provenance_field,
}
use wkp.Frontmatter.Parse.{parse_lines, children_of}
use wkp.Frontmatter.Render.{debug, optional}
use wkp.Frontmatter.RoundTrip.Plain.{is_inline}
use wkp.Frontmatter.RoundTrip.Blocks.{IsBlock-append, IsBlock, IsBlock-line, logical_lines-cons}
use wkp.Frontmatter.RoundTrip.Conditions.{
  Each, Each-some, BareAs, IsQuotable, IsPlainProvenance, bare_value, opt_string-debug,
  opt_string-bare,
}
use wkp.Frontmatter.Types.{parse_source_kind}
use wkp.Frontmatter.Types.Shown.{show-parse_source_kind}
use wkp.Frontmatter.RoundTrip.Plain.{debug-quotable}
use wkp.Frontmatter.Values.{apply_block_value}
use wkp.Frontmatter.Render.{render_provenance}
use wkp.Frontmatter.RoundTrip.Blocks.{is_delimiter_line-solid}
use wkp.Frontmatter.Parse.{parse_lines}
use wkp.Frontmatter.RoundTrip.Blocks.{logical_lines-cons, logical_line-top}
use wkp.Frontmatter.RoundTrip.Steps.{run, parse_lines-round}
use wkp.Frontmatter.RoundTrip.Children.{
  child_lines, logical_lines-child, child-IsBlock, apply-child, children_of-children,
  parse_lines_past,
}
use wkp.Frontmatter.RoundTrip.Pieces.{Piece, IsTop, Piece-nil}
use wkp.Str.{text_eq}

abbrev indents : Line → Bool
indents l = not (l.indent == 0)

apply_no_children : (s : Parsing) → apply_provenance_children s [] ≡ s
unfolding apply_provenance_children
apply_no_children s = refl

provenance_key : split_key_value (codes "provenance:") ≡ some (codes "provenance", [])
unfolding split_key_value split_once is_whitespace trim_start_by trim_end_by
provenance_key = refl

apply_block_value_lem :
    (s : Parsing) (cs : List Line)
    → apply_block_value s (codes "provenance") cs ≡ apply_provenance_children s cs
unfolding apply_block_value text_eq
apply_block_value_lem s cs = refl

heading-IsBlock : IsBlock (codes "provenance:\n")
unfolding is_whitespace
heading-IsBlock =
    IsBlock-line (codes "provenance:") refl
      (is_delimiter_line-solid b'p' (codes "rovenance:\n") refl refl refl)

child_indents {ℓ} :
    {A : Type ℓ} (k : Text) (show : A → Text) (o : Option A)
    → all indents (child_lines k show o) ≡ true
child_indents k show none = refl
child_indents k show (some a) = refl

-- The lines of the provenance, as the loop takes them.
module _ (printable : ℕ → Bool) (p : Provenance) (plain : IsPlainProvenance printable p) where
  quotable_inline :
      (o : Option Text)
      → Each (IsQuotable printable) o
      → (a : Text) → o ≡ some a
      → is_inline (debug printable a) ≡ true
  quotable_inline o h a e =
      (debug-quotable printable a (Each-some (IsQuotable printable) o a h e)).0

  source_inline : (a : SourceKind) → p.source ≡ some a → is_inline (show_source_kind a) ≡ true
  source_inline a e =
      let (raw, same, bare) = Each-some (BareAs parse_source_kind) p.source a plain.source e in
      rw (same, show-parse_source_kind raw) ((bare_value raw bare).0)

  actor_lines : List Line
  actor_lines = child_lines (codes "actor") (debug printable) p.actor

  session_lines : List Line
  session_lines = child_lines (codes "session") (debug printable) p.session

  source_lines : List Line
  source_lines = child_lines (codes "source") show_source_kind p.source

  provenance_lines : List Line
  provenance_lines = actor_lines ++ (session_lines ++ source_lines)

  provenance_text : Text
  provenance_text =
      optional "  actor: " (debug printable) p.actor
      ++ (optional "  session: " (debug printable) p.session
          ++ optional "  source: " show_source_kind p.source)

  logical_lines-provenance :
      (rest : Text)
      → logical_lines (provenance_text ++ rest) ≡ provenance_lines ++ logical_lines rest
  unfolding provenance_text provenance_lines actor_lines session_lines source_lines is_whitespace
  logical_lines-provenance rest =
      let source = optional "  source: " show_source_kind p.source in
      let session = optional "  session: " (debug printable) p.session in
      ap logical_lines
        (append_assoc (optional "  actor: " (debug printable) p.actor) (session ++ source) rest)
      ∙ logical_lines-child "  actor: " (codes "actor") (debug printable) p.actor refl refl
          (quotable_inline p.actor plain.actor) ((session ++ source) ++ rest)
      ∙ ap (λ t. actor_lines ++ t)
          (ap logical_lines (append_assoc session source rest)
            ∙ logical_lines-child "  session: " (codes "session") (debug printable) p.session refl
                refl (quotable_inline p.session plain.session) (source ++ rest)
            ∙ ap (λ t. session_lines ++ t)
                (logical_lines-child "  source: " (codes "source") show_source_kind p.source refl
                  refl source_inline rest)
            ∙ sym (append_assoc session_lines source_lines (logical_lines rest)))
      ∙ sym (append_assoc actor_lines (session_lines ++ source_lines) (logical_lines rest))

  provenance_text-IsBlock : IsBlock provenance_text
  unfolding provenance_text is_whitespace
  provenance_text-IsBlock =
      IsBlock-append _ _
        (child-IsBlock "  actor: " (codes "actor") (debug printable) p.actor refl refl
          (quotable_inline p.actor plain.actor))
        (IsBlock-append _ _
          (child-IsBlock "  session: " (codes "session") (debug printable) p.session refl refl
            (quotable_inline p.session plain.session))
          (child-IsBlock "  source: " (codes "source") show_source_kind p.source refl refl
            source_inline))

  indented : all indents provenance_lines ≡ true
  unfolding provenance_lines actor_lines session_lines source_lines
  indented =
      all-append indents actor_lines (session_lines ++ source_lines)
        (child_indents (codes "actor") (debug printable) p.actor)
        (all-append indents session_lines source_lines
          (child_indents (codes "session") (debug printable) p.session)
          (child_indents (codes "source") show_source_kind p.source))

  applied :
      (fm : Frontmatter) (ws : List Warning)
      → apply_provenance_children
          (record fm { provenance = record { actor = none; session = none; source = none } }, ws)
          provenance_lines
        ≡ (record fm { provenance = p }, ws)
  unfolding provenance_lines actor_lines session_lines source_lines is_whitespace
      apply_provenance_field text_eq
  applied fm ws =
      apply-child "  actor: " (codes "actor") (debug printable) p.actor refl refl
        (quotable_inline p.actor plain.actor) fm ws
        (λ o. record { actor = o; session = none; source = none }) (session_lines ++ source_lines)
        (λ a e.
          rw
            (opt_string-debug printable a
              (Each-some (IsQuotable printable) p.actor a plain.actor e))
            refl)
      ∙ apply-child "  session: " (codes "session") (debug printable) p.session refl refl
          (quotable_inline p.session plain.session) fm ws
          (λ o. record { actor = p.actor; session = o; source = none }) source_lines
          (λ a e.
            rw
              (opt_string-debug printable a
                (Each-some (IsQuotable printable) p.session a plain.session e))
              refl)
      ∙ ap (apply_provenance_children (record fm { provenance = record p { source = none } }, ws))
          (sym (append-nil source_lines))
      ∙ apply-child "  source: " (codes "source") show_source_kind p.source refl refl source_inline
          fm ws (λ o. record p { source = o }) []
          (λ a e.
            let (raw, same, bare) =
              Each-some (BareAs parse_source_kind) p.source a plain.source e in
            rw (same, show-parse_source_kind raw) (rw (opt_string-bare raw bare) refl))
      ∙ apply_no_children (record fm { provenance = p }, ws)

  provenance_line :
      (rest : Text)
      → logical_lines (codes "provenance:" ++ b'\n' ∷ rest)
        ≡ record { indent = 0; content = codes "provenance:" } ∷ logical_lines rest
  unfolding is_whitespace
  provenance_line rest =
      logical_lines-cons (codes "provenance:") rest
        (record { indent = 0; content = codes "provenance:" }) refl refl
        (logical_line-top b'p' (codes "rovenance:") refl refl refl)

  runs_full :
      (fm : Frontmatter) (ws : List Warning) (rest : Text)
      → IsTop rest
      → run
          (codes "provenance:\n" ++ (provenance_text ++ rest))
          (record fm { provenance = record { actor = none; session = none; source = none } }, ws)
        ≡ run rest (record fm { provenance = p }, ws)
  runs_full fm ws rest top =
      let before : Parsing =
        (record fm { provenance = record { actor = none; session = none; source = none } }, ws) in
      let ls = provenance_lines ++ logical_lines rest in
      let own = children_of-children provenance_lines (logical_lines rest) indented top in
      ap (λ ls. parse_lines 0 ls before)
        (provenance_line (provenance_text ++ rest)
          ∙ ap (λ t. record { indent = 0; content = codes "provenance:" } ∷ t)
              (logical_lines-provenance rest))
      ∙ parse_lines-round (record { indent = 0; content = codes "provenance:" }) ls before
          provenance_key
      ∙ ap (λ cs. parse_lines (length cs) ls (apply_block_value before (codes "provenance") cs)) own
      ∙ ap (parse_lines (length provenance_lines) ls)
          (apply_block_value_lem before provenance_lines ∙ applied fm ws)
      ∙ parse_lines_past provenance_lines (logical_lines rest) (record fm { provenance = p }, ws)

  render_cases :
      (render_provenance printable p ≡ codes "provenance:\n" ++ provenance_text)
      ⊎ ((render_provenance printable p ≡ [])
          × (p ≡ record { actor = none; session = none; source = none }))
  unfolding render_provenance provenance_text
  render_cases = elim (Option-cases p.actor) [
    | inr (a, e) ↦ inl (rw e refl)
    | inl e ↦ elim (Option-cases p.session) [
      | inr (b, f) ↦ inl (rw (e, f) refl)
      | inl f ↦ elim (Option-cases p.source) [
        | inr (c, g) ↦ inl (rw (e, f, g) refl)
        | inl g ↦ inr (rw (e, f, g) refl, λ i. record { actor = e i; session = f i; source = g i })
      ]
    ]
  ]

  full-Piece :
      (fm : Frontmatter) (ws : List Warning)
      → Piece
          (codes "provenance:\n" ++ provenance_text)
          (record fm { provenance = record { actor = none; session = none; source = none } }, ws)
          (record fm { provenance = p }, ws)
  full-Piece fm ws = record {
    runs = runs_full fm ws;
    block =
        IsBlock-append (codes "provenance:\n") provenance_text heading-IsBlock
          provenance_text-IsBlock;
    top = λ rest top. ap children_of (provenance_line (provenance_text ++ rest));
  }

  -- The provenance is written as a key with its children, or not at all.
  pub provenance-Piece :
      (fm : Frontmatter) (ws : List Warning)
      → Piece
          (render_provenance printable p)
          (record fm { provenance = record { actor = none; session = none; source = none } }, ws)
          (record fm { provenance = p }, ws)
  provenance-Piece fm ws = elim render_cases [
    | inl e ↦ rw e (full-Piece fm ws)
    | inr (e, none_set) ↦ rw e (
        subst
          (λ q.
            Piece []
              (
                record fm { provenance = record { actor = none; session = none; source = none } },
                ws,
              )
              (record fm { provenance = q }, ws))
          (sym none_set)
          (Piece-nil (
            record fm { provenance = record { actor = none; session = none; source = none } },
            ws,
          )))
  ]
