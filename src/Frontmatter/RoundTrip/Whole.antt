-- ===== src/Frontmatter/RoundTrip/Whole.antt =====
-- `parse` after `render`.
use wkp.Base.{ℕ, ◌≡◌, refl, sym, ap, ◌∙◌, Bool, some, [], ◌++◌, append-nil, append_assoc}
use wkp.Str.{Text, codes, split_inclusive, is_whitespace, text_eq, trim_start_by, trim_end_by}
use wkp.Str.Laws.{split_inclusive-line}
use wkp.Frontmatter.Types.{Frontmatter, default}
use wkp.Frontmatter.Lines.{strip_opening_delimiter, is_delimiter_line}
use wkp.Frontmatter.Values.{Parsing}
use wkp.Frontmatter.Parse.{parse, parse_block}
use wkp.Frontmatter.Render.{render, render_fields}
use wkp.Frontmatter.RoundTrip.Blocks.{split_at_closing_delimiter-IsBlock}
use wkp.Frontmatter.Lines.{logical_lines}
use wkp.Frontmatter.Parse.{parse_lines}
use wkp.Frontmatter.RoundTrip.Steps.{run}
use wkp.Frontmatter.RoundTrip.Conditions.{IsPlain}
use wkp.Frontmatter.RoundTrip.Pieces.{Piece, Piece-append, IsTop}
use wkp.Frontmatter.RoundTrip.Provenance.{provenance-Piece}
use wkp.Frontmatter.RoundTrip.Fields.{
  title-Piece, item_type-Piece, scope-Piece, workspace-Piece, visibility-Piece, confidence-Piece,
  expires-Piece, tokens-Piece, tags-Piece, refs-Piece, updated-Piece,
}

strip_opening_delimiter-open :
    (rest : Text) → strip_opening_delimiter (codes "---\n" ++ rest) ≡ some rest
unfolding strip_opening_delimiter
strip_opening_delimiter-open rest =
    rw (split_inclusive-line (codes "---") rest refl)
      (unfold is_delimiter_line trim_end_by trim_start_by text_eq is_whitespace in refl)

no_lines : IsTop []
unfolding logical_lines split_inclusive
no_lines = refl

run_end : (s : Parsing) → run [] s ≡ s
unfolding logical_lines split_inclusive parse_lines
run_end s = refl

module _ (printable : ℕ → Bool) (fm : Frontmatter) (plain : IsPlain printable fm) where
  fields-Piece : Piece (render_fields printable fm) (default, []) (fm, [])
  unfolding render_fields
  fields-Piece =
      let s1 = record default { title = fm.title } in
      let s2 = record s1 { item_type = fm.item_type } in
      let s3 = record s2 { scope = fm.scope } in
      let s4 = record s3 { workspace = fm.workspace } in
      let s5 = record s4 { visibility = fm.visibility } in
      let s6 = record s5 { provenance = fm.provenance } in
      let s7 = record s6 { confidence = fm.confidence } in
      let s8 = record s7 { expires = fm.expires } in
      let s9 = record s8 { tokens_raw = fm.tokens_raw; tokens = fm.tokens } in
      let s10 = record s9 { tags = fm.tags } in
      let s11 = record s10 { refs = fm.refs } in
      Piece-append _ _ (default, []) (s1, []) (fm, [])
        (title-Piece printable default [] fm.title plain.title)
        (Piece-append _ _ (s1, []) (s2, []) (fm, [])
          (item_type-Piece printable s1 [] fm.item_type plain.item_type)
          (Piece-append _ _ (s2, []) (s3, []) (fm, [])
            (scope-Piece printable s2 [] fm.scope plain.scope)
            (Piece-append _ _ (s3, []) (s4, []) (fm, [])
              (workspace-Piece printable s3 [] fm.workspace plain.workspace)
              (Piece-append _ _ (s4, []) (s5, []) (fm, [])
                (visibility-Piece printable s4 [] fm.visibility plain.visibility)
                (Piece-append _ _ (s5, []) (s6, []) (fm, [])
                  (provenance-Piece printable fm.provenance plain.provenance s5 [])
                  (Piece-append _ _ (s6, []) (s7, []) (fm, [])
                    (confidence-Piece printable s6 [] fm.confidence plain.confidence)
                    (Piece-append _ _ (s7, []) (s8, []) (fm, [])
                      (expires-Piece printable s7 [] fm.expires plain.expires)
                      (Piece-append _ _ (s8, []) (s9, []) (fm, [])
                        (tokens-Piece printable s8 [] fm.tokens_raw fm.tokens plain.tokens)
                        (Piece-append _ _ (s9, []) (s10, []) (fm, [])
                          (tags-Piece printable s9 [] fm.tags plain.tags)
                          (Piece-append _ _ (s10, []) (s11, []) (fm, [])
                            (refs-Piece printable s10 [] fm.refs plain.refs)
                            (updated-Piece printable s11 [] fm.updated plain.updated)))))))))))

  parse_block-render_fields : parse_block (render_fields printable fm) ≡ (fm, [])
  unfolding parse_block
  parse_block-render_fields =
      ap (λ t. run t (default, [])) (sym (append-nil (render_fields printable fm)))
      ∙ fields-Piece.runs [] no_lines
      ∙ run_end (fm, [])

  -- For a plain frontmatter, reading a rendered frontmatter with any body behind it gives back the
  -- frontmatter, exactly that body, and no warning.
  pub parse-render :
      (body : Text)
      → parse (render printable fm ++ body)
        ≡ record { frontmatter = fm; body = body; warnings = [] }
  unfolding parse render
  parse-render body =
      let fields = render_fields printable fm in
      ap parse (ap (λ t. codes "---\n" ++ t) (append_assoc fields (codes "---\n") body))
      ∙ rw
          (
            strip_opening_delimiter-open (fields ++ (codes "---\n" ++ body)),
            split_at_closing_delimiter-IsBlock fields body fields-Piece.block,
            parse_block-render_fields,
          )
          refl
