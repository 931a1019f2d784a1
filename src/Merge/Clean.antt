-- ===== src/Merge/Clean.antt =====
-- What a merge with no conflict writes.
use wkp.Base.{ℕ, ◌≡◌, refl, Bool, false, [], ◌∷◌, ◌++◌, arith}
use wkp.Base.Equality.{Eq, option_eq}
use wkp.Str.{Text}
use wkp.Str.Laws.{text_eq_refl}
use wkp.Frontmatter.Types.{Frontmatter}
use wkp.Frontmatter.Parse.{parse}
use wkp.Frontmatter.Render.{render}
use wkp.Frontmatter.RoundTrip.Whole.{parse-render}
use wkp.Frontmatter.RoundTrip.Conditions.{IsPlain}
use wkp.Merge.Scalars.{
  resolve_scalar, text_equality, item_type_equality, scope_equality, visibility_equality,
  confidence_equality,
}
use wkp.Merge.Lists.{union, max_updated, union_self, max_updated_self}
use wkp.Merge.Defs.{merge_frontmatter, body_conflict, in_conflict, merge, merged_body}

resolve_scalar_same {ℓ} :
    {A : Type ℓ} ⦃e : Eq A⦄ (field base both : A)
    → resolve_scalar field base both both ≡ (both, false)
unfolding resolve_scalar
resolve_scalar_same ⦃e⦄ field base both = rw ((e.beq_iff both both).1 refl) refl

resolve_scalar_theirs {ℓ} :
    {A : Type ℓ} ⦃e : Eq A⦄ (field base theirs : A)
    → resolve_scalar field base base theirs ≡ (theirs, false)
unfolding resolve_scalar
resolve_scalar_theirs ⦃e⦄ field base theirs =
    ground (arith, e.beq_iff base theirs, e.beq_iff base base)

merge_frontmatter_same :
    (base both : Frontmatter) → merge_frontmatter base both both ≡ (both, false)
unfolding merge_frontmatter
merge_frontmatter_same base both = simp (resolve_scalar_same, union_self, max_updated_self)

-- One side left the base alone: the merge has theirs' scalars, the union of the tags and the later
-- date, and keeps the base's provenance, tokens and references, whatever theirs has there.
pub merge_frontmatter_theirs :
    (base theirs : Frontmatter)
    → merge_frontmatter base base theirs ≡ (
      record theirs {
        provenance = base.provenance;
        tokens_raw = base.tokens_raw;
        tokens = base.tokens;
        tags = union base.tags theirs.tags;
        refs = base.refs;
        updated = max_updated base.updated theirs.updated;
      },
      false,
    )
unfolding merge_frontmatter
merge_frontmatter_theirs base theirs = simp resolve_scalar_theirs

-- The merge of a file with itself is never in conflict: it is the rendered frontmatter, a newline
-- and the body, whatever the base.
pub merge_same :
    (printable : ℕ → Bool) (base both : Text)
    → merge printable base both both
      ≡ render printable (parse both).frontmatter ++ b'\n' ∷ (parse both).body
unfolding merge in_conflict body_conflict
merge_same printable base both = rw (merge_frontmatter_same, text_eq_refl) (ground arith)

-- A merge with no conflict, whose frontmatter is plain, reads back as that frontmatter with no
-- warning; the body gets a newline in front of the body that the merge chose.
pub parse-merge :
    (printable : ℕ → Bool) (base ours theirs : Text)
    → in_conflict base ours theirs ≡ false
    → IsPlain printable
        (merge_frontmatter
          (parse base).frontmatter
          (parse ours).frontmatter
          (parse theirs).frontmatter).0
    → parse (merge printable base ours theirs) ≡ record {
      frontmatter =
          (merge_frontmatter
            (parse base).frontmatter
            (parse ours).frontmatter
            (parse theirs).frontmatter).0;
      body = b'\n' ∷ merged_body (parse base).body (parse ours).body (parse theirs).body;
      warnings = [];
    }
unfolding merge
parse-merge printable base ours theirs h plain = rw h (
    parse-render printable
      (merge_frontmatter (parse base).frontmatter (parse ours).frontmatter
        (parse theirs).frontmatter).0
      plain (b'\n' ∷ merged_body (parse base).body (parse ours).body (parse theirs).body))
