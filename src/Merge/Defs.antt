-- ===== src/Merge/Defs.antt =====
-- `merge` and `render_conflict` of merge.rs. `printable` is the table that `{:?}` reads.
use wkp.Base.{ℕ, String, Bool, not, ◌&&◌, ◌||◌, ◌∷◌, ◌++◌, if◌then◌else◌, or_else}
use wkp.Str.{Text, codes, text_eq, trim_end}
use wkp.Frontmatter.Types.{Frontmatter}
use wkp.Frontmatter.Parse.{parse}
use wkp.Frontmatter.Render.{debug, render}
use wkp.Merge.Scalars.{
  resolve_scalar, text_equality, item_type_equality, scope_equality, visibility_equality,
  confidence_equality,
}
use wkp.Merge.Lists.{union, max_updated}
use wkp.Base.Equality.{option_eq}

-- The merged frontmatter, and whether a scalar is in conflict.
unfoldable pub merge_frontmatter : Frontmatter → Frontmatter → Frontmatter → Frontmatter × Bool
merge_frontmatter base ours theirs =
    let title = resolve_scalar ours.title base.title ours.title theirs.title in
    let item_type = resolve_scalar ours.item_type base.item_type ours.item_type theirs.item_type in
    let scope = resolve_scalar ours.scope base.scope ours.scope theirs.scope in
    let workspace = resolve_scalar ours.workspace base.workspace ours.workspace theirs.workspace in
    let visibility =
      resolve_scalar ours.visibility base.visibility ours.visibility theirs.visibility in
    let confidence =
      resolve_scalar ours.confidence base.confidence ours.confidence theirs.confidence in
    let expires = resolve_scalar ours.expires base.expires ours.expires theirs.expires in
    (
      record ours {
        title = title.0;
        item_type = item_type.0;
        scope = scope.0;
        workspace = workspace.0;
        visibility = visibility.0;
        confidence = confidence.0;
        expires = expires.0;
        tags = union ours.tags theirs.tags;
        updated = max_updated ours.updated theirs.updated;
      },
      title.1
          || (item_type.1
              || (scope.1 || (workspace.1 || (visibility.1 || (confidence.1 || expires.1))))),
    )

unfoldable pub body_conflict : Text → Text → Text → Bool
body_conflict base ours theirs =
    not (text_eq ours base) && (not (text_eq theirs base) && not (text_eq ours theirs))

abbrev pub conflict_marker : Text
conflict_marker = codes "<!-- wkp-merge-conflict -->"

abbrev pub actor_of : Text → Text
actor_of text = or_else (parse text).frontmatter.provenance.actor (codes "unknown")

abbrev pub conflict_notice : Text
conflict_notice =
    codes
      "\n<!-- wkp: this item could not be merged structurally; both versions are kept below. Resolve by hand and commit normally. -->\n\n"

-- The opening comment of one side.
abbrev pub side : (ℕ → Bool) → String → Text → Text
side printable name text = codes name ++ (debug printable (actor_of text) ++ codes ") -->\n")

unfoldable pub render_conflict : (ℕ → Bool) → Text → Text → Text
render_conflict printable ours theirs =
    conflict_marker
    ++ (conflict_notice
        ++ (side printable "<!-- ours (provenance.actor: " ours
            ++ (trim_end ours
                ++ (codes "\n\n"
                    ++ (side printable "<!-- theirs (provenance.actor: " theirs
                        ++ (trim_end theirs ++ codes "\n"))))))

abbrev pub merged_body : Text → Text → Text → Text
merged_body base ours theirs = if not (text_eq ours base) then ours else theirs

-- The file is in conflict: a scalar of the frontmatter, or the body.
unfoldable pub in_conflict : Text → Text → Text → Bool
in_conflict base ours theirs =
    (merge_frontmatter (parse base).frontmatter (parse ours).frontmatter
      (parse theirs).frontmatter).1
    || body_conflict (parse base).body (parse ours).body (parse theirs).body

unfoldable pub merge : (ℕ → Bool) → Text → Text → Text → Text
merge printable base ours theirs =
    let merged =
      merge_frontmatter (parse base).frontmatter (parse ours).frontmatter
        (parse theirs).frontmatter in
    if in_conflict base ours theirs
    then render_conflict printable ours theirs
    else render printable merged.0
      ++ b'\n' ∷ merged_body (parse base).body (parse ours).body (parse theirs).body
