-- ===== src/Frontmatter/Types/Shown.antt =====
-- The five open enumerations keep every text: `Display` after `parse` is the identity.
use wkp.Base.{◌≡◌, arith}
use wkp.Str.{Text, codes}
use wkp.Str.Laws.{text_eq_iff}
use wkp.Frontmatter.Types.{
  parse_item_type, show_item_type, parse_scope, show_scope, parse_visibility, show_visibility,
  parse_confidence, show_confidence, parse_source_kind, show_source_kind,
}

pub show-parse_visibility : (raw : Text) → show_visibility (parse_visibility raw) ≡ raw
unfolding parse_visibility show_visibility
show-parse_visibility raw =
    ground (arith, text_eq_iff raw (codes "shared"), text_eq_iff raw (codes "private"))

pub show-parse_scope : (raw : Text) → show_scope (parse_scope raw) ≡ raw
unfolding parse_scope show_scope
show-parse_scope raw = ground (
  arith,
  text_eq_iff raw (codes "user"),
  text_eq_iff raw (codes "project"),
  text_eq_iff raw (codes "org"),
)

pub show-parse_confidence : (raw : Text) → show_confidence (parse_confidence raw) ≡ raw
unfolding parse_confidence show_confidence
show-parse_confidence raw = ground (
  arith,
  text_eq_iff raw (codes "stated"),
  text_eq_iff raw (codes "inferred"),
  text_eq_iff raw (codes "proposed"),
)

pub show-parse_source_kind : (raw : Text) → show_source_kind (parse_source_kind raw) ≡ raw
unfolding parse_source_kind show_source_kind
show-parse_source_kind raw = ground (
  arith,
  text_eq_iff raw (codes "conversation"),
  text_eq_iff raw (codes "file"),
  text_eq_iff raw (codes "tool"),
  text_eq_iff raw (codes "import"),
)

pub show-parse_item_type : (raw : Text) → show_item_type (parse_item_type raw) ≡ raw
unfolding parse_item_type show_item_type
show-parse_item_type raw = ground (
  arith,
  text_eq_iff raw (codes "project-state"),
  text_eq_iff raw (codes "knowledge"),
  text_eq_iff raw (codes "reference"),
  text_eq_iff raw (codes "feedback"),
  text_eq_iff raw (codes "skill"),
  text_eq_iff raw (codes "instruction"),
  text_eq_iff raw (codes "memory"),
)
