-- ===== src/Tests/Files.antt =====
-- Files: frontmatter.rs and merge.rs.
use wkp.Base.{
  ℕ, ◌≡◌, refl, sym, subst, ◌↔◌, ◌⊎◌, Bool, true, false, ◌&&◌, Option, none, some, [], ◌∷◌, ◌++◌,
  leb,
}
use wkp.Str.{
  chomp, split_once, split_by, split_inclusive, strip_last, strip_prefix, trim_end_by,
  trim_start_by, is_whitespace, join, text_eq, Text, codes,
}
use wkp.Frontmatter.Types.{
  show_item_type, parse_item_type, Frontmatter, ItemType, default, unterminated,
}
use wkp.Frontmatter.Lines.{
  is_delimiter_line, strip_opening_delimiter, split_at, split_at_closing_delimiter, logical_line,
  logical_lines,
}
use wkp.Frontmatter.Values.{
  split_key_value, unquote_by, unquote, is_null, list_items, parse_inline_list, parse_u32,
  parse_tokens, single_item, opt_string, set_scalar, apply_scalar_value,
}
use wkp.Frontmatter.Parse.{parse, result, parse_lines, parse_block}
use wkp.Merge.Scalars.{resolve_scalar, text_equality, item_type_beq}
use wkp.Frontmatter.Render.{
  show_u32, render_list, render_tokens, render_provenance, debug_char, debug_chars, debug,
  render_fields, render,
}
use wkp.Frontmatter.Parse.Lossless.{parse_lossless, Framed}
use wkp.Frontmatter.RoundTrip.Conditions.{IsPlain}
use wkp.Frontmatter.RoundTrip.Whole.{parse-render}
use wkp.Base.Equality.{option_eq}
use wkp.Merge.Lists.{contains, union, is_distinct, max_updated}
use wkp.Merge.Clean.{parse-merge, merge_frontmatter_theirs}
use wkp.Frontmatter.Types.Shown.{show-parse_item_type}
use wkp.Merge.Defs.{merged_body, merge, in_conflict, merge_frontmatter, body_conflict}
use wkp.Merge.Conflict.{ScalarsDiverge, Diverges, in_conflict_iff}

-- The printable characters of ASCII.
abbrev printable : ℕ → Bool
printable c = leb 32 c && leb c 126

abbrev item : Frontmatter
item = record default {
  title = some (codes "Db");
  item_type = some ItemType.knowledge;
  tokens_raw = some (codes "12");
  tokens = some 12;
  tags = codes "a" ∷ codes "b" ∷ [];
}

abbrev item_file : Text
item_file = codes "---\ntitle: \"Db\"\ntype: knowledge\ntokens: 12\ntags: [a, b]\n---\n"

render-item : render printable item ≡ item_file
unfolding render render_fields debug debug_chars debug_char render_provenance render_tokens
    render_list show_item_type show_u32 join text_eq
render-item = refl

item-IsPlain : IsPlain printable item
unfolding parse_item_type text_eq is_null parse_tokens parse_u32 is_whitespace
item-IsPlain = record {
  title = refl;
  item_type = (codes "knowledge", refl, refl);
  scope = tt;
  workspace = tt;
  visibility = tt;
  provenance = record { actor = tt; session = tt; source = tt };
  confidence = tt;
  expires = tt;
  tokens = (refl, refl);
  tags = refl;
  refs = refl;
  updated = tt;
}

parse-render_example :
    parse (render printable item ++ codes "Body")
    ≡ record { frontmatter = item; body = codes "Body"; warnings = [] }
parse-render_example = parse-render printable item item-IsPlain (codes "Body")

-- Three versions of a file whose title and tags change on both sides.
abbrev base_file : Text
base_file = codes "---\ntitle: A\ntags: [x]\n---\nOne\n"

abbrev ours_file : Text
ours_file = codes "---\ntitle: B\ntags: [x, y]\n---\nOne\n"

abbrev theirs_file : Text
theirs_file = codes "---\ntitle: C\ntags: [x, z]\n---\nOne\n"

in_conflict_iff_example : (in_conflict base_file ours_file theirs_file ≡ true) ↔ (
    ScalarsDiverge
      (parse base_file).frontmatter
      (parse ours_file).frontmatter
      (parse theirs_file).frontmatter
    ⊎ Diverges (parse base_file).body (parse ours_file).body (parse theirs_file).body)
in_conflict_iff_example = in_conflict_iff base_file ours_file theirs_file

parse_lossless_example :
    (parse item_file ≡ record { frontmatter = default; body = item_file; warnings = [] })
    ⊎ (parse item_file
        ≡ record { frontmatter = default; body = item_file; warnings = unterminated ∷ [] })
    ⊎ ((block : Text) × (body : Text) × Framed item_file block body
        × (parse item_file ≡ result body (parse_block block)))
parse_lossless_example = parse_lossless item_file

merged-item :
    (merge_frontmatter
      (parse item_file).frontmatter
      (parse item_file).frontmatter
      (parse item_file).frontmatter).0
    ≡ item
unfolding in_conflict merge_frontmatter resolve_scalar body_conflict parse parse_block parse_lines
    strip_opening_delimiter split_at_closing_delimiter split_at is_delimiter_line logical_lines
    logical_line split_key_value unquote unquote_by is_null list_items parse_inline_list opt_string
    set_scalar apply_scalar_value is_whitespace trim_start_by trim_end_by strip_prefix strip_last
    split_inclusive split_by split_once chomp text_eq single_item item_type_beq parse_tokens union
    max_updated parse_item_type parse_u32 contains
merged-item = refl

no-conflict : in_conflict item_file item_file item_file ≡ false
unfolding in_conflict merge_frontmatter resolve_scalar body_conflict parse parse_block parse_lines
    strip_opening_delimiter split_at_closing_delimiter split_at is_delimiter_line logical_lines
    logical_line split_key_value unquote unquote_by is_null list_items parse_inline_list opt_string
    set_scalar apply_scalar_value is_whitespace trim_start_by trim_end_by strip_prefix strip_last
    split_inclusive split_by split_once chomp text_eq single_item item_type_beq parse_tokens union
    max_updated parse_item_type parse_u32 contains
no-conflict = refl

parse-merge_example : parse (merge printable item_file item_file item_file) ≡ record {
  frontmatter =
      (merge_frontmatter
        (parse item_file).frontmatter
        (parse item_file).frontmatter
        (parse item_file).frontmatter).0;
  body = b'\n' ∷ merged_body (parse item_file).body (parse item_file).body (parse item_file).body;
  warnings = [];
}
parse-merge_example =
    parse-merge printable item_file item_file item_file no-conflict
      (subst (IsPlain printable) (sym merged-item) item-IsPlain)

abbrev linked : Frontmatter
linked = record item { refs = codes "b.md" ∷ []; updated = some (codes "2026-01-02") }

merge_frontmatter_theirs_example : merge_frontmatter item item linked ≡ (
  record linked {
    refs = [];
    tags = union item.tags linked.tags;
    updated = max_updated item.updated linked.updated;
  },
  false,
)
merge_frontmatter_theirs_example = merge_frontmatter_theirs item linked

tags-is_distinct : is_distinct item.tags ≡ true
unfolding contains text_eq
tags-is_distinct = refl

abbrev no_title : Option Text
no_title = none

title-clean : (resolve_scalar item.title none item.title none).1 ≡ false
unfolding resolve_scalar text_eq
title-clean = refl

show-parse_item_type_example : show_item_type (parse_item_type (codes "skill")) ≡ codes "skill"
show-parse_item_type_example = show-parse_item_type (codes "skill")
