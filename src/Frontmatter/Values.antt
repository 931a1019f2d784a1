-- ===== src/Frontmatter/Values.antt =====
-- The values of frontmatter.rs: splitting a line at its colon, quotes, null, lists and numbers, and
-- the functions that write a value to its field.
use wkp.Base.{
  ℕ, ◌+◌, ◌-◌, ◌*◌, ◌^◌, Bool, not, ◌||◌, Option, none, some, List, [], ◌∷◌, ◌++◌, map, ltb, ◌==◌,
  if◌then◌else◌, filter, is_empty, filter_map, or_else, map_option, ◌>>=◌,
}
use wkp.Str.{Text, codes, text_eq, trim, strip_prefix, strip_last, split_once, split_by, is_digit}
use wkp.Frontmatter.Types.{
  Provenance, Frontmatter, Warning, malformed_provenance, provenance_at_top, parse_item_type,
  parse_scope, parse_visibility, parse_confidence, parse_source_kind,
}
use wkp.Frontmatter.Lines.{Line}

abbrev pub key_value : Text → Text → Option (Text × Text)
key_value key rest = if is_empty key then none else some (key, rest)

abbrev pub trimmed_pair : Option (Text × Text) → Option (Text × Text)
trimmed_pair none = none
trimmed_pair (some (key, rest)) = key_value (trim key) (trim rest)

unfoldable pub split_key_value : Text → Option (Text × Text)
split_key_value content = trimmed_pair (split_once b':' content)

-- The text between two quotes `q`, if it starts and ends with one and has two characters at least.
unfoldable pub unquote_by : ℕ → Text → Option Text
unquote_by q [] = none
unquote_by q (c ∷ cs) = if c == q then strip_last q cs else none

unfoldable pub unquote : Text → Text
unquote value = let v = trim value in or_else (unquote_by b'"' v) (or_else (unquote_by b'\'' v) v)

unfoldable pub is_null : Text → Bool
is_null value = text_eq value (codes "null") || text_eq value (codes "~") || is_empty value

-- The items between the brackets.
unfoldable pub list_items : Text → List Text
list_items inner =
    filter (λ item. not (is_empty item))
      (map (λ item. unquote (trim item)) (split_by (λ c. c == b',') inner))

unfoldable pub parse_inline_list : Text → Option (List Text)
parse_inline_list value = do
  opened ← strip_prefix (codes "[") value
  inner ← strip_last b']' opened
  some (if is_empty (trim inner) then [] else list_items inner)

-- `str::parse::<u32>` on digits: `none` from 2 ^ 32 on
unfoldable pub parse_u32 : ℕ → Text → Option ℕ
parse_u32 n [] = if ltb n (2 ^ 32) then some n else none
parse_u32 n (c ∷ cs) = parse_u32 (n * 10 + (c - b'0')) cs

unfoldable pub parse_tokens : Text → Option ℕ
parse_tokens raw =
    let digits = filter is_digit raw in if is_empty digits then none else parse_u32 0 digits

unfoldable pub single_item : Text → List Text
single_item value = if is_null value then [] else value ∷ []

unfoldable pub opt_string : Text → Option Text
opt_string value = if is_null value then none else some value

unfoldable pub apply_provenance_field : Provenance → Text → Text → Provenance
apply_provenance_field prov key value =
    if text_eq key (codes "actor")
    then record prov { actor = opt_string value }
    else if text_eq key (codes "session")
    then record prov { session = opt_string value }
    else if text_eq key (codes "source")
    then record prov { source = map_option parse_source_kind (opt_string value) }
    else prov

-- The frontmatter that is being built, and the warnings so far.
abbrev pub Parsing : Type 0
Parsing = Frontmatter × List Warning

abbrev pub is_provenance_key : Text → Bool
is_provenance_key key =
    text_eq key (codes "actor") || text_eq key (codes "session") || text_eq key (codes "source")

abbrev pub list_value : Text → List Text
list_value value = or_else (parse_inline_list value) (single_item value)

-- the `match key` of `apply_scalar_value`, up to the provenance keys
unfoldable pub set_scalar : Frontmatter → Text → Text → Frontmatter
set_scalar fm key value =
    if text_eq key (codes "title")
    then record fm { title = opt_string value }
    else if text_eq key (codes "type")
    then record fm { item_type = map_option parse_item_type (opt_string value) }
    else if text_eq key (codes "scope")
    then record fm { scope = map_option parse_scope (opt_string value) }
    else if text_eq key (codes "workspace")
    then record fm { workspace = opt_string value }
    else if text_eq key (codes "visibility")
    then record fm { visibility = map_option parse_visibility (opt_string value) }
    else if text_eq key (codes "confidence")
    then record fm { confidence = map_option parse_confidence (opt_string value) }
    else if text_eq key (codes "expires")
    then record fm { expires = opt_string value }
    else if text_eq key (codes "updated")
    then record fm { updated = opt_string value }
    else if text_eq key (codes "tokens")
    then (if is_null value
        then record fm { tokens_raw = none; tokens = none }
        else record fm { tokens_raw = some value; tokens = parse_tokens value })
    else if text_eq key (codes "tags")
    then record fm { tags = list_value value }
    else if text_eq key (codes "refs")
    then record fm { refs = list_value value }
    else if is_provenance_key key
    then record fm { provenance = apply_provenance_field fm.provenance key value }
    else fm

-- Only the provenance keys, written at top level, get a warning.
unfoldable pub apply_scalar_value : Parsing → Text → Text → Parsing
apply_scalar_value (fm, warnings) key value = (
  set_scalar fm key (unquote value),
  if is_provenance_key key then warnings ++ provenance_at_top key ∷ [] else warnings,
)

abbrev pub apply_pair : Parsing → Text → Option (Text × Text) → Parsing
apply_pair (fm, warnings) content (some (k, v)) =
    (record fm { provenance = apply_provenance_field fm.provenance k (unquote v) }, warnings)
apply_pair (fm, warnings) content none = (fm, warnings ++ malformed_provenance content ∷ [])

-- The `provenance` arm of `apply_block_value`.
unfoldable pub apply_provenance_children : Parsing → List Line → Parsing
apply_provenance_children s [] = s
apply_provenance_children s (child ∷ children) =
    apply_provenance_children (apply_pair s child.content (split_key_value child.content)) children

-- The items of a block list.
unfoldable pub block_items : List Line → List Text
block_items children =
    filter (λ item. not (is_empty item))
      (map (λ item. unquote (trim item))
        (filter_map (λ (child : Line). strip_prefix (codes "-") child.content) children))

unfoldable pub apply_block_value : Parsing → Text → List Line → Parsing
apply_block_value (fm, warnings) key children =
    if text_eq key (codes "provenance")
    then apply_provenance_children (fm, warnings) children
    else if text_eq key (codes "tags")
    then (record fm { tags = block_items children }, warnings)
    else if text_eq key (codes "refs")
    then (record fm { refs = block_items children }, warnings)
    else (fm, warnings)
