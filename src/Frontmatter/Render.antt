-- ===== src/Frontmatter/Render.antt =====
-- `render` of frontmatter.rs, with `{:?}` of a text.
use wkp.Base.{
  ℕ, zero, suc, ◌+◌, ◌-◌, ◌/◌, ◌%◌, Bool, ◌||◌, List, [], ◌∷◌, ◌++◌, String, Option, none, some,
  ◌==◌, ltb, if◌then◌else◌, is_empty, is_some,
}
use wkp.Str.{Text, codes, join}
use wkp.Frontmatter.Types.{
  Provenance, Frontmatter, show_item_type, show_scope, show_visibility, show_confidence,
  show_source_kind,
}

-- One digit of `format!("{:x}")` or, below ten, of `{}`.
abbrev digit_char : ℕ → ℕ
digit_char d = if ltb d 10 then b'0' + d else b'a' + (d - 10)

-- The digits of `n` in base `b`, the last one first; the fuel bounds their number.
show_digits : ℕ → ℕ → ℕ → Text
show_digits b zero n = []
show_digits b (suc f) n =
    let more = show_digits b f (n / b) in (if ltb n b then [] else more) ++ digit_char (n % b) ∷ []

-- `{}` of a `u32`, which has ten digits at most
unfoldable pub show_u32 : ℕ → Text
unfolding show_digits
show_u32 = show_digits 10 10

-- `{:x}` of a code point, which has six digits at most
unfoldable pub show_hex : ℕ → Text
unfolding show_digits
show_hex = show_digits 16 6

-- One character of `{:?}`. Which code points are printable is a table of Rust's library: `printable`.
unfoldable pub debug_char : (ℕ → Bool) → ℕ → Text
debug_char printable c =
    if c == 0
    then codes "\\0"
    else if c == b'\t'
    then codes "\\t"
    else if c == b'\r'
    then codes "\\r"
    else if c == b'\n'
    then codes "\\n"
    else if c == b'\\'
    then codes "\\\\"
    else if c == b'"'
    then codes "\\\""
    else if printable c
    then c ∷ []
    else codes "\\u{" ++ (show_hex c ++ codes "}")

unfoldable pub debug_chars : (ℕ → Bool) → Text → Text
debug_chars printable [] = []
debug_chars printable (c ∷ cs) = debug_char printable c ++ debug_chars printable cs

-- `{:?}` of a `str`
unfoldable pub debug : (ℕ → Bool) → Text → Text
debug printable t = b'"' ∷ (debug_chars printable t ++ b'"' ∷ [])

abbrev pub line : String → Text → Text
line head value = codes head ++ (value ++ b'\n' ∷ [])

-- `if let Some(v) = &field { block.push_str(..) }`
abbrev pub optional {ℓ} : {A : Type ℓ} → String → (A → Text) → Option A → Text
optional head show none = []
optional head show (some v) = line head (show v)

unfoldable pub render_provenance : (ℕ → Bool) → Provenance → Text
render_provenance printable p =
    if is_some p.actor || is_some p.session || is_some p.source
    then codes "provenance:\n"
      ++ (optional "  actor: " (debug printable) p.actor
          ++ (optional "  session: " (debug printable) p.session
              ++ optional "  source: " show_source_kind p.source))
    else []

unfoldable pub render_tokens : Option Text → Option ℕ → Text
render_tokens (some raw) tokens = line "tokens: " raw
render_tokens none tokens = optional "tokens: " show_u32 tokens

unfoldable pub render_list : String → List Text → Text
render_list head items =
    if is_empty items then [] else line head (b'[' ∷ (join (codes ", ") items ++ b']' ∷ []))

-- The lines between the delimiters.
unfoldable pub render_fields : (ℕ → Bool) → Frontmatter → Text
render_fields printable fm =
    optional "title: " (debug printable) fm.title
    ++ (optional "type: " show_item_type fm.item_type
        ++ (optional "scope: " show_scope fm.scope
            ++ (optional "workspace: " (λ t. t) fm.workspace
                ++ (optional "visibility: " show_visibility fm.visibility
                    ++ (render_provenance printable fm.provenance
                        ++ (optional "confidence: " show_confidence fm.confidence
                            ++ (optional "expires: " (debug printable) fm.expires
                                ++ (render_tokens fm.tokens_raw fm.tokens
                                    ++ (render_list "tags: " fm.tags
                                        ++ (render_list "refs: " fm.refs
                                            ++ optional "updated: " (debug printable)
                                                fm.updated))))))))))

unfoldable pub render : (ℕ → Bool) → Frontmatter → Text
render printable fm = codes "---\n" ++ (render_fields printable fm ++ codes "---\n")
