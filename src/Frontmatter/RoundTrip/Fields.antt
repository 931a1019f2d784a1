-- ===== src/Frontmatter/RoundTrip/Fields.antt =====
-- The piece of each field of the frontmatter but the provenance.
use wkp.Base.{ℕ, ◌≡◌, refl, Bool, true, Option, none, some, List, [], ◌∷◌, ◌++◌, all, map_option}
use wkp.Str.{join, Text, codes, text_eq, is_whitespace}
use wkp.Frontmatter.Types.{
  Frontmatter, Warning, ItemType, Scope, Visibility, Confidence, show_item_type, show_scope,
  show_visibility, show_confidence, parse_item_type, parse_scope, parse_visibility,
  parse_confidence,
}
use wkp.Frontmatter.Types.Shown.{
  show-parse_item_type, show-parse_scope, show-parse_visibility, show-parse_confidence,
}
use wkp.Frontmatter.Values.{apply_scalar_value, set_scalar}
use wkp.Frontmatter.Render.{optional, debug, render_tokens, render_list}
use wkp.Frontmatter.RoundTrip.Conditions.{
  Each, Each-some, BareAs, IsQuotable, PlainTokens, bare_value, is_item, list_value-bracketed,
}
use wkp.Frontmatter.RoundTrip.Plain.{is_bare}
use wkp.Frontmatter.RoundTrip.Pieces.{Piece, Piece-nil, line-Piece, quoted-Piece, bare-Piece}

-- `bare-Piece` needs the condition at each value of the option.
BareAs-at :
    {A : Type 0} (parse : Text → A) (o : Option A)
    → Each (BareAs parse) o
    → (a : A) → o ≡ some a
    → BareAs parse a
BareAs-at parse o h a e = Each-some (BareAs parse) o a h e

map_option_id {ℓ} : {A : Type ℓ} (o : Option A) → map_option (λ a. a) o ≡ o
map_option_id none = refl
map_option_id (some a) = refl

module _ (printable : ℕ → Bool) (fm : Frontmatter) (ws : List Warning) where
  pub title-Piece :
      (o : Option Text)
      → Each (IsQuotable printable) o
      → Piece
          (optional "title: " (debug printable) o)
          (record fm { title = none }, ws)
          (record fm { title = o }, ws)
  unfolding apply_scalar_value set_scalar text_eq is_whitespace
  title-Piece o =
      quoted-Piece printable fm ws "title: " (codes "title") o (λ x. record fm { title = x }) refl
        refl (λ v. refl)

  pub item_type-Piece :
      (o : Option ItemType)
      → Each (BareAs parse_item_type) o
      → Piece
          (optional "type: " show_item_type o)
          (record fm { item_type = none }, ws)
          (record fm { item_type = o }, ws)
  unfolding apply_scalar_value set_scalar text_eq is_whitespace
  item_type-Piece o h =
      bare-Piece printable fm ws "type: " (codes "type") parse_item_type show_item_type o
        (λ x. record fm { item_type = x }) refl refl show-parse_item_type (λ v. refl)
        (BareAs-at parse_item_type o h)

  pub scope-Piece :
      (o : Option Scope)
      → Each (BareAs parse_scope) o
      → Piece
          (optional "scope: " show_scope o)
          (record fm { scope = none }, ws)
          (record fm { scope = o }, ws)
  unfolding apply_scalar_value set_scalar text_eq is_whitespace
  scope-Piece o h =
      bare-Piece printable fm ws "scope: " (codes "scope") parse_scope show_scope o
        (λ x. record fm { scope = x }) refl refl show-parse_scope (λ v. refl)
        (BareAs-at parse_scope o h)

  pub workspace-Piece :
      (o : Option Text)
      → Each (λ t. is_bare t ≡ true) o
      → Piece
          (optional "workspace: " (λ t. t) o)
          (record fm { workspace = none }, ws)
          (record fm { workspace = o }, ws)
  unfolding apply_scalar_value set_scalar text_eq is_whitespace
  workspace-Piece o h =
      bare-Piece printable fm ws "workspace: " (codes "workspace") (λ t. t) (λ t. t) o
        (λ x. record fm { workspace = x }) refl refl (λ v. refl) (λ v. rw map_option_id refl)
        (λ a e. (a, refl, Each-some (λ t. is_bare t ≡ true) o a h e))

  pub visibility-Piece :
      (o : Option Visibility)
      → Each (BareAs parse_visibility) o
      → Piece
          (optional "visibility: " show_visibility o)
          (record fm { visibility = none }, ws)
          (record fm { visibility = o }, ws)
  unfolding apply_scalar_value set_scalar text_eq is_whitespace
  visibility-Piece o h =
      bare-Piece printable fm ws "visibility: " (codes "visibility") parse_visibility
        show_visibility o (λ x. record fm { visibility = x }) refl refl show-parse_visibility
        (λ v. refl) (BareAs-at parse_visibility o h)

  pub confidence-Piece :
      (o : Option Confidence)
      → Each (BareAs parse_confidence) o
      → Piece
          (optional "confidence: " show_confidence o)
          (record fm { confidence = none }, ws)
          (record fm { confidence = o }, ws)
  unfolding apply_scalar_value set_scalar text_eq is_whitespace
  confidence-Piece o h =
      bare-Piece printable fm ws "confidence: " (codes "confidence") parse_confidence
        show_confidence o (λ x. record fm { confidence = x }) refl refl show-parse_confidence
        (λ v. refl) (BareAs-at parse_confidence o h)

  pub expires-Piece :
      (o : Option Text)
      → Each (IsQuotable printable) o
      → Piece
          (optional "expires: " (debug printable) o)
          (record fm { expires = none }, ws)
          (record fm { expires = o }, ws)
  unfolding apply_scalar_value set_scalar text_eq is_whitespace
  expires-Piece o =
      quoted-Piece printable fm ws "expires: " (codes "expires") o (λ x. record fm { expires = x })
        refl refl (λ v. refl)

  pub updated-Piece :
      (o : Option Text)
      → Each (IsQuotable printable) o
      → Piece
          (optional "updated: " (debug printable) o)
          (record fm { updated = none }, ws)
          (record fm { updated = o }, ws)
  unfolding apply_scalar_value set_scalar text_eq is_whitespace
  updated-Piece o =
      quoted-Piece printable fm ws "updated: " (codes "updated") o (λ x. record fm { updated = x })
        refl refl (λ v. refl)

  pub tokens-Piece :
      (raw : Option Text) (tokens : Option ℕ)
      → PlainTokens raw tokens
      → Piece
          (render_tokens raw tokens)
          (record fm { tokens_raw = none; tokens = none }, ws)
          (record fm { tokens_raw = raw; tokens = tokens }, ws)
  unfolding apply_scalar_value set_scalar text_eq is_whitespace render_tokens
  tokens-Piece none tokens h = rw h (Piece-nil (record fm { tokens_raw = none; tokens = none }, ws))
  tokens-Piece (some raw) tokens h =
      let (inline, same, solid) = bare_value raw h.0 in
      line-Piece "tokens: " (codes "tokens") raw
        (record fm { tokens_raw = none; tokens = none }, ws)
        (record fm { tokens_raw = some raw; tokens = tokens }, ws) refl refl inline
        (rw (same, solid, h.1) refl)

  pub tags-Piece :
      (items : List Text)
      → all is_item items ≡ true
      → Piece
          (render_list "tags: " items)
          (record fm { tags = [] }, ws)
          (record fm { tags = items }, ws)
  unfolding apply_scalar_value set_scalar text_eq is_whitespace render_list
  tags-Piece [] h = Piece-nil (record fm { tags = [] }, ws)
  tags-Piece (v ∷ vs) h =
      let (inline, same) = list_value-bracketed v vs h in
      line-Piece "tags: " (codes "tags") (b'[' ∷ (join (codes ", ") (v ∷ vs) ++ b']' ∷ []))
        (record fm { tags = [] }, ws) (record fm { tags = v ∷ vs }, ws) refl refl inline
        (λ i. (record fm { tags = same i }, ws))

  pub refs-Piece :
      (items : List Text)
      → all is_item items ≡ true
      → Piece
          (render_list "refs: " items)
          (record fm { refs = [] }, ws)
          (record fm { refs = items }, ws)
  unfolding apply_scalar_value set_scalar text_eq is_whitespace render_list
  refs-Piece [] h = Piece-nil (record fm { refs = [] }, ws)
  refs-Piece (v ∷ vs) h =
      let (inline, same) = list_value-bracketed v vs h in
      line-Piece "refs: " (codes "refs") (b'[' ∷ (join (codes ", ") (v ∷ vs) ++ b']' ∷ []))
        (record fm { refs = [] }, ws) (record fm { refs = v ∷ vs }, ws) refl refl inline
        (λ i. (record fm { refs = same i }, ws))
