-- ===== src/Frontmatter/RoundTrip/Conditions.antt =====
-- The conditions on a frontmatter under which each of its values survives a line.
use wkp.Base.{
  ℕ, ◌≡◌, refl, ap, ◌∙◌, subst, inl, inr, Bool, true, false, not, ◌&&◌, Option, none, some, List,
  [], ◌∷◌, ◌++◌, map, arith, ◌==◌, Bool-cases, &&-elim, filter, all, is_empty,
}
use wkp.Str.{Text, codes, is_whitespace, split_by, join, trim, strip_prefix, push_first}
use wkp.Str.Laws.{
  ends_solid-append, has_no-append, trim_of_solid_start, has_no, starts_solid, ends_solid,
  trim_solid, trim_space, strip_last-concat,
}
use wkp.Frontmatter.Types.{
  Frontmatter, Provenance, parse_item_type, parse_scope, parse_visibility, parse_confidence,
  parse_source_kind,
}
use wkp.Frontmatter.Values.{
  unquote, is_null, opt_string, parse_inline_list, list_items, parse_tokens, list_value,
}
use wkp.Frontmatter.Render.{debug}
use wkp.Frontmatter.RoundTrip.Plain.{
  is_inline, is_unquoted, is_bare, is_quotable, unquote-unquoted, debug-quotable,
}

abbrev pub Each {ℓ} : {A : Type ℓ} → (A → Type 0) → Option A → Type 0
Each P none = Unit
Each P (some a) = P a

pub Each-some {ℓ} :
    {A : Type ℓ} (P : A → Type 0) (o : Option A) (a : A) → Each P o → o ≡ some a → P a
Each-some P none a h e = cc
Each-some P (some b) a h e = subst (Each P) e h

-- A value of an open enumeration that is read from a bare text.
abbrev pub BareAs {ℓ} : {A : Type ℓ} → (Text → A) → A → Type ℓ
BareAs parse x = (raw : Text) × (x ≡ parse raw) × (is_bare raw ≡ true)

-- An item of an inline list.
abbrev pub is_item : Text → Bool
is_item v = is_unquoted v && has_no b',' v

abbrev pub PlainTokens : Option Text → Option ℕ → Type 0
PlainTokens none tokens = tokens ≡ none
PlainTokens (some raw) tokens = (is_bare raw ≡ true) × (tokens ≡ parse_tokens raw)

abbrev pub IsQuotable : (ℕ → Bool) → Text → Type 0
IsQuotable printable t = is_quotable printable t ≡ true

pub record IsPlainProvenance (printable : ℕ → Bool) (p : Provenance) : Type 0 where
  pub actor : Each (IsQuotable printable) p.actor
  pub session : Each (IsQuotable printable) p.session
  pub source : Each (BareAs parse_source_kind) p.source

-- A frontmatter whose values a line of the format can carry: quoted texts need no escape, bare ones
-- have no outer white space, newline or quote, and no list item has a comma.
pub record IsPlain (printable : ℕ → Bool) (fm : Frontmatter) : Type 0 where
  pub title : Each (IsQuotable printable) fm.title
  pub item_type : Each (BareAs parse_item_type) fm.item_type
  pub scope : Each (BareAs parse_scope) fm.scope
  pub workspace : Each (λ t. is_bare t ≡ true) fm.workspace
  pub visibility : Each (BareAs parse_visibility) fm.visibility
  pub provenance : IsPlainProvenance printable fm.provenance
  pub confidence : Each (BareAs parse_confidence) fm.confidence
  pub expires : Each (IsQuotable printable) fm.expires
  pub tokens : PlainTokens fm.tokens_raw fm.tokens
  pub tags : all is_item fm.tags ≡ true
  pub refs : all is_item fm.refs ≡ true
  pub updated : Each (IsQuotable printable) fm.updated

pub bare_value :
    (v : Text) → is_bare v ≡ true → (is_inline v ≡ true) × (unquote v ≡ v) × (is_null v ≡ false)
bare_value v h =
    let parts = &&-elim (is_unquoted v) (not (is_null v)) h in
    (ground arith, unquote-unquoted v parts.0, ground arith)

pub opt_string-some : (v : Text) → is_null v ≡ false → opt_string v ≡ some v
unfolding opt_string
opt_string-some v h = rw h refl

-- What a quoted value gives back.
pub opt_string-debug :
    (printable : ℕ → Bool) (v : Text)
    → is_quotable printable v ≡ true
    → opt_string (unquote (debug printable v)) ≡ some v
opt_string-debug printable v h =
    let (inline, same, solid) = debug-quotable printable v h in rw same (opt_string-some v solid)

pub opt_string-bare : (v : Text) → is_bare v ≡ true → opt_string (unquote v) ≡ some v
opt_string-bare v h =
    let (inline, same, solid) = bare_value v h in rw same (opt_string-some v solid)

-- The items of a list, as `list_items` reads them.
abbrev read_items : List Text → List Text
read_items pieces = filter (λ item. not (is_empty item)) (map (λ item. unquote (trim item)) pieces)

is_item-read :
    (v : Text) (rest : List Text) → is_item v ≡ true → read_items (v ∷ rest) ≡ v ∷ read_items rest
is_item-read [] rest h = cc
is_item-read (c ∷ v) rest h =
    rw (trim_solid (c ∷ v) (ground arith) (ground arith), unquote-unquoted (c ∷ v) (ground arith))
      refl

-- `split_by` at the comma behind an item.
split_by-item :
    (v rest : Text)
    → has_no b',' v ≡ true
    → split_by (λ c. c == b',') (v ++ b',' ∷ rest) ≡ v ∷ split_by (λ c. c == b',') rest
unfolding split_by
split_by-item [] rest h = refl
split_by-item (c ∷ v) rest h = ground (arith, split_by-item v rest)

split_by_last : (v : Text) → has_no b',' v ≡ true → split_by (λ c. c == b',') v ≡ v ∷ []
unfolding split_by
split_by_last [] h = refl
split_by_last (c ∷ v) h = ground (arith, split_by_last v)

push_first-cons :
    (c : ℕ) (ls : List Text) → (p : Text) × (ps : List Text) × (push_first c ls ≡ p ∷ ps)
push_first-cons c [] = (c ∷ [], [], refl)
push_first-cons c (l ∷ ls) = (c ∷ l, ls, refl)

split_by-cons : (q : ℕ → Bool) (t : Text) → (p : Text) × (ps : List Text) × (split_by q t ≡ p ∷ ps)
unfolding split_by
split_by-cons q [] = ([], [], refl)
split_by-cons q (c ∷ t) = elim (Bool-cases (q c)) [
  | inl e ↦ ([], split_by q t, rw e refl)
  | inr e ↦ let (p, ps, f) = push_first-cons c (split_by q t) in (p, ps, rw e f)
]

read_items-push_first :
    (p : Text) (ps : List Text) → read_items ((b' ' ∷ p) ∷ ps) ≡ read_items (p ∷ ps)
read_items-push_first p ps = rw (trim_space p) refl

read_items-space :
    (t : Text)
    → read_items (split_by (λ c. c == b',') (b' ' ∷ t)) ≡ read_items (split_by (λ c. c == b',') t)
unfolding split_by
read_items-space t =
    let (p, ps, e) = split_by-cons (λ c. c == b',') t in rw e (read_items-push_first p ps)

read_items-join :
    (v : Text) (vs : List Text)
    → all is_item (v ∷ vs) ≡ true
    → read_items (split_by (λ c. c == b',') (join (codes ", ") (v ∷ vs))) ≡ v ∷ vs
unfolding join
read_items-join v [] h =
    let (item, _) = &&-elim (is_item v) true h in
    rw (split_by_last v (ground arith)) (is_item-read v [] item)
read_items-join v (w ∷ vs) h =
    let (item, others) = &&-elim (is_item v) (all is_item (w ∷ vs)) h in
    ap read_items (split_by-item v (b' ' ∷ join (codes ", ") (w ∷ vs)) (ground arith))
    ∙ is_item-read v _ item
    ∙ ap (λ r. v ∷ r) (read_items-space (join (codes ", ") (w ∷ vs)) ∙ read_items-join w vs others)

abbrev bracketed : List Text → Text
bracketed items = b'[' ∷ (join (codes ", ") items ++ b']' ∷ [])

join-cons :
    (c : ℕ) (v : Text) (vs : List Text) → (t : Text) × (join (codes ", ") ((c ∷ v) ∷ vs) ≡ c ∷ t)
unfolding join
join-cons c v [] = (v, refl)
join-cons c v (w ∷ vs) = (v ++ (codes ", " ++ join (codes ", ") (w ∷ vs)), refl)

is_empty-join :
    (v : Text) (vs : List Text)
    → starts_solid v ≡ true
    → is_empty (trim (join (codes ", ") (v ∷ vs))) ≡ false
is_empty-join [] vs h = cc
is_empty-join (c ∷ v) vs h =
    let (t, e) = join-cons c v vs in rw (e, trim_of_solid_start c t (ground arith)) refl

has_no-join :
    (v : Text) (vs : List Text)
    → all is_item (v ∷ vs) ≡ true
    → has_no b'\n' (join (codes ", ") (v ∷ vs)) ≡ true
unfolding join
has_no-join v [] h = let (item, _) = &&-elim (is_item v) true h in ground arith
has_no-join v (w ∷ vs) h =
    let (item, others) = &&-elim (is_item v) (all is_item (w ∷ vs)) h in
    has_no-append b'\n' v (codes ", " ++ join (codes ", ") (w ∷ vs)) (ground arith)
      (has_no-join w vs others)

parse_inline_list-bracketed :
    (v : Text) (vs : List Text)
    → all is_item (v ∷ vs) ≡ true
    → parse_inline_list (bracketed (v ∷ vs)) ≡ some (v ∷ vs)
unfolding parse_inline_list strip_prefix list_items
parse_inline_list-bracketed v vs h =
    let (item, others) = &&-elim (is_item v) (all is_item vs) h in
    rw
      (
        strip_last-concat b']' (join (codes ", ") (v ∷ vs)),
        is_empty-join v vs (ground arith),
        read_items-join v vs h,
      )
      refl

-- A rendered list reads back.
pub list_value-bracketed :
    (v : Text) (vs : List Text)
    → all is_item (v ∷ vs) ≡ true
    → (is_inline (bracketed (v ∷ vs)) ≡ true) × (list_value (unquote (bracketed (v ∷ vs))) ≡ v ∷ vs)
list_value-bracketed v vs h =
    let items = join (codes ", ") (v ∷ vs) in
    let solid : ends_solid (bracketed (v ∷ vs)) ≡ true =
      ends_solid-append (b'[' ∷ items) (b']' ∷ []) (unfold is_whitespace in refl) in
    let one_line : has_no b'\n' (bracketed (v ∷ vs)) ≡ true =
      has_no-append b'\n' (b'[' ∷ items) (b']' ∷ []) (has_no-join v vs h) refl in
    let unquoted : is_unquoted (bracketed (v ∷ vs)) ≡ true =
      rw (solid, one_line) (unfold is_whitespace in refl) in
    (
      rw (solid, one_line) (unfold is_whitespace in refl),
      rw (unquote-unquoted (bracketed (v ∷ vs)) unquoted, parse_inline_list-bracketed v vs h) refl,
    )
