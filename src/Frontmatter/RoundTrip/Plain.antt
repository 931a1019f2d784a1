-- ===== src/Frontmatter/RoundTrip/Plain.antt =====
-- The values that a rendered line carries unchanged, and `unquote` on them.
use wkp.Base.{
  ℕ, ◌≡◌, refl, ◌⊎◌, inl, inr, Bool, true, false, not, ◌&&◌, ◌||◌, none, [], ◌∷◌, ◌++◌, arith, ◌==◌,
  &&-elim, all,
}
use wkp.Str.{Text, is_whitespace}
use wkp.Str.Laws.{
  has_no-append, ends_solid-append, starts_solid, ends_solid, has_no, trim_solid, strip_last-concat,
}
use wkp.Frontmatter.Values.{is_null, unquote, unquote_by}
use wkp.Frontmatter.Render.{debug_char, debug_chars, debug}

abbrev pub starts_quoted : Text → Bool
starts_quoted [] = false
starts_quoted (c ∷ cs) = c == b'"' || c == b'\''

-- A value that a line can carry: no white space at its ends, and no newline.
abbrev pub is_inline : Text → Bool
is_inline v = starts_solid v && (ends_solid v && has_no b'\n' v)

-- A value that needs no quotes.
abbrev pub is_unquoted : Text → Bool
is_unquoted v = is_inline v && not (starts_quoted v)

-- An unquoted value that is not read as null.
abbrev pub is_bare : Text → Bool
is_bare v = is_unquoted v && not (is_null v)

-- A character that `{:?}` leaves as it is.
abbrev pub is_verbatim : (ℕ → Bool) → ℕ → Bool
is_verbatim printable c =
    printable c && not (c == 0 || c == b'\t' || c == b'\r' || c == b'\n' || c == b'\\' || c == b'"')

-- A text that `{:?}` only puts in quotes, and that is not read as null.
abbrev pub is_quotable : (ℕ → Bool) → Text → Bool
is_quotable printable v = all (is_verbatim printable) v && not (is_null v)

debug_char-verbatim :
    (printable : ℕ → Bool) (c : ℕ)
    → is_verbatim printable c ≡ true
    → debug_char printable c ≡ c ∷ []
unfolding debug_char
debug_char-verbatim printable c h = ground arith

pub debug_chars-verbatim :
    (printable : ℕ → Bool) (v : Text)
    → all (is_verbatim printable) v ≡ true
    → debug_chars printable v ≡ v
unfolding debug_chars
debug_chars-verbatim printable [] h = refl
debug_chars-verbatim printable (c ∷ cs) h =
    ground (arith, debug_char-verbatim printable c, debug_chars-verbatim printable cs)

has_no-verbatim :
    (printable : ℕ → Bool) (v : Text) → all (is_verbatim printable) v ≡ true → has_no b'\n' v ≡ true
has_no-verbatim printable [] h = refl
has_no-verbatim printable (c ∷ cs) h = ground (arith, has_no-verbatim printable cs)

abbrev quoted : Text → Text
quoted v = b'"' ∷ (v ++ b'"' ∷ [])

ends_solid-quoted : (v : Text) → ends_solid (quoted v) ≡ true
ends_solid-quoted v = ends_solid-append (b'"' ∷ v) (b'"' ∷ []) (unfold is_whitespace in refl)

starts_solid-quoted : (v : Text) → starts_solid (quoted v) ≡ true
unfolding is_whitespace
starts_solid-quoted v = refl

pub unquote-quoted : (v : Text) → unquote (quoted v) ≡ v
unfolding unquote unquote_by
unquote-quoted v =
    rw (trim_solid (quoted v) (starts_solid-quoted v) (ends_solid-quoted v), strip_last-concat) refl

unquote_by-none :
    (q : ℕ) (v : Text) → starts_quoted v ≡ false → (q ≡ b'"') ⊎ (q ≡ b'\'') → unquote_by q v ≡ none
unfolding unquote_by
unquote_by-none q [] h e = refl
unquote_by-none q (c ∷ cs) h e = ground arith

pub unquote-unquoted : (v : Text) → is_unquoted v ≡ true → unquote v ≡ v
unfolding unquote
unquote-unquoted v h =
    let parts = &&-elim (is_inline v) (not (starts_quoted v)) h in
    let t = trim_solid v (ground arith) (ground arith) in
    rw
      (
        t,
        unquote_by-none b'"' v (ground arith) (inl refl),
        unquote_by-none b'\'' v (ground arith) (inr refl),
      )
      refl

-- `debug` of a quotable text, as a value of a line.
pub debug-quotable :
    (printable : ℕ → Bool) (v : Text)
    → is_quotable printable v ≡ true
    → (is_inline (debug printable v) ≡ true)
      × (unquote (debug printable v) ≡ v)
      × (is_null v ≡ false)
unfolding debug
debug-quotable printable v h =
    let (verbatim, solid) = &&-elim (all (is_verbatim printable) v) (not (is_null v)) h in
    rw (debug_chars-verbatim printable v verbatim) (
      ground (
        arith,
        starts_solid-quoted v,
        ends_solid-quoted v,
        has_no-append b'\n' v (b'"' ∷ []) (has_no-verbatim printable v verbatim) refl,
      ),
      unquote-quoted v,
      ground arith,
    )
