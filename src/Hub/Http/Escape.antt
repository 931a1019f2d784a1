-- ===== src/Hub/Http/Escape.antt =====
-- The escaping of a text in a page.
use wkp.Base.{
  ℕ, ◌≡◌, refl, ap₂, ◌∙◌, inl, inr, [], ◌∷◌, ◌++◌, map, append_assoc, ◌==◌, if◌then◌else◌,
  Bool-cases, flatten,
}
use wkp.Str.{Text, codes}
use wkp.Hub.Http.{replace_char, html_escape}

replace_char-append :
    (c : ℕ) (w a b : Text) → replace_char c w (a ++ b) ≡ replace_char c w a ++ replace_char c w b
unfolding replace_char
replace_char-append c w [] b = refl
replace_char-append c w (d ∷ a) b = elim (Bool-cases (d == c)) [
  | inl e ↦
      rw (e, replace_char-append c w a b, append_assoc w (replace_char c w a) (replace_char c w b))
        refl
  | inr e ↦ rw (e, replace_char-append c w a b) refl
]

html_escape-append : (a b : Text) → html_escape (a ++ b) ≡ html_escape a ++ html_escape b
unfolding html_escape
html_escape-append a b = simp replace_char-append

-- The reference of one character.
abbrev pub escaped : ℕ → Text
escaped c =
    if c == b'&'
    then codes "&amp;"
    else if c == b'<'
    then codes "&lt;"
    else if c == b'>'
    then codes "&gt;"
    else if c == b'"'
    then codes "&quot;"
    else c ∷ []

html_escape-single : (c : ℕ) → html_escape (c ∷ []) ≡ escaped c
unfolding html_escape replace_char
html_escape-single c = elim (Bool-cases (c == b'&')) [
  | inl e ↦ rw e refl
  | inr e ↦ elim (Bool-cases (c == b'<')) [
    | inl e' ↦ rw (e, e') refl
    | inr e' ↦ elim (Bool-cases (c == b'>')) [
      | inl e'' ↦ rw (e, e', e'') refl
      | inr e'' ↦ rw (e, e', e'') refl
    ]
  ]
]

-- The four replacements one after the other, `&` first, escape each character on its own: none of
-- them changes what an earlier one has put in.
pub html_escape_each : (s : Text) → html_escape s ≡ flatten (map escaped s)
html_escape_each [] = unfold html_escape replace_char in refl
html_escape_each (c ∷ s) =
    html_escape-append (c ∷ []) s ∙ ap₂ (λ a b. a ++ b) (html_escape-single c) (html_escape_each s)
