-- ===== src/Hub/Http.antt =====
-- http.rs: the route of a git request, and the decoding and escaping of form values.
pub mod Route
pub mod Escape
pub mod Percent
use wkp.Base.{
  ℕ, zero, suc, ◌+◌, ◌-◌, ◌*◌, ◌/◌, ◌%◌, ◌^◌, ◌≤◌, ◌<◌, min, max, String, ◌≡◌, refl, sym, ap, ap₂,
  ◌∙◌, subst, ◌≡⟨◌⟩◌, ◌∎, ◌≢◌, ◌↔◌, ◌⊎◌, inl, inr, Bool, true, false, not, ◌&&◌, ◌||◌, Option, none,
  some, List, [], ◌∷◌, ◌++◌, map, append-nil, append_assoc, arith, ltb, leb, ◌==◌, if◌then◌else◌,
  ==_iff, Bool-cases, Option-cases, &&-elim, length, take, drop, flatten, filter, take_while, all,
  any, is_empty, length-append, take-append, drop-append, filter_map, or_else, is_some, map_option,
  ◌>>=◌, all-append, drop_past, push_some,
}
use wkp.Str.{Text, codes, text_eq, strip_prefix, split_once}

-- `strip_suffix` of a suffix that is not empty
unfoldable pub strip_suffix : Text → Text → Option Text
strip_suffix suffix [] = none
strip_suffix suffix (c ∷ cs) =
    let later = strip_suffix suffix cs in
    if text_eq (c ∷ cs) suffix then some [] else map_option (λ r. c ∷ r) later

abbrev pub route_of : Option Text → Text → Option (Text × Text)
route_of none suffix = none
route_of (some slug) suffix = if is_empty slug || is_empty suffix then none else some (slug, suffix)

abbrev pub repo_route : Option (Text × Text) → Option (Text × Text)
repo_route none = none
repo_route (some (repo, suffix)) = route_of (strip_suffix (codes ".git") repo) suffix

abbrev pub rest_route : Option Text → Option (Text × Text)
rest_route none = none
rest_route (some rest) = repo_route (split_once b'/' rest)

unfoldable pub git_http_path : Text → Option (Text × Text)
git_http_path path = rest_route (strip_prefix (codes "/") path)

-- `replace` of a character
unfoldable pub replace_char : ℕ → Text → Text → Text
replace_char c with_text [] = []
replace_char c with_text (d ∷ ds) =
    let rest = replace_char c with_text ds in if d == c then with_text ++ rest else d ∷ rest

unfoldable pub html_escape : Text → Text
unfolding replace_char
html_escape s = replace_char b'"' (codes "&quot;") (
    replace_char b'>' (codes "&gt;")
      (replace_char b'<' (codes "&lt;") (replace_char b'&' (codes "&amp;") s)))

-- Percent decoding, on the bytes of a text.

-- A digit of `from_str_radix(.., 16)`
unfoldable pub hex_value : ℕ → Option ℕ
hex_value c =
    if leb b'0' c && leb c b'9'
    then some (c - b'0')
    else if leb b'a' c && leb c b'f'
    then some (c - b'a' + 10)
    else if leb b'A' c && leb c b'F'
    then some (c - b'A' + 10)
    else none

abbrev two_digits : Option ℕ → Option ℕ → Option ℕ
two_digits (some x) (some y) = some (x * 16 + y)
two_digits _ _ = none

-- `u8::from_str_radix` of two bytes, which takes a `+` in front of a digit
unfoldable pub hex_byte : ℕ → ℕ → Option ℕ
unfolding hex_value
hex_byte a b = if a == b'+' then hex_value b else two_digits (hex_value a) (hex_value b)

-- A byte of a character that is not its first one.
abbrev pub is_continuation : ℕ → Bool
is_continuation b = leb 0x80 b && ltb b 0xc0

-- A character of the text starts, or the text ends, in front of these bytes.
abbrev pub at_boundary : Text → Bool
at_boundary [] = true
at_boundary (b ∷ bytes) = not (is_continuation b)

abbrev pub push_byte : ℕ → Option Text → Option Text
push_byte b none = none
push_byte b (some out) = some (b ∷ out)

-- The decoded bytes; `none` where the slice of the two digits panics.
unfoldable pub percent_decode : Text → Option Text
percent_decode [] = some []
percent_decode (c ∷ []) = some ((if c == b'+' then b' ' else c) ∷ [])
percent_decode (c ∷ d ∷ []) = push_byte (if c == b'+' then b' ' else c) (percent_decode (d ∷ []))
percent_decode (c ∷ d ∷ e ∷ bytes) =
    let decoded = percent_decode bytes in
    let later = percent_decode (d ∷ e ∷ bytes) in
    if c == b'+'
    then push_byte b' ' later
    else if c == b'%'
    then (if at_boundary bytes && at_boundary (d ∷ e ∷ bytes)
        then elim (hex_byte d e) [ some byte ↦ push_byte byte decoded | none ↦ push_byte c later ]
        else none)
    else push_byte c later
