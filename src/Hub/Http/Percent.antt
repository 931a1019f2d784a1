-- ===== src/Hub/Http/Percent.antt =====
-- The decoding of form values.
use wkp.Base.{
  ℕ, ◌+◌, ◌-◌, ◌/◌, ◌%◌, ◌<◌, ◌≡◌, refl, ap, ◌∙◌, inl, inr, Bool, true, false, ◌&&◌, ◌||◌, Option,
  none, some, List, [], ◌∷◌, ◌++◌, arith, ltb, leb, ◌==◌, if◌then◌else◌, ==_iff, Bool-cases, all,
  is_some,
}
use wkp.Str.{Text}
use wkp.Hub.Http.{hex_value, hex_byte, at_boundary, push_byte, percent_decode}

-- The encoding of forms: letters, digits and `*-._` stand for themselves.
abbrev between : ℕ → ℕ → ℕ → Bool
between lo hi c = leb lo c && leb c hi

abbrev pub is_plain : ℕ → Bool
is_plain b =
    between b'0' b'9' b
    || between b'A' b'Z' b
    || between b'a' b'z' b
    || b == b'*'
    || b == b'-'
    || b == b'.'
    || b == b'_'

abbrev pub upper_hex : ℕ → ℕ
upper_hex d = if ltb d 10 then b'0' + d else b'A' + (d - 10)

abbrev pub encoded : ℕ → Text
encoded b =
    if is_plain b
    then b ∷ []
    else if b == b' '
    then b'+' ∷ []
    else b'%' ∷ upper_hex (b / 16) ∷ upper_hex (b % 16) ∷ []

abbrev pub form_encode : List ℕ → Text
form_encode [] = []
form_encode (b ∷ bytes) = encoded b ++ form_encode bytes

hex_value-upper_hex : (d : ℕ) → d < 16 → hex_value (upper_hex d) ≡ some d
unfolding hex_value
hex_value-upper_hex d lt = ground arith

hex_byte-upper_hex : (b : ℕ) → b < 256 → hex_byte (upper_hex (b / 16)) (upper_hex (b % 16)) ≡ some b
unfolding hex_byte
hex_byte-upper_hex b lt =
    let no_plus : (upper_hex (b / 16) == b'+') ≡ false = ground arith in
    rw
      (
        no_plus,
        hex_value-upper_hex (b / 16) (omega arith),
        hex_value-upper_hex (b % 16) (omega arith),
      )
      (ap some (omega arith))

decode_plain :
    (c : ℕ) (t : Text)
    → (c == b'+') ≡ false
    → (c == b'%') ≡ false
    → percent_decode (c ∷ t) ≡ push_byte c (percent_decode t)
unfolding percent_decode
decode_plain c [] plus percent = rw plus refl
decode_plain c (d ∷ []) plus percent = rw plus refl
decode_plain c (d ∷ e ∷ t) plus percent = rw (plus, percent) refl

decode_plus : (t : Text) → percent_decode (b'+' ∷ t) ≡ push_byte b' ' (percent_decode t)
unfolding percent_decode
decode_plus [] = refl
decode_plus (d ∷ []) = refl
decode_plus (d ∷ e ∷ t) = refl

decode_escape :
    (x y b : ℕ) (t : Text)
    → at_boundary (x ∷ y ∷ t) ≡ true
    → at_boundary t ≡ true
    → hex_byte x y ≡ some b
    → percent_decode (b'%' ∷ x ∷ y ∷ t) ≡ push_byte b (percent_decode t)
unfolding percent_decode
decode_escape x y b t start stop digits = rw (start, stop, digits) refl

boundary-encoded : (b : ℕ) (t : Text) → b < 256 → at_boundary (encoded b ++ t) ≡ true
boundary-encoded b t lt = elim (Bool-cases (is_plain b)) [
  | inl e ↦ rw e (ground (arith, e))
  | inr e ↦ elim (Bool-cases (b == b' ')) [ inl e' ↦ rw (e, e') refl | inr e' ↦ rw (e, e') refl ]
]

boundary-form_encode :
    (bytes : List ℕ) → all (λ b. ltb b 256) bytes ≡ true → at_boundary (form_encode bytes) ≡ true
boundary-form_encode [] h = refl
boundary-form_encode (b ∷ bytes) h = boundary-encoded b (form_encode bytes) (ground (arith, h))

upper_hex-boundary : (d : ℕ) (t : Text) → d < 16 → at_boundary (upper_hex d ∷ t) ≡ true
upper_hex-boundary d t lt = ground arith

decode-encoded :
    (b : ℕ) (t : Text)
    → b < 256
    → at_boundary t ≡ true
    → percent_decode (encoded b ++ t) ≡ push_byte b (percent_decode t)
decode-encoded b t lt stop = elim (Bool-cases (is_plain b)) [
  | inl e ↦ rw e (decode_plain b t (ground (arith, e)) (ground (arith, e)))
  | inr e ↦ elim (Bool-cases (b == b' ')) [
    | inl e' ↦
        let same : b' ' ≡ b = ground (arith, e', ==_iff b b' ') in
        rw (e, e') (decode_plus t ∙ ap (λ c. push_byte c (percent_decode t)) same)
    | inr e' ↦
        rw (e, e')
          (decode_escape (upper_hex (b / 16)) (upper_hex (b % 16)) b t
            (upper_hex-boundary (b / 16) (upper_hex (b % 16) ∷ t) (omega arith)) stop
            (hex_byte-upper_hex b lt))
  ]
]

-- The bytes of a form value come back from their encoding.
pub percent_decode-form_encode :
    (bytes : List ℕ)
    → all (λ b. ltb b 256) bytes ≡ true
    → percent_decode (form_encode bytes) ≡ some bytes
percent_decode-form_encode [] h = unfold percent_decode in refl
percent_decode-form_encode (b ∷ bytes) h =
    let later : all (λ b. ltb b 256) bytes ≡ true = ground (arith, h) in
    decode-encoded b (form_encode bytes) (ground (arith, h)) (boundary-form_encode bytes later)
    ∙ ap (push_byte b) (percent_decode-form_encode bytes later)

abbrev pub is_ascii : Text → Bool
is_ascii t = all (λ b. ltb b 128) t

ascii_boundary : (t : Text) → is_ascii t ≡ true → at_boundary t ≡ true
ascii_boundary [] h = refl
ascii_boundary (b ∷ t) h = ground (arith, h)

pushed : (b : ℕ) (o : Option Text) → is_some o ≡ true → is_some (push_byte b o) ≡ true
pushed b none h = h
pushed b (some t) h = refl

either_pushed :
    (o : Option ℕ) (c : ℕ) (a b : Option Text)
    → is_some a ≡ true
    → is_some b ≡ true
    → is_some (elim o as (λ _. Option Text) [ some byte ↦ push_byte byte a | none ↦ push_byte c b ])
      ≡ true
either_pushed none c a b ha hb = pushed c b hb
either_pushed (some byte) c a b ha hb = pushed byte a ha

-- Decoding never panics on an ASCII text, whatever its escapes look like.
pub percent_decode_ascii : (t : Text) → is_ascii t ≡ true → is_some (percent_decode t) ≡ true
unfolding percent_decode
percent_decode_ascii [] h = refl
percent_decode_ascii (c ∷ []) h = refl
percent_decode_ascii (c ∷ d ∷ []) h = refl
percent_decode_ascii (c ∷ d ∷ e ∷ t) h =
    let later = percent_decode_ascii (d ∷ e ∷ t) (ground (arith, h)) in
    let rest = percent_decode_ascii t (ground (arith, h)) in
    let start = ascii_boundary (d ∷ e ∷ t) (ground (arith, h)) in
    let stop = ascii_boundary t (ground (arith, h)) in
    elim (Bool-cases (c == b'+')) [
      | inl p ↦ rw p (pushed b' ' _ later)
      | inr p ↦ elim (Bool-cases (c == b'%')) [
        | inl q ↦ rw (p, q, start, stop) (either_pushed (hex_byte d e) c _ _ rest later)
        | inr q ↦ rw (p, q) (pushed c _ later)
      ]
    ]
