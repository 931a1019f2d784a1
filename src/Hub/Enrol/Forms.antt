-- ===== src/Hub/Enrol/Forms.antt =====
-- The form that a browser sends reaches `/verify` with the code that was typed.
use wkp.Base.{
  ℕ, ◌/◌, ◌%◌, ◌<◌, ◌≡◌, refl, inl, inr, true, false, some, List, [], ◌∷◌, ◌++◌, arith, ltb, ◌==◌,
  Bool-cases, all,
}
use wkp.Str.{Text, codes, split_by, strip_prefix}
use wkp.Str.Laws.{has_no, has_no-append}
use wkp.Hub.Store.{World}
use wkp.Hub.Http.Percent.{form_encode, encoded, is_plain, upper_hex, percent_decode-form_encode}
use wkp.Hub.Enrol.{Signing, user_code_field, handle_verify_submit, verify_code}

split_by_one : (q : ℕ) (t : Text) → has_no q t ≡ true → split_by (λ c. c == q) t ≡ t ∷ []
unfolding split_by
split_by_one q [] h = refl
split_by_one q (c ∷ t) h =
    let rest = split_by_one q t (ground (arith, h)) in
    let other : (c == q) ≡ false = ground (arith, h) in rw (other, rest) refl

encoded_no_ampersand : (b : ℕ) → b < 256 → has_no b'&' (encoded b) ≡ true
encoded_no_ampersand b lt = elim (Bool-cases (is_plain b)) [
  | inl e ↦ rw e (ground (arith, e))
  | inr e ↦ elim (Bool-cases (b == b' ')) [
    | inl e' ↦ rw (e, e') refl
    | inr e' ↦
        let high : (upper_hex (b / 16) == b'&') ≡ false = ground arith in
        let low : (upper_hex (b % 16) == b'&') ≡ false = ground arith in rw (e, e', high, low) refl
  ]
]

form_encode_no_ampersand :
    (bytes : List ℕ) → all (λ b. ltb b 256) bytes ≡ true → has_no b'&' (form_encode bytes) ≡ true
form_encode_no_ampersand [] h = refl
form_encode_no_ampersand (b ∷ bytes) h =
    has_no-append b'&' (encoded b) (form_encode bytes) (encoded_no_ampersand b (ground (arith, h)))
      (form_encode_no_ampersand bytes (ground (arith, h)))

user_code_field-form :
    (value : Text)
    → has_no b'&' value ≡ true
    → user_code_field (codes "user_code=" ++ value) ≡ some value
unfolding user_code_field strip_prefix
user_code_field-form value h =
    let solid = has_no-append b'&' (codes "user_code=") value refl h in
    rw (split_by_one b'&' (codes "user_code=" ++ value) solid) refl

-- A form with the one field `user_code`, as a browser encodes the bytes of the typed code, is
-- handled as `/verify` of the code with these bytes, in each state.
pub handle_verify_submit-form :
    (lossy : List ℕ → Text) (signing : Signing) (now : ℕ) (bytes : List ℕ) (w : World)
    → all (λ b. ltb b 256) bytes ≡ true
    → handle_verify_submit lossy signing now (codes "user_code=" ++ form_encode bytes) w
      ≡ some (verify_code signing now (lossy bytes) w)
unfolding handle_verify_submit
handle_verify_submit-form lossy signing now bytes w h =
    rw
      (
        handle_verify_submit,
        user_code_field-form (form_encode bytes) (form_encode_no_ampersand bytes h),
        percent_decode-form_encode bytes h,
      )
      refl
