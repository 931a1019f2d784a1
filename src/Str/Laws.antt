-- ===== src/Str/Laws.antt =====
-- Laws of the text functions.
use wkp.Base.{
  ℕ, ◌≡◌, refl, ap, ◌∙◌, ◌≢◌, ◌↔◌, inl, inr, Bool, true, false, not, none, some, List, [], ◌∷◌,
  ◌++◌, arith, ◌==◌, ==_iff, Bool-cases, Option-cases, flatten, all,
}
use wkp.Str.{
  Text, text_eq, is_whitespace, trim_start_by, trim_end_by, keep_unless, push_first,
  split_inclusive, split_once, strip_last, trim, chomp,
}

pub text_eq_iff : (a b : Text) → (text_eq a b ≡ true) ↔ (a ≡ b)
unfolding text_eq
text_eq_iff (x ∷ a) (y ∷ b) = ground (arith, text_eq_iff a b)
text_eq_iff _ _ = ground arith

pub text_eq_refl : (a : Text) → text_eq a a ≡ true
text_eq_refl a = (text_eq_iff a a).1 refl

pub text_eq-false : (a b : Text) → text_eq a b ≡ false → a ≢ b
text_eq-false a b h = ground (arith, text_eq_iff a b)

abbrev pub has_no : ℕ → Text → Bool
has_no q t = all (λ c. not (c == q)) t

-- The pieces of `split_inclusive` make up the text.
pub flatten-push_first : (c : ℕ) (ls : List Text) → flatten (push_first c ls) ≡ c ∷ flatten ls
flatten-push_first c [] = refl
flatten-push_first c (l ∷ ls) = refl

pub flatten-split_inclusive : (t : Text) → flatten (split_inclusive t) ≡ t
unfolding split_inclusive
flatten-split_inclusive [] = refl
flatten-split_inclusive (c ∷ cs) = elim (Bool-cases (c == b'\n')) [
  | inl e ↦ rw e (ap (λ r. c ∷ r) (flatten-split_inclusive cs))
  | inr e ↦
      rw e
        (flatten-push_first c (split_inclusive cs) ∙ ap (λ r. c ∷ r) (flatten-split_inclusive cs))
]

-- A line with no newline inside is the first piece.
pub split_inclusive-line :
    (l r : Text)
    → has_no b'\n' l ≡ true
    → split_inclusive (l ++ b'\n' ∷ r) ≡ (l ++ b'\n' ∷ []) ∷ split_inclusive r
unfolding split_inclusive
split_inclusive-line [] r h = refl
split_inclusive-line (c ∷ cs) r h = ground (arith, split_inclusive-line cs r)

-- The text ends in a character that is no white space.
abbrev pub ends_solid : Text → Bool
ends_solid [] = false
ends_solid (c ∷ []) = not (is_whitespace c)
ends_solid (c ∷ d ∷ ds) = ends_solid (d ∷ ds)

-- The text starts with a character that is no white space.
abbrev pub starts_solid : Text → Bool
starts_solid [] = false
starts_solid (c ∷ cs) = not (is_whitespace c)

pub ends_solid-append : (xs ys : Text) → ends_solid ys ≡ true → ends_solid (xs ++ ys) ≡ true
ends_solid-append [] ys h = h
ends_solid-append (x ∷ []) (y ∷ ys) h = h
ends_solid-append (x ∷ []) [] h = cc
ends_solid-append (x ∷ x' ∷ xs) ys h = ends_solid-append (x' ∷ xs) ys h

pub keep_unless_solid :
    (b : Bool) (c : ℕ) (d : ℕ) (ds t : Text) → t ≡ d ∷ ds → keep_unless b c t ≡ c ∷ t
keep_unless_solid b c d ds t e = rw e refl

pub trim_end_by_solid :
    (p : ℕ → Bool) (t : Text)
    → ((c : ℕ) → is_whitespace c ≡ false → p c ≡ false)
    → ends_solid t ≡ true
    → trim_end_by p t ≡ t
unfolding trim_end_by
trim_end_by_solid p [] sub h = refl
trim_end_by_solid p (c ∷ []) sub h = rw (sub c (ground arith)) refl
trim_end_by_solid p (c ∷ d ∷ ds) sub h = rw (trim_end_by_solid p (d ∷ ds) sub h) refl

pub trim_start_by_solid :
    (p : ℕ → Bool) (t : Text)
    → ((c : ℕ) → is_whitespace c ≡ false → p c ≡ false)
    → starts_solid t ≡ true
    → trim_start_by p t ≡ t
unfolding trim_start_by
trim_start_by_solid p [] sub h = refl
trim_start_by_solid p (c ∷ cs) sub h = rw (sub c (ground arith)) refl

pub split_once_first :
    (q : ℕ) (a b : Text) → has_no q a ≡ true → split_once q (a ++ q ∷ b) ≡ some (a, b)
unfolding split_once
split_once_first q [] b h = ground arith
split_once_first q (c ∷ cs) b h = ground (arith, split_once_first q cs b)

pub split_once_sound : (q : ℕ) (t a b : Text) → split_once q t ≡ some (a, b) → t ≡ a ++ q ∷ b
unfolding split_once
split_once_sound q [] a b h = cc
split_once_sound q (c ∷ t) a b h = elim (Option-cases (split_once q t)) [
  | inl e ↦ ground (arith, h, e)
  | inr ((a', b'), e) ↦ let rest = split_once_sound q t a' b' e in ground (arith, h, e, rest)
]

-- What `split_once` gives first has no separator.
pub split_once-has_no : (q : ℕ) (t a b : Text) → split_once q t ≡ some (a, b) → has_no q a ≡ true
unfolding split_once
split_once-has_no q [] a b h = cc
split_once-has_no q (c ∷ t) a b h = elim (Option-cases (split_once q t)) [
  | inl e ↦ ground (arith, h, e)
  | inr ((a', b'), e) ↦ let rest = split_once-has_no q t a' b' e in ground (arith, h, e, rest)
]

-- A part of a text without a character has no such character.
pub has_no_prefix : (q : ℕ) (a b : Text) → has_no q (a ++ b) ≡ true → has_no q a ≡ true
has_no_prefix q [] b h = refl
has_no_prefix q (c ∷ a) b h = ground (arith, has_no_prefix q a b)

pub strip_last-concat : (q : ℕ) (t : Text) → strip_last q (t ++ q ∷ []) ≡ some t
unfolding strip_last
strip_last-concat q [] = ground arith
strip_last-concat q (c ∷ []) = ground arith
strip_last-concat q (c ∷ d ∷ ds) = rw (strip_last-concat q (d ∷ ds)) refl

pub has_no-append :
    (q : ℕ) (a b : Text) → has_no q a ≡ true → has_no q b ≡ true → has_no q (a ++ b) ≡ true
has_no-append q [] b ha hb = hb
has_no-append q (c ∷ a) b ha hb = ground (arith, has_no-append q a b)

pub keep_unless-false : (c : ℕ) (t : Text) → keep_unless false c t ≡ c ∷ t
keep_unless-false c [] = refl
keep_unless-false c (d ∷ ds) = refl

pub trim_end_by-cons :
    (p : ℕ → Bool) (c : ℕ) (t : Text) → p c ≡ false → trim_end_by p (c ∷ t) ≡ c ∷ trim_end_by p t
unfolding trim_end_by
trim_end_by-cons p c t h = rw h (keep_unless-false c (trim_end_by p t))

-- A text that starts and ends solid is its own `trim`.
pub trim_solid : (t : Text) → starts_solid t ≡ true → ends_solid t ≡ true → trim t ≡ t
trim_solid t hs he =
    rw (trim_start_by_solid is_whitespace t (λ c h. h) hs)
      (trim_end_by_solid is_whitespace t (λ c h. h) he)

-- A leading space does not change the `trim`.
pub trim_space : (t : Text) → trim (b' ' ∷ t) ≡ trim t
unfolding trim_start_by is_whitespace
trim_space t = refl

-- What ends solid and gets a newline is what `lines` gives back.
pub strip_last_solid :
    (q : ℕ) (t : Text) → is_whitespace q ≡ true → ends_solid t ≡ true → strip_last q t ≡ none
unfolding strip_last
strip_last_solid q [] w h = refl
strip_last_solid q (c ∷ []) w h = elim (Bool-cases (c == q)) [
  | inl e ↦ absurd (ground (arith, ==_iff c q))
  | inr e ↦ rw e refl
]
strip_last_solid q (c ∷ d ∷ ds) w h = rw (strip_last_solid q (d ∷ ds) w h) refl

pub chomp-line : (l : Text) → ends_solid l ≡ true → chomp (l ++ b'\n' ∷ []) ≡ l
unfolding chomp
chomp-line l h =
    rw (strip_last-concat b'\n' l, strip_last_solid b'\r' l (unfold is_whitespace in refl) h) refl

-- The last character is the given one.
abbrev pub ends_in : ℕ → Text → Bool
ends_in q [] = false
ends_in q (c ∷ []) = c == q
ends_in q (c ∷ d ∷ ds) = ends_in q (d ∷ ds)

strip_last-ends_in : (q : ℕ) (t : Text) → ends_in q t ≡ false → strip_last q t ≡ none
unfolding strip_last
strip_last-ends_in q [] h = refl
strip_last-ends_in q (c ∷ []) h = rw h refl
strip_last-ends_in q (c ∷ d ∷ ds) h = rw (strip_last-ends_in q (d ∷ ds) h) refl

pub chomp-ends_in : (l : Text) → ends_in b'\r' l ≡ false → chomp (l ++ b'\n' ∷ []) ≡ l
unfolding chomp
chomp-ends_in l h = rw (strip_last-concat b'\n' l, strip_last-ends_in b'\r' l h) refl

pub trim_of_solid_start :
    (c : ℕ) (t : Text) → is_whitespace c ≡ false → trim (c ∷ t) ≡ c ∷ trim_end_by is_whitespace t
trim_of_solid_start c t h =
    rw (trim_start_by_solid is_whitespace (c ∷ t) (λ d e. e) (rw h refl))
      (trim_end_by-cons is_whitespace c t h)
