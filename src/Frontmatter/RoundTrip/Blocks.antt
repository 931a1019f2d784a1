-- ===== src/Frontmatter/RoundTrip/Blocks.antt =====
-- A block of whole lines, none of them a delimiter: what stands behind it is cut off as it was.
use wkp.Base.{
  ℕ, ◌≡◌, refl, sym, ap, ◌∙◌, Bool, true, false, not, ◌&&◌, ◌||◌, some, List, [], ◌∷◌, ◌++◌,
  append-nil, append_assoc, arith, ◌==◌, ==_iff, &&-elim, length, flatten, all, length-append,
  take-append, all-append, drop_past,
}
use wkp.Str.{Text, split_inclusive, trim_end_by, trim_start_by, text_eq, is_whitespace, codes}
use wkp.Str.Laws.{
  trim_of_solid_start, trim_space, flatten-split_inclusive, has_no, split_inclusive-line,
  ends_solid, chomp-line, trim_end_by-cons, trim_end_by_solid,
}
use wkp.Frontmatter.Lines.{
  is_delimiter_line, split_at, split_at_closing_delimiter, logical_line, logical_lines, Line,
}

pub record IsBlock (b : Text) : Type 0 where
  pub joins : (r : Text) → split_inclusive (b ++ r) ≡ split_inclusive b ++ split_inclusive r
  pub undelimited : all (λ l. not (is_delimiter_line l)) (split_inclusive b) ≡ true

pub IsBlock-nil : IsBlock []
unfolding split_inclusive
IsBlock-nil = record { joins = λ r. refl; undelimited = refl }

pub IsBlock-append : (a b : Text) → IsBlock a → IsBlock b → IsBlock (a ++ b)
IsBlock-append a b ha hb = record {
  joins = λ r. rw (append_assoc, ha.joins, ha.joins, hb.joins, append_assoc) refl;
  undelimited = rw ha.joins (
      all-append (λ l. not (is_delimiter_line l)) (split_inclusive a) (split_inclusive b)
        ha.undelimited hb.undelimited);
}

split_inclusive_line :
    (l : Text) → has_no b'\n' l ≡ true → split_inclusive (l ++ b'\n' ∷ []) ≡ (l ++ b'\n' ∷ []) ∷ []
split_inclusive_line l h = split_inclusive-line l [] h ∙ unfold split_inclusive in refl

pub IsBlock-line :
    (l : Text)
    → has_no b'\n' l ≡ true
    → is_delimiter_line (l ++ b'\n' ∷ []) ≡ false
    → IsBlock (l ++ b'\n' ∷ [])
IsBlock-line l h d = record {
  joins = λ r. rw (append_assoc, split_inclusive_line l h) (split_inclusive-line l r h);
  undelimited = rw (split_inclusive_line l h, d) refl;
}

-- The block is what stands before the first delimiter line.
split_at-undelimited :
    (ls : List Text) (seen d : Text) (later : List Text) (whole : Text)
    → all (λ l. not (is_delimiter_line l)) ls ≡ true
    → is_delimiter_line d ≡ true
    → whole ≡ seen ++ (flatten ls ++ (d ++ flatten later))
    → split_at whole (length seen) (ls ++ d ∷ later) ≡ some (seen ++ flatten ls, flatten later)
unfolding split_at
split_at-undelimited [] seen d later whole h e w =
    rw (e, append-nil, w)
      (ground (arith, take-append seen (d ++ flatten later), drop_past seen d (flatten later)))
split_at-undelimited (l ∷ ls) seen d later whole h e w =
    let parts = &&-elim (not (is_delimiter_line l)) (all (λ l. not (is_delimiter_line l)) ls) h in
    let w' =
      w
      ∙ ap (λ t. seen ++ t) (append_assoc l (flatten ls) (d ++ flatten later))
      ∙ sym (append_assoc seen l (flatten ls ++ (d ++ flatten later))) in
    let rest = split_at-undelimited ls (seen ++ l) d later whole parts.1 e w' in
    let not_here : is_delimiter_line l ≡ false = ground arith in
    rw not_here (rw (append_assoc, length-append) at rest)

-- What stands behind a block and a delimiter line is the body.
pub split_at_closing_delimiter-IsBlock :
    (block body : Text)
    → IsBlock block
    → split_at_closing_delimiter (block ++ (codes "---\n" ++ body)) ≡ some (block, body)
unfolding split_at_closing_delimiter
split_at_closing_delimiter-IsBlock block body b =
    let cut =
      split_at-undelimited (split_inclusive block) [] (codes "---\n") (split_inclusive body)
        (block ++ (codes "---\n" ++ body)) b.undelimited
        (unfold is_delimiter_line trim_end_by trim_start_by text_eq is_whitespace in refl)
        (rw (flatten-split_inclusive block, flatten-split_inclusive body) refl) in
    rw (b.joins, split_inclusive-line (codes "---") body refl)
      (rw (flatten-split_inclusive block, flatten-split_inclusive body) at cut)

-- A line that starts with a character other than a dash is no delimiter.
starts_other : (c : ℕ) (t : Text) → (c == b'-') ≡ false → text_eq (c ∷ t) (codes "---") ≡ false
unfolding text_eq
starts_other c t h = rw h refl

abbrev is_line_start : ℕ → Bool
is_line_start c = not (is_whitespace c) && not (c == b'-')

pub is_delimiter_line-solid :
    (c : ℕ) (t : Text)
    → is_whitespace c ≡ false
    → (c == b'-') ≡ false
    → (c == b'\n' || c == b'\r') ≡ false
    → is_delimiter_line (c ∷ t) ≡ false
unfolding is_delimiter_line
is_delimiter_line-solid c t h d e =
    rw (trim_end_by-cons (λ c. c == b'\n' || c == b'\r') c t e, trim_of_solid_start c _ h)
      (starts_other c _ d)

pub is_delimiter_line-child :
    (c : ℕ) (t : Text)
    → is_whitespace c ≡ false
    → (c == b'-') ≡ false
    → (c == b'\n' || c == b'\r') ≡ false
    → is_delimiter_line (b' ' ∷ b' ' ∷ c ∷ t) ≡ false
unfolding is_delimiter_line
is_delimiter_line-child c t h d e =
    rw
      (
        trim_end_by-cons (λ c. c == b'\n' || c == b'\r') b' ' (b' ' ∷ c ∷ t) refl,
        trim_end_by-cons (λ c. c == b'\n' || c == b'\r') b' ' (c ∷ t) refl,
        trim_end_by-cons (λ c. c == b'\n' || c == b'\r') c t e,
        trim_space,
        trim_space,
        trim_of_solid_start c _ h,
      )
      (starts_other c _ d)

pub not_whitespace : (q c : ℕ) → is_whitespace q ≡ true → is_whitespace c ≡ false → (c == q) ≡ false
not_whitespace q c hq hc = ground (arith, ap is_whitespace {x = c} {y = q}, ==_iff c q)

trim_carriage : (t : Text) → ends_solid t ≡ true → trim_end_by (λ c. c == b'\r') t ≡ t
trim_carriage t h =
    trim_end_by_solid (λ c. c == b'\r') t
      (λ c e. not_whitespace b'\r' c (unfold is_whitespace in refl) e) h

pub logical_lines-cons :
    (x r : Text) (line : Line)
    → has_no b'\n' x ≡ true
    → ends_solid x ≡ true
    → logical_line x ≡ some line
    → logical_lines (x ++ b'\n' ∷ r) ≡ line ∷ logical_lines r
unfolding logical_lines
logical_lines-cons x r line n e h = rw (split_inclusive-line x r n, chomp-line x e, h) refl

-- The logical line of a line at the left margin.
pub logical_line-top :
    (c : ℕ) (l : Text)
    → is_whitespace c ≡ false
    → (c == b'#') ≡ false
    → ends_solid (c ∷ l) ≡ true
    → logical_line (c ∷ l) ≡ some (record { indent = 0; content = c ∷ l })
unfolding logical_line trim_start_by
logical_line-top c l h d e =
    rw
      (
        trim_carriage (c ∷ l) e,
        not_whitespace b' ' c (unfold is_whitespace in refl) h,
        trim_end_by_solid is_whitespace (c ∷ l) (λ c h. h) e,
        d,
      )
      (ground arith)

-- The logical line of a line that is indented by two spaces.
pub logical_line-child :
    (c : ℕ) (l : Text)
    → is_whitespace c ≡ false
    → (c == b'#') ≡ false
    → ends_solid (c ∷ l) ≡ true
    → logical_line (b' ' ∷ b' ' ∷ c ∷ l) ≡ some (record { indent = 2; content = c ∷ l })
unfolding logical_line trim_start_by
logical_line-child c l h d e =
    rw
      (
        trim_carriage (b' ' ∷ b' ' ∷ c ∷ l) e,
        not_whitespace b' ' c (unfold is_whitespace in refl) h,
        trim_end_by_solid is_whitespace (c ∷ l) (λ c h. h) e,
        d,
      )
      (ground arith)
