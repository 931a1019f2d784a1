-- ===== src/Git/Changes/Entries.antt =====
-- The lines of git's format, and what the reader of changes.rs makes of them.
use wkp.Base.{
  ℕ, suc, ◌≡◌, refl, ap, ap₂, ◌∙◌, subst, Bool, true, not, ◌&&◌, ◌||◌, some, List, [], ◌∷◌, ◌++◌,
  map, arith, ◌==◌, ==_iff, &&-elim, length, all,
}
use wkp.Str.{Text, codes, text_eq, split_once, split_inclusive, chomp}
use wkp.Str.Laws.{has_no, split_once_first, split_inclusive-line, chomp-ends_in, ends_in}
use wkp.Git.Changes.{
  ChangeSet, no_changes, splitn, nth, classify_ordinary, ordinary, rename, rename_tail, unmerged,
  parse_line, parse_lines_from, parse_porcelain_v2,
}

-- Fields with a space behind each, and then the rest of the line.
abbrev pub spaced : List Text → Text → Text
spaced [] rest = rest
spaced (f ∷ fields) rest = f ++ b' ' ∷ spaced fields rest

splitn-spaced :
    (fields : List Text) (rest : Text)
    → all (has_no b' ') fields ≡ true
    → splitn (suc (length fields)) (spaced fields rest) ≡ fields ++ rest ∷ []
unfolding splitn
splitn-spaced [] rest h = refl
splitn-spaced (f ∷ fields) rest h =
    let (first, others) = &&-elim (has_no b' ' f) (all (has_no b' ') fields) h in
    rw
      (splitn, split_once_first b' ' f (spaced fields rest) first, splitn-spaced fields rest others)
      refl

nth-last :
    (fields : List Text) (rest : Text) → nth (length fields) (fields ++ rest ∷ []) ≡ some rest
nth-last [] rest = refl
nth-last (f ∷ fields) rest = nth-last fields rest

-- What an ordinary entry says of its path.
pub data Ordinary : Type 0 where
  deleted added modified : Ordinary

-- The states in the index and in the work tree that say so: a path that is deleted in either is
-- deleted, one that is new in the index is added, and one with any other states is modified.
abbrev pub is_state : Ordinary → ℕ → ℕ → Bool
is_state deleted x y = x == b'D' || y == b'D'
is_state added x y = x == b'A' && not (y == b'D')
is_state modified x y = not (x == b'A') && not (x == b'D') && not (y == b'D')

-- The lines of git's format.
pub data Entry : Type 0 where
  changed : (o : Ordinary) → (x y : ℕ) → (fields : List Text) → (path : Text) → Entry
  moved : (fields : List Text) → (to from : Text) → Entry
  untracked : (path : Text) → Entry
  conflicted : (fields : List Text) → (path : Text) → Entry

abbrev pub show_entry : Entry → Text
show_entry (changed o x y fields path) = spaced (codes "1" ∷ (x ∷ y ∷ []) ∷ fields) path
show_entry (moved fields to from) = spaced (codes "2" ∷ fields) (to ++ b'\t' ∷ from)
show_entry (untracked path) = spaced (codes "?" ∷ []) path
show_entry (conflicted fields path) = spaced (codes "u" ∷ fields) path

-- The number of fields, which have no space; a path may have some, but no tab before a rename's.
abbrev pub is_entry : Entry → Bool
is_entry (changed o x y fields path) =
    is_state o x y && (length fields == 6 && (has_no b' ' (x ∷ y ∷ []) && all (has_no b' ') fields))
is_entry (moved fields to from) =
    length fields == 8 && (all (has_no b' ') fields && has_no b'\t' to)
is_entry (untracked path) = true
is_entry (conflicted fields path) = length fields == 9 && all (has_no b' ') fields

abbrev pub apply_entry : Entry → ChangeSet → ChangeSet
apply_entry (changed deleted x y fields path) changes = record changes {
  deleted = changes.deleted ++ path ∷ [];
}
apply_entry (changed added x y fields path) changes = record changes {
  added = changes.added ++ path ∷ [];
}
apply_entry (changed modified x y fields path) changes = record changes {
  modified = changes.modified ++ path ∷ [];
}
apply_entry (moved fields to from) changes = record changes {
  renamed = changes.renamed ++ record { from = from; to = to } ∷ [];
}
apply_entry (untracked path) changes = record changes { added = changes.added ++ path ∷ [] }
apply_entry (conflicted fields path) changes = record changes {
  modified = changes.modified ++ path ∷ [];
}

field_at :
    (n : ℕ) (fields : List Text) (rest : Text)
    → length fields ≡ n
    → all (has_no b' ') fields ≡ true
    → (splitn (suc n) (spaced fields rest) ≡ fields ++ rest ∷ [])
      × (nth n (splitn (suc n) (spaced fields rest)) ≡ some rest)
field_at n fields rest e h =
    subst
      (λ n.
        (splitn (suc n) (spaced fields rest) ≡ fields ++ rest ∷ [])
        × (nth n (splitn (suc n) (spaced fields rest)) ≡ some rest))
      e
      (
        splitn-spaced fields rest h,
        ap (nth (length fields)) (splitn-spaced fields rest h) ∙ nth-last fields rest,
      )

classify_ordinary-state :
    (o : Ordinary) (x y : ℕ) (fields : List Text) (path : Text) (changes : ChangeSet)
    → is_state o x y ≡ true
    → classify_ordinary (x ∷ y ∷ []) path changes ≡ apply_entry (changed o x y fields path) changes
unfolding classify_ordinary
classify_ordinary-state deleted x y fields path changes h = rw h refl
classify_ordinary-state added x y fields path changes h = ground (arith, h, ==_iff x b'D')
classify_ordinary-state modified x y fields path changes h = ground (arith, h)

parse_line-entry :
    (e : Entry) (changes : ChangeSet)
    → is_entry e ≡ true
    → parse_line (show_entry e) changes ≡ apply_entry e changes
unfolding parse_line text_eq split_once
parse_line-entry (changed o x y fields path) changes h =
    let (state, form) = &&-elim _ _ h in
    let (count, apart) = &&-elim (length fields == 6) _ form in
    let (whole, last) =
      field_at 7 ((x ∷ y ∷ []) ∷ fields) path (ap suc ((==_iff (length fields) 6).0 count)) apart in
    ap₂ (λ x y. ordinary x y changes) (ap (nth 0) whole) last
    ∙ classify_ordinary-state o x y fields path changes state
parse_line-entry (moved fields to from) changes h =
    let (whole, last) =
      field_at 8 fields (to ++ b'\t' ∷ from) (ground (arith, h)) (ground (arith, h)) in
    ap (λ o. rename_tail o changes) last
    ∙ ap (λ o. rename o changes) (split_once_first b'\t' to from (ground (arith, h)))
parse_line-entry (untracked path) changes h = refl
parse_line-entry (conflicted fields path) changes h =
    let (whole, last) = field_at 9 fields path (ground (arith, h)) (ground (arith, h)) in
    ap (λ o. unmerged o changes) last

abbrev pub is_line : Entry → Bool
is_line e = is_entry e && (has_no b'\n' (show_entry e) && not (ends_in b'\r' (show_entry e)))

abbrev pub show_entries : List Entry → Text
show_entries [] = []
show_entries (e ∷ entries) = show_entry e ++ b'\n' ∷ show_entries entries

abbrev pub apply_entries : List Entry → ChangeSet → ChangeSet
apply_entries [] changes = changes
apply_entries (e ∷ entries) changes = apply_entries entries (apply_entry e changes)

parse_lines_from-show_entries :
    (entries : List Entry) (changes : ChangeSet)
    → all is_line entries ≡ true
    → parse_lines_from (map chomp (split_inclusive (show_entries entries))) changes
      ≡ apply_entries entries changes
unfolding parse_lines_from split_inclusive
parse_lines_from-show_entries [] changes h = refl
parse_lines_from-show_entries (e ∷ entries) changes h =
    let (here, others) = &&-elim (is_line e) (all is_line entries) h in
    let line = show_entry e in
    let piece = split_inclusive-line line (show_entries entries) (ground (arith, here)) in
    ap (λ pieces. parse_lines_from (map chomp pieces) changes) piece
    ∙ ap
        (λ l.
          parse_lines_from (map chomp (split_inclusive (show_entries entries)))
            (parse_line l changes))
        (chomp-ends_in line (ground (arith, here)))
    ∙ ap (parse_lines_from (map chomp (split_inclusive (show_entries entries))))
        (parse_line-entry e changes (ground (arith, here)))
    ∙ parse_lines_from-show_entries entries (apply_entry e changes) others

-- Of lines in git's format, with as many fields as each kind has and none of them with a space, the
-- reader takes each path whole, spaces included, in the order of the lines: that of an ordinary entry
-- into the deleted paths if either of its states is `D`, else into the added ones if the first is
-- `A`, else into the modified ones; untracked ones into the added and unmerged ones into the
-- modified, and a rename as its two paths. No line has a line break or ends in a carriage return, and
-- the new path of a rename has no tab.
pub parse_porcelain_v2_lem :
    (entries : List Entry)
    → all is_line entries ≡ true
    → parse_porcelain_v2 (show_entries entries) ≡ apply_entries entries no_changes
unfolding parse_porcelain_v2
parse_porcelain_v2_lem entries h = parse_lines_from-show_entries entries no_changes h
