-- ===== src/Git/Changes.antt =====
-- changes.rs: `git status --porcelain=v2` read into a set of changes. A path is its text.
pub mod Entries
use wkp.Base.{
  ℕ, zero, suc, ◌+◌, ◌-◌, ◌*◌, ◌/◌, ◌%◌, ◌^◌, ◌≤◌, ◌<◌, min, max, String, ◌≡◌, refl, sym, ap, ap₂,
  ◌∙◌, subst, ◌≡⟨◌⟩◌, ◌∎, ◌≢◌, ◌↔◌, ◌⊎◌, inl, inr, Bool, true, false, not, ◌&&◌, ◌||◌, Option, none,
  some, List, [], ◌∷◌, ◌++◌, map, append-nil, append_assoc, arith, ltb, leb, ◌==◌, if◌then◌else◌,
  ==_iff, Bool-cases, Option-cases, &&-elim, length, take, drop, flatten, filter, take_while, all,
  any, is_empty, length-append, take-append, drop-append, filter_map, or_else, is_some, map_option,
  ◌>>=◌, all-append, drop_past, push_some,
}
use wkp.Str.{Text, codes, text_eq, split_once, split_inclusive, chomp}
use wkp.Str.Laws.{has_no, ends_solid, split_once_first, split_inclusive-line, chomp-line}

pub record Renamed : Type 0 where
  pub from : Text
  pub to : Text

pub record ChangeSet : Type 0 where
  pub added : List Text
  pub modified : List Text
  pub deleted : List Text
  pub renamed : List Renamed

abbrev pub no_changes : ChangeSet
no_changes = record { added = []; modified = []; deleted = []; renamed = [] }

-- `splitn(n, ' ')`
unfoldable pub splitn : ℕ → Text → List Text
splitn zero t = []
splitn (suc zero) t = t ∷ []
splitn (suc (suc n)) t = elim (split_once b' ' t) [
  | none ↦ t ∷ []
  | some (a, b) ↦ a ∷ splitn (suc n) b
]

-- `fields.get(n)`
abbrev pub nth : ℕ → List Text → Option Text
nth n [] = none
nth zero (x ∷ xs) = some x
nth (suc n) (x ∷ xs) = nth n xs

-- The `n`th character, `.` where there is none.
abbrev pub state_at : ℕ → Text → ℕ
state_at n [] = b'.'
state_at zero (c ∷ cs) = c
state_at (suc n) (c ∷ cs) = state_at n cs

unfoldable pub classify_ordinary : Text → Text → ChangeSet → ChangeSet
classify_ordinary xy path changes =
    let x = state_at 0 xy in
    let y = state_at 1 xy in
    if x == b'D' || y == b'D'
    then record changes { deleted = changes.deleted ++ path ∷ [] }
    else if x == b'A'
    then record changes { added = changes.added ++ path ∷ [] }
    else record changes { modified = changes.modified ++ path ∷ [] }

abbrev pub ordinary : Option Text → Option Text → ChangeSet → ChangeSet
ordinary (some xy) (some path) changes = classify_ordinary xy path changes
ordinary _ _ changes = changes

abbrev pub rename : Option (Text × Text) → ChangeSet → ChangeSet
rename none changes = changes
rename (some (to, from)) changes = record changes {
  renamed = changes.renamed ++ record { from = from; to = to } ∷ [];
}

abbrev pub rename_tail : Option Text → ChangeSet → ChangeSet
rename_tail none changes = changes
rename_tail (some tail) changes = rename (split_once b'\t' tail) changes

abbrev pub unmerged : Option Text → ChangeSet → ChangeSet
unmerged none changes = changes
unmerged (some path) changes = record changes { modified = changes.modified ++ path ∷ [] }

abbrev pub parse_kind : Option (Text × Text) → ChangeSet → ChangeSet
parse_kind none changes = changes
parse_kind (some (kind, rest)) changes =
    if text_eq kind (codes "1")
    then ordinary (nth 0 (splitn 8 rest)) (nth 7 (splitn 8 rest)) changes
    else if text_eq kind (codes "2")
    then rename_tail (nth 8 (splitn 9 rest)) changes
    else if text_eq kind (codes "?")
    then record changes { added = changes.added ++ rest ∷ [] }
    else if text_eq kind (codes "u")
    then unmerged (nth 9 (splitn 10 rest)) changes
    else changes

-- One round of the loop of `parse_porcelain_v2`.
unfoldable pub parse_line : Text → ChangeSet → ChangeSet
unfolding splitn classify_ordinary
parse_line line changes = parse_kind (split_once b' ' line) changes

unfoldable pub parse_lines_from : List Text → ChangeSet → ChangeSet
parse_lines_from [] changes = changes
parse_lines_from (line ∷ lines) changes = parse_lines_from lines (parse_line line changes)

unfoldable pub parse_porcelain_v2 : Text → ChangeSet
unfolding parse_lines_from
parse_porcelain_v2 output = parse_lines_from (map chomp (split_inclusive output)) no_changes
