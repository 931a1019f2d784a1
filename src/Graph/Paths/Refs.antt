-- ===== src/Graph/Paths/Refs.antt =====
-- What `normalize_ref` makes of a reference that goes up some directories and then down.
use wkp.Base.{
  ℕ, zero, suc, ◌+◌, ◌%◌, ◌≤◌, ◌≡◌, refl, ap, ap₂, ◌∙◌, Bool, true, false, Option, none, some, List,
  [], ◌∷◌, ◌++◌, append-nil, append_assoc, arith, ◌==◌, if◌then◌else◌, &&-elim, length, drop, all,
}
use wkp.Str.{Text, codes, join, text_eq, strip_prefix}
use wkp.Graph.Paths.{
  ref_between, pop_or_push, components, climb, reverse_onto, normalize_path, show_path, escapes,
  normalize_ref,
}
use wkp.Graph.Paths.Resolve.{
  is_name, ups, climb-drop, climb-names, drop-reverse_onto, length-reverse_onto,
  reverse_onto-reverse_onto, reverse_onto-append, components-join, without_last-concat,
  is_plain_part-names, ups-plain, has_no-join, map-unchanged, escapes-name,
}

components-file :
    (dir : List Text) (file : Text)
    → all is_name (dir ++ file ∷ []) ≡ true
    → components (join (codes "/") (dir ++ file ∷ []))
      ≡ record { root = false; parts = dir ++ file ∷ [] }
components-file [] file h = components-join file [] (is_plain_part-names (file ∷ []) h)
components-file (d ∷ dir) file h =
    components-join d (dir ++ file ∷ []) (is_plain_part-names (d ∷ dir ++ file ∷ []) h)

components-ups :
    (k : ℕ) (n : Text) (ns : List Text)
    → all is_name (n ∷ ns) ≡ true
    → components (join (codes "/") (ups k ++ n ∷ ns))
      ≡ record { root = false; parts = ups k ++ n ∷ ns }
components-ups zero n ns h = components-join n ns (is_plain_part-names (n ∷ ns) h)
components-ups (suc k) n ns h =
    components-join (codes "..") (ups k ++ n ∷ ns)
      (ups-plain (suc k) (n ∷ ns) (is_plain_part-names (n ∷ ns) h))

climb-append : (out xs ys : List Text) → climb out (xs ++ ys) ≡ climb (climb out xs) ys
unfolding climb
climb-append out [] ys = refl
climb-append out (x ∷ xs) ys =
    climb-append (if text_eq x (codes "..") then pop_or_push out else x ∷ out) xs ys

-- The components that the loop ends with.
resolved : List Text → ℕ → List Text → List Text
resolved dir k names = reverse_onto (climb [] (dir ++ (ups k ++ names))) []

abbrev checked : List Text → Option Text
checked parts =
    let normalized = show_path (record { root = false; parts = parts }) in
    if escapes normalized then none else some normalized

normalize_ref-resolved :
    (dir : List Text) (file : Text) (k : ℕ) (n : Text) (ns : List Text)
    → all is_name (dir ++ file ∷ []) ≡ true
    → all is_name (n ∷ ns) ≡ true
    → normalize_ref (join (codes "/") (dir ++ file ∷ [])) (join (codes "/") (ups k ++ n ∷ ns))
      ≡ checked (resolved dir k (n ∷ ns))
unfolding normalize_ref resolved normalize_path
normalize_ref-resolved dir file k n ns h names =
    ap₂ ref_between (components-file dir file h) (components-ups k n ns names)
    ∙ unfold ref_between in rw (without_last-concat dir file) refl

checked-names :
    (n : Text) (ns : List Text)
    → all is_name (n ∷ ns) ≡ true
    → checked (n ∷ ns) ≡ some (join (codes "/") (n ∷ ns))
unfolding show_path
checked-names n ns h =
    let same =
      map-unchanged (join (codes "/") (n ∷ ns))
        (has_no-join (n ∷ ns) (is_plain_part-names (n ∷ ns) h)) in
    let inside = escapes-name n ns (&&-elim (is_name n) (all is_name ns) h).0 in
    rw (same, inside) refl

checked-up : (n : Text) (ns : List Text) → checked (codes ".." ∷ n ∷ ns) ≡ none
unfolding show_path join text_eq strip_prefix
checked-up n ns = refl

-- Down into some directories, and up out of the last ones of them.
climb-out :
    (kept gone rest : List Text)
    → all is_name (kept ++ gone) ≡ true
    → climb [] ((kept ++ gone) ++ (ups (length gone) ++ rest)) ≡ climb (reverse_onto kept []) rest
climb-out kept gone rest h =
    let stack = reverse_onto kept [] in
    let dirs = climb-names [] (kept ++ gone) h ∙ reverse_onto-append kept gone [] in
    let deep : length gone ≤ length (reverse_onto gone stack) =
      omega (arith, length-reverse_onto gone stack) in
    let all_gone : length gone ≡ length gone + 0 = omega arith in
    let popped : drop (length gone) (reverse_onto gone stack) ≡ stack =
      ap (λ m. drop m (reverse_onto gone stack)) all_gone ∙ drop-reverse_onto gone stack 0 in
    climb-append [] (kept ++ gone) (ups (length gone) ++ rest)
    ∙ ap (λ out. climb out (ups (length gone) ++ rest)) dirs
    ∙ climb-drop (length gone) (reverse_onto gone stack) rest deep
    ∙ ap (λ out. climb out rest) popped

resolved-inside :
    (kept gone names : List Text)
    → all is_name (kept ++ gone) ≡ true
    → all is_name names ≡ true
    → resolved (kept ++ gone) (length gone) names ≡ kept ++ names
unfolding resolved
resolved-inside kept gone names h k =
    let stack = reverse_onto kept [] in
    ap (λ out. reverse_onto out []) (climb-out kept gone names h ∙ climb-names stack names k)
    ∙ reverse_onto-reverse_onto names stack []
    ∙ ap (reverse_onto stack) (append-nil names)
    ∙ reverse_onto-reverse_onto kept [] names

ups-add : (a b : ℕ) → ups (a + b) ≡ ups a ++ ups b
ups-add zero b = let same : 0 + b ≡ b = omega arith in ap ups same
ups-add (suc a) b =
    let same : suc a + b ≡ suc (a + b) = omega arith in
    ap ups same ∙ ap (λ r. codes ".." ∷ r) (ups-add a b)

-- From the root of the store, two steps up are none.
climb-over :
    (excess : ℕ) (rest : List Text)
    → climb [] (ups excess ++ rest) ≡ climb (if excess % 2 == 0 then [] else codes ".." ∷ []) rest
unfolding climb text_eq
climb-over zero rest = refl
climb-over (suc zero) rest = refl
climb-over (suc (suc excess)) rest =
    let parity : suc (suc excess) % 2 ≡ excess % 2 = omega arith in
    rw parity (climb-over excess rest)

all-prefix : (xs ys : List Text) → all is_name (xs ++ ys) ≡ true → all is_name xs ≡ true
all-prefix [] ys h = refl
all-prefix (x ∷ xs) ys h = ground (arith, all-prefix xs ys, h)

all-joined :
    (xs ys : List Text)
    → all is_name xs ≡ true
    → all is_name ys ≡ true
    → all is_name (xs ++ ys) ≡ true
all-joined [] ys h k = k
all-joined (x ∷ xs) ys h k = ground (arith, all-joined xs ys, h, k)

checked_below :
    (kept : List Text) (n : Text) (ns : List Text)
    → all is_name kept ≡ true
    → all is_name (n ∷ ns) ≡ true
    → checked (kept ++ n ∷ ns) ≡ some (join (codes "/") (kept ++ n ∷ ns))
checked_below [] n ns h k = checked-names n ns k
checked_below (d ∷ kept) n ns h k =
    checked-names d (kept ++ n ∷ ns) (all-joined (d ∷ kept) (n ∷ ns) h k)

checked_parity :
    (even : Bool) (n : Text) (ns : List Text)
    → all is_name (n ∷ ns) ≡ true
    → checked (if even then n ∷ ns else codes ".." ∷ n ∷ ns)
      ≡ (if even then some (join (codes "/") (n ∷ ns)) else none)
checked_parity true n ns k = checked-names n ns k
checked_parity false n ns k = checked-up n ns

resolved_over :
    (even : Bool) (names : List Text)
    → all is_name names ≡ true
    → reverse_onto (climb (if even then [] else codes ".." ∷ []) names) []
      ≡ (if even then names else codes ".." ∷ names)
resolved_over true names k =
    ap (λ out. reverse_onto out []) (climb-names [] names k)
    ∙ reverse_onto-reverse_onto names [] []
    ∙ append-nil names
resolved_over false names k =
    ap (λ out. reverse_onto out []) (climb-names (codes ".." ∷ []) names k)
    ∙ reverse_onto-reverse_onto names (codes ".." ∷ []) []
    ∙ ap (λ r. codes ".." ∷ r) (append-nil names)

resolved-outside :
    (dir : List Text) (excess : ℕ) (names : List Text)
    → all is_name dir ≡ true
    → all is_name names ≡ true
    → resolved dir (length dir + excess) names
      ≡ (if excess % 2 == 0 then names else codes ".." ∷ names)
unfolding resolved
resolved-outside dir excess names h k =
    let parts =
      ap (λ u. dir ++ (u ++ names)) (ups-add (length dir) excess)
      ∙ ap (λ r. dir ++ r) (append_assoc (ups (length dir)) (ups excess) names) in
    ap (λ out. reverse_onto out [])
      (ap (climb []) parts ∙ climb-out [] dir (ups excess ++ names) h ∙ climb-over excess names)
    ∙ resolved_over (excess % 2 == 0) names k

-- A reference of a file that goes up some of the file's directories, and down to a name, is that
-- name below the directories that are left.
pub normalize_ref_lem :
    (kept gone : List Text) (file n : Text) (ns : List Text)
    → all is_name ((kept ++ gone) ++ file ∷ []) ≡ true
    → all is_name (n ∷ ns) ≡ true
    → normalize_ref
        (join (codes "/") ((kept ++ gone) ++ file ∷ []))
        (join (codes "/") (ups (length gone) ++ n ∷ ns))
      ≡ some (join (codes "/") (kept ++ n ∷ ns))
normalize_ref_lem kept gone file n ns h k =
    let dirs = all-prefix (kept ++ gone) (file ∷ []) h in
    normalize_ref-resolved (kept ++ gone) file (length gone) n ns h k
    ∙ ap checked (resolved-inside kept gone (n ∷ ns) dirs k)
    ∙ checked_below kept n ns (all-prefix kept gone dirs) k

-- A reference that goes up past the root of the store is refused exactly when it does so by an odd
-- number of steps; by an even number, the steps are lost, and it is the name below the root.
pub normalize_ref_outside :
    (dir : List Text) (file : Text) (excess : ℕ) (n : Text) (ns : List Text)
    → all is_name (dir ++ file ∷ []) ≡ true
    → all is_name (n ∷ ns) ≡ true
    → normalize_ref
        (join (codes "/") (dir ++ file ∷ []))
        (join (codes "/") (ups (length dir + excess) ++ n ∷ ns))
      ≡ (if excess % 2 == 0 then some (join (codes "/") (n ∷ ns)) else none)
normalize_ref_outside dir file excess n ns h k =
    normalize_ref-resolved dir file (length dir + excess) n ns h k
    ∙ ap checked (resolved-outside dir excess (n ∷ ns) (all-prefix dir (file ∷ []) h) k)
    ∙ checked_parity (excess % 2 == 0) n ns k
