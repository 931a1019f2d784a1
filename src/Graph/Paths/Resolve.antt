-- ===== src/Graph/Paths/Resolve.antt =====
-- Where a reference leads.
use wkp.Base.{
  ℕ, zero, suc, ◌+◌, ◌≤◌, ◌≡◌, refl, ap, ◌∙◌, Bool, true, false, not, ◌&&◌, List, [], ◌∷◌, ◌++◌,
  map, arith, ◌==◌, if◌then◌else◌, &&-elim, length, drop, filter, all,
}
use wkp.Str.{Text, codes, split_by, join, text_eq, strip_prefix}
use wkp.Str.Laws.{has_no-append, has_no}
use wkp.Graph.Paths.{
  is_slash, is_component, has_root, components, without_last, climb, reverse_onto, escapes,
}

-- The name of a file or of a directory.
abbrev pub is_name : Text → Bool
is_name t = is_component t && not (text_eq t (codes "..")) && has_no b'/' t && has_no b'\\' t

-- A name or `..`.
abbrev pub is_plain_part : Text → Bool
is_plain_part t = is_component t && has_no b'/' t && has_no b'\\' t

abbrev pub ups : ℕ → List Text
ups zero = []
ups (suc k) = codes ".." ∷ ups k

pub climb-drop :
    (k : ℕ) (out rest : List Text)
    → k ≤ length out
    → climb out (ups k ++ rest) ≡ climb (drop k out) rest
unfolding climb text_eq
climb-drop zero out rest h = refl
climb-drop (suc k) [] rest h = absurd (omega arith)
climb-drop (suc k) (x ∷ out) rest h = climb-drop k out rest (omega arith)

pub climb-names :
    (out names : List Text) → all is_name names ≡ true → climb out names ≡ reverse_onto names out
unfolding climb
climb-names out [] h = refl
climb-names out (n ∷ names) h =
    let (name, others) = &&-elim (is_name n) (all is_name names) h in
    let ordinary : text_eq n (codes "..") ≡ false = ground (arith, name) in
    rw ordinary (climb-names (n ∷ out) names others)

pub drop-reverse_onto :
    {A : Type 0} (xs out : List A) (m : ℕ) → drop (length xs + m) (reverse_onto xs out) ≡ drop m out
drop-reverse_onto [] out m = let same : 0 + m ≡ m = omega arith in ap (λ k. drop k out) same
drop-reverse_onto (x ∷ xs) out m =
    let later : suc (length xs) + m ≡ length xs + suc m = omega arith in
    ap (λ k. drop k (reverse_onto xs (x ∷ out))) later ∙ drop-reverse_onto xs (x ∷ out) (suc m)

pub length-reverse_onto :
    {A : Type 0} (xs out : List A) → length (reverse_onto xs out) ≡ length xs + length out
length-reverse_onto [] out = omega arith
length-reverse_onto (x ∷ xs) out = omega (arith, length-reverse_onto xs (x ∷ out))

pub reverse_onto-reverse_onto :
    {A : Type 0} (xs ys zs : List A)
    → reverse_onto (reverse_onto xs ys) zs ≡ reverse_onto ys (xs ++ zs)
reverse_onto-reverse_onto [] ys zs = refl
reverse_onto-reverse_onto (x ∷ xs) ys zs = reverse_onto-reverse_onto xs (x ∷ ys) zs

pub reverse_onto-append :
    {A : Type 0} (xs ys zs : List A)
    → reverse_onto (xs ++ ys) zs ≡ reverse_onto ys (reverse_onto xs zs)
reverse_onto-append [] ys zs = refl
reverse_onto-append (x ∷ xs) ys zs = reverse_onto-append xs ys (x ∷ zs)

split_by_whole : (t : Text) → has_no b'/' t ≡ true → split_by is_slash t ≡ t ∷ []
unfolding split_by
split_by_whole [] h = refl
split_by_whole (c ∷ t) h = ground (arith, split_by_whole t)

split_by-slash :
    (t rest : Text)
    → has_no b'/' t ≡ true
    → split_by is_slash (t ++ b'/' ∷ rest) ≡ t ∷ split_by is_slash rest
unfolding split_by
split_by-slash [] rest h = refl
split_by-slash (c ∷ t) rest h = ground (arith, split_by-slash t rest)

parts-join :
    (p : Text) (ps : List Text)
    → all is_plain_part (p ∷ ps) ≡ true
    → filter is_component (split_by is_slash (join (codes "/") (p ∷ ps))) ≡ p ∷ ps
unfolding join
parts-join p [] h =
    let whole = split_by_whole p (ground (arith, h)) in
    let part : is_component p ≡ true = ground (arith, h) in rw (whole, part) refl
parts-join p (q ∷ ps) h =
    let (here, others) = &&-elim (is_plain_part p) (all is_plain_part (q ∷ ps)) h in
    let whole = split_by-slash p (join (codes "/") (q ∷ ps)) (ground (arith, here)) in
    let part : is_component p ≡ true = ground (arith, here) in
    rw (whole, part, parts-join q ps others) refl

has_root-join :
    (p : Text) (ps : List Text)
    → is_plain_part p ≡ true
    → has_root (join (codes "/") (p ∷ ps)) ≡ false
unfolding join
has_root-join [] ps h = cc
has_root-join (c ∷ p) [] h = ground (arith, h)
has_root-join (c ∷ p) (q ∷ ps) h = ground (arith, h)

pub components-join :
    (p : Text) (ps : List Text)
    → all is_plain_part (p ∷ ps) ≡ true
    → components (join (codes "/") (p ∷ ps)) ≡ record { root = false; parts = p ∷ ps }
unfolding components
components-join p ps h =
    let rootless = has_root-join p ps (&&-elim (is_plain_part p) (all is_plain_part ps) h).0 in
    rw (rootless, parts-join p ps h) refl

pub without_last-concat : (xs : List Text) (x : Text) → without_last (xs ++ x ∷ []) ≡ xs
without_last-concat [] x = refl
without_last-concat (y ∷ []) x = refl
without_last-concat (y ∷ z ∷ zs) x = ap (λ r. y ∷ r) (without_last-concat (z ∷ zs) x)

pub is_plain_part-names :
    (names : List Text) → all is_name names ≡ true → all is_plain_part names ≡ true
is_plain_part-names [] h = refl
is_plain_part-names (n ∷ names) h = ground (arith, is_plain_part-names names, h)

pub ups-plain :
    (k : ℕ) (rest : List Text)
    → all is_plain_part rest ≡ true
    → all is_plain_part (ups k ++ rest) ≡ true
unfolding text_eq
ups-plain zero rest h = h
ups-plain (suc k) rest h = ups-plain k rest h

pub has_no-join :
    (names : List Text)
    → all is_plain_part names ≡ true
    → has_no b'\\' (join (codes "/") names) ≡ true
unfolding join
has_no-join [] h = refl
has_no-join (n ∷ []) h = ground (arith, h)
has_no-join (n ∷ m ∷ names) h =
    has_no-append b'\\' n (b'/' ∷ join (codes "/") (m ∷ names)) (ground (arith, h))
      (ground (arith, has_no-join (m ∷ names), h))

pub map-unchanged :
    (t : Text) → has_no b'\\' t ≡ true → map (λ c. if c == b'\\' then b'/' else c) t ≡ t
map-unchanged [] h = refl
map-unchanged (c ∷ t) h = ground (arith, map-unchanged t, h)

pub escapes-name :
    (n : Text) (names : List Text)
    → is_name n ≡ true
    → escapes (join (codes "/") (n ∷ names)) ≡ false
unfolding join text_eq strip_prefix
escapes-name [] names h = cc
escapes-name (a ∷ []) [] h = ground (arith, h)
escapes-name (a ∷ []) (m ∷ names) h = ground (arith, h)
escapes-name (a ∷ b ∷ []) [] h = ground (arith, h)
escapes-name (a ∷ b ∷ []) (m ∷ names) h = ground (arith, h)
escapes-name (a ∷ b ∷ c ∷ n) [] h = ground (arith, h)
escapes-name (a ∷ b ∷ c ∷ n) (m ∷ names) h = ground (arith, h)
