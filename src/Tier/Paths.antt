-- ===== src/Tier/Paths.antt =====
-- The paths that tier.rs looks for, by what they are made of.
use wkp.Base.{
  ||-elim, ℕ, ◌≡◌, refl, sym, ap, ap₂, ◌↔◌, inl, inr, true, some, [], ◌∷◌, ◌++◌, arith, ◌==◌,
  ==_iff, Bool-cases, Option-cases,
}
use wkp.Str.{Text, codes, strip_prefix}
use wkp.Tier.Compute.{starts_with, contains_text, is_inbox, in_scope}

strip_prefix-append : (p t rest : Text) → strip_prefix p t ≡ some rest → t ≡ p ++ rest
unfolding strip_prefix
strip_prefix-append [] t rest h = cc
strip_prefix-append (p ∷ ps) [] rest h = cc
strip_prefix-append (p ∷ ps) (c ∷ cs) rest h = elim (Bool-cases (p == c)) [
  | inl e ↦
      ap₂ (λ (x : ℕ) (xs : Text). x ∷ xs) (sym ((==_iff p c).0 e))
        (strip_prefix-append ps cs rest (rw e at h))
  | inr e ↦ absurd (ground (arith, h, e))
]

append-strip_prefix : (p rest : Text) → strip_prefix p (p ++ rest) ≡ some rest
unfolding strip_prefix
append-strip_prefix [] rest = refl
append-strip_prefix (p ∷ ps) rest = rw ((==_iff p p).1 refl) (append-strip_prefix ps rest)

starts_with-append : (t p : Text) → starts_with t p ≡ true → (rest : Text) × (t ≡ p ++ rest)
unfolding starts_with
starts_with-append t p h = elim (Option-cases (strip_prefix p t)) [
  | inl e ↦ absurd (ground (arith, h, e))
  | inr (rest, e) ↦ (rest, strip_prefix-append p t rest e)
]

append-starts_with : (p rest : Text) → starts_with (p ++ rest) p ≡ true
unfolding starts_with
append-starts_with p rest = rw (append-strip_prefix p rest) refl

contains_text-append :
    (t p : Text) → contains_text t p ≡ true → (before after : Text) × (t ≡ before ++ (p ++ after))
unfolding contains_text
contains_text-append [] p h = let (rest, e) = starts_with-append [] p h in ([], rest, e)
contains_text-append (c ∷ cs) p h = elim (Bool-cases (starts_with (c ∷ cs) p)) [
  | inl here ↦ let (rest, e) = starts_with-append (c ∷ cs) p here in ([], rest, e)
  | inr later ↦
      let (before, after, e) = contains_text-append cs p (ground (arith, h, later)) in
      (c ∷ before, after, ap (λ (xs : Text). c ∷ xs) e)
]

starts-contains : (t p : Text) → starts_with t p ≡ true → contains_text t p ≡ true
unfolding contains_text
starts-contains [] p h = h
starts-contains (c ∷ cs) p h = rw h refl

append-contains_text : (before p after : Text) → contains_text (before ++ (p ++ after)) p ≡ true
unfolding contains_text
append-contains_text [] p after = starts-contains (p ++ after) p (append-starts_with p after)
append-contains_text (c ∷ before) p after = rw (append-contains_text before p after) (ground arith)

-- The path begins with `user/`, or has `projects/` at any place, also inside a longer name.
pub data InScope (path : Text) : Type 0 where
  of_user : (rest : Text) → path ≡ codes "user/" ++ rest → InScope path
  of_project : (before after : Text) → path ≡ before ++ (codes "projects/" ++ after) → InScope path

-- The path begins with `inbox/`, or has `/inbox/` at any place.
pub data InInbox (path : Text) : Type 0 where
  at_top : (rest : Text) → path ≡ codes "inbox/" ++ rest → InInbox path
  below : (before after : Text) → path ≡ before ++ (codes "/inbox/" ++ after) → InInbox path

pub in_scope_iff : (path : Text) → (in_scope path ≡ true) ↔ InScope path
in_scope_iff path = (
  λ h. elim (||-elim _ _ h) [
    | inl e ↦ let (rest, same) = starts_with-append path (codes "user/") e in of_user rest same
    | inr e ↦
        let (before, after, same) = contains_text-append path (codes "projects/") e in
        of_project before after same
  ],
  λ s. elim s [
    | of_user rest same ↦
        let e : starts_with path (codes "user/") ≡ true =
          rw same (append-starts_with (codes "user/") rest) in
        rw e refl
    | of_project before after same ↦
        let e : contains_text path (codes "projects/") ≡ true =
          rw same (append-contains_text before (codes "projects/") after) in
        ground (arith, e)
  ],
)

pub is_inbox_iff : (path : Text) → (is_inbox path ≡ true) ↔ InInbox path
is_inbox_iff path = (
  λ h. elim (||-elim _ _ h) [
    | inl e ↦ let (rest, same) = starts_with-append path (codes "inbox/") e in at_top rest same
    | inr e ↦
        let (before, after, same) = contains_text-append path (codes "/inbox/") e in
        below before after same
  ],
  λ s. elim s [
    | at_top rest same ↦
        let e : starts_with path (codes "inbox/") ≡ true =
          rw same (append-starts_with (codes "inbox/") rest) in
        rw e refl
    | below before after same ↦
        let e : contains_text path (codes "/inbox/") ≡ true =
          rw same (append-contains_text before (codes "/inbox/") after) in
        ground (arith, e)
  ],
)
