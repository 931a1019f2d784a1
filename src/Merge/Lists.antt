-- ===== src/Merge/Lists.antt =====
-- `union` and `max_updated` of merge.rs.
use wkp.Base.{
  ◌≡◌, refl, sym, ◌∙◌, ◌⊎◌, inl, inr, Bool, true, false, not, ◌&&◌, ◌||◌, Option, none, some, List,
  [], ◌∷◌, ◌++◌, append-nil, append_assoc, arith, ltb, ◌==◌, if◌then◌else◌, Bool-cases, &&-elim,
  all,
}
use wkp.Str.{Text, text_eq}
use wkp.Str.Laws.{text_eq_refl, text_eq_iff}

-- `contains`
unfoldable pub contains : List Text → Text → Bool
contains [] t = false
contains (x ∷ xs) t = text_eq x t || contains xs t

-- The loop of `union` over the tags of theirs.
unfoldable pub union : List Text → List Text → List Text
union result [] = result
union result (tag ∷ theirs) =
    union (if not (contains result tag) then result ++ tag ∷ [] else result) theirs

-- `<=` on `str`
unfoldable pub text_le : Text → Text → Bool
text_le [] ys = true
text_le (x ∷ xs) [] = false
text_le (x ∷ xs) (y ∷ ys) = let later = text_le xs ys in ltb x y || (x == y && later)

unfoldable pub max_updated : Option Text → Option Text → Option Text
max_updated (some o) (some t) = some (if text_le t o then o else t)
max_updated (some o) none = some o
max_updated none (some t) = some t
max_updated none none = none

contains-append :
    (xs ys : List Text) (t : Text) → contains (xs ++ ys) t ≡ (contains xs t || contains ys t)
unfolding contains
contains-append [] ys t = refl
contains-append (x ∷ xs) ys t = ground (arith, contains-append xs ys t)

-- A tag is in the union exactly when one of the sides has it.
pub contains-union :
    (ours theirs : List Text) (t : Text)
    → contains (union ours theirs) t ≡ (contains ours t || contains theirs t)
unfolding union contains
contains-union ours [] t = ground arith
contains-union ours (tag ∷ theirs) t =
    let added = if not (contains ours tag) then ours ++ tag ∷ [] else ours in
    contains-union added theirs t ∙ union_step ours tag t (contains theirs t)
  where
    union_step :
        (ours : List Text) (tag t : Text) (rest : Bool)
        → (contains (if not (contains ours tag) then ours ++ tag ∷ [] else ours) t || rest)
          ≡ (contains ours t || (text_eq tag t || rest))
    union_step ours tag t rest =
        ground (arith, contains-append ours (tag ∷ []) t, text_eq_iff tag t)

-- No tag twice.
abbrev pub is_distinct : List Text → Bool
is_distinct [] = true
is_distinct (x ∷ xs) = not (contains xs x) && is_distinct xs

is_distinct-concat :
    (xs : List Text) (t : Text)
    → is_distinct xs ≡ true
    → contains xs t ≡ false
    → is_distinct (xs ++ t ∷ []) ≡ true
unfolding contains
is_distinct-concat [] t d h = refl
is_distinct-concat (x ∷ xs) t d h = ground (
  arith,
  is_distinct-concat xs t,
  contains-append xs (t ∷ []) x,
  text_eq_iff t x,
  text_eq_iff x t,
)

-- The union adds no tag that is there already.
pub is_distinct-union :
    (ours theirs : List Text) → is_distinct ours ≡ true → is_distinct (union ours theirs) ≡ true
unfolding union
is_distinct-union ours [] d = d
is_distinct-union ours (tag ∷ theirs) d = elim (Bool-cases (contains ours tag)) [
  | inl e ↦ rw e (is_distinct-union ours theirs d)
  | inr e ↦ rw e (is_distinct-union (ours ++ tag ∷ []) theirs (is_distinct-concat ours tag d e))
]

-- The tags of ours stand first, in their order.
pub union_prefix :
    (ours theirs : List Text) → (added : List Text) × (union ours theirs ≡ ours ++ added)
unfolding union
union_prefix ours [] = ([], sym (append-nil ours))
union_prefix ours (tag ∷ theirs) = elim (Bool-cases (contains ours tag)) [
  | inl e ↦ let (added, h) = union_prefix ours theirs in (added, rw e h)
  | inr e ↦
      let (added, h) = union_prefix (ours ++ tag ∷ []) theirs in
      (tag ∷ added, rw e (h ∙ append_assoc ours (tag ∷ []) added))
]

pub union_contained :
    (ours theirs : List Text) → all (contains ours) theirs ≡ true → union ours theirs ≡ ours
unfolding union
union_contained ours [] h = refl
union_contained ours (tag ∷ theirs) h =
    let (here, later) = &&-elim (contains ours tag) (all (contains ours) theirs) h in
    rw here (union_contained ours theirs later)

text_le_refl : (a : Text) → text_le a a ≡ true
unfolding text_le
text_le_refl [] = refl
text_le_refl (x ∷ xs) = ground (arith, text_le_refl xs)

text_le_total : (a b : Text) → text_le a b ≡ false → text_le b a ≡ true
unfolding text_le
text_le_total [] b h = cc
text_le_total (x ∷ xs) [] h = refl
text_le_total (x ∷ xs) (y ∷ ys) h = ground (arith, text_le_total xs ys)

text_le_antisymm : (a b : Text) → text_le a b ≡ true → text_le b a ≡ true → a ≡ b
unfolding text_le
text_le_antisymm [] [] h k = refl
text_le_antisymm [] (y ∷ ys) h k = cc
text_le_antisymm (x ∷ xs) [] h k = cc
text_le_antisymm (x ∷ xs) (y ∷ ys) h k = ground (arith, text_le_antisymm xs ys)

-- A date at or before the updated date.
abbrev pub IsUpTo : Option Text → Option Text → Type 0
IsUpTo none m = Unit
IsUpTo (some d) none = ⊥
IsUpTo (some d) (some m) = text_le d m ≡ true

-- `max_updated` is one of the two dates and the later one, and does not depend on their order.
pub max_updated_lem :
    (ours theirs : Option Text)
    → IsUpTo ours (max_updated ours theirs)
      × IsUpTo theirs (max_updated ours theirs)
      × ((max_updated ours theirs ≡ ours) ⊎ (max_updated ours theirs ≡ theirs))
      × (max_updated ours theirs ≡ max_updated theirs ours)
unfolding max_updated
max_updated_lem (some o) (some t) = elim (Bool-cases (text_le t o)) [
  | inl e ↦ rw e (text_le_refl o, e, inl refl, ground (arith, text_le_antisymm o t))
  | inr e ↦
      rw e (text_le_total t o e, text_le_refl t, inr refl, ground (arith, text_le_total t o e))
]
max_updated_lem (some o) none = (text_le_refl o, tt, inl refl, refl)
max_updated_lem none (some t) = (tt, text_le_refl t, inr refl, refl)
max_updated_lem none none = (tt, tt, inl refl, refl)

all-contains : (xs ys : List Text) → all (contains (xs ++ ys)) ys ≡ true
unfolding contains
all-contains xs [] = refl
all-contains xs (y ∷ ys) = ground (
  arith,
  contains-append xs (y ∷ ys) y,
  text_eq_refl y,
  rw append_assoc at (all-contains (xs ++ y ∷ []) ys),
)

pub union_self : (xs : List Text) → union xs xs ≡ xs
union_self xs = union_contained xs xs (all-contains [] xs)

pub max_updated_self : (o : Option Text) → max_updated o o ≡ o
unfolding max_updated
max_updated_self (some o) = rw text_le_refl refl
max_updated_self none = refl
