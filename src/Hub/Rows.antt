-- ===== src/Hub/Rows.antt =====
-- Laws of the rows of a table: what a query finds, and what an insertion or an update keeps.
use wkp.Base.{
  ℕ, ◌+◌, ◌≤◌, ◌<◌, ◌≡◌, refl, sym, subst, inl, inr, Bool, true, false, not, ◌&&◌, ◌||◌, Option,
  none, some, List, [], ◌∷◌, arith, ltb, ◌==◌, if◌then◌else◌, ==_iff, Bool-cases, all, is_some,
}
use wkp.Hub.Store.{find_by, update_where}

kept_by {ℓ} :
    {A : Type ℓ}
    → (p : A → Bool) → (f : A → A) → (y : A) → p (f y) ≡ p y
    → (b : Bool) → p (if b then f y else y) ≡ p y
kept_by p f y keeps true = keeps
kept_by p f y keeps false = refl

-- A row that is found by a key is found by it after an update that keeps the key.
pub find_by-update_where {ℓ} :
    {A : Type ℓ}
    → (p q : A → Bool) → (f : A → A) → (xs : List A) → (x : A) → ((y : A) → p (f y) ≡ p y)
    → find_by p xs ≡ some x
    → find_by p (update_where q f xs) ≡ some (if q x then f x else x)
find_by-update_where p q f [] x keeps h = cc
find_by-update_where p q f (y ∷ xs) x keeps h =
    let kept : p (if q y then f y else y) ≡ p y = kept_by p f y (keeps y) (q y) in
    elim (Bool-cases (p y)) [
      | inl e ↦ let same : y ≡ x = cc in rw (kept, e, same) refl
      | inr e ↦
          let later : find_by p xs ≡ some x = cc in
          rw (kept, e) (find_by-update_where p q f xs x keeps later)
    ]

-- A row that is found by a test passes it, and what holds of all rows holds of it.
pub find_by_passes {ℓ} :
    {A : Type ℓ} → (p : A → Bool) → (xs : List A) → (x : A) → find_by p xs ≡ some x → p x ≡ true
find_by_passes p [] x h = cc
find_by_passes p (y ∷ xs) x h = elim (Bool-cases (p y)) [
  | inl e ↦ let same : y ≡ x = cc in subst (λ z. p z ≡ true) same e
  | inr e ↦ let later : find_by p xs ≡ some x = cc in find_by_passes p xs x later
]

pub all-find_by {ℓ} :
    {A : Type ℓ}
    → (r p : A → Bool) → (xs : List A) → (x : A) → all r xs ≡ true
    → find_by p xs ≡ some x
    → r x ≡ true
all-find_by r p [] x every h = cc
all-find_by r p (y ∷ xs) x every h = elim (Bool-cases (p y)) [
  | inl e ↦
      let same : y ≡ x = cc in
      let own : r y ≡ true = ground (arith, every) in subst (λ z. r z ≡ true) same own
  | inr e ↦
      let later : find_by p xs ≡ some x = cc in all-find_by r p xs x (ground (arith, every)) later
]

pub all-implied {ℓ} :
    {A : Type ℓ}
    → (p q : A → Bool) → (xs : List A) → ((x : A) → p x ≡ true → q x ≡ true)
    → all p xs ≡ true
    → all q xs ≡ true
all-implied p q [] weaker every = refl
all-implied p q (x ∷ xs) weaker every =
    let head : p x ≡ true = ground (arith, every) in
    let rest = all-implied p q xs weaker (ground (arith, every)) in
    ground (arith, weaker x head, rest)

pub all-update_where {ℓ} :
    {A : Type ℓ}
    → (r q : A → Bool) → (f : A → A) → (xs : List A)
    → ((x : A) → q x ≡ true → r x ≡ true → r (f x) ≡ true)
    → all r xs ≡ true
    → all r (update_where q f xs) ≡ true
all-update_where r q f [] keeps every = refl
all-update_where r q f (x ∷ xs) keeps every =
    let head : r x ≡ true = ground (arith, every) in
    let rest = all-update_where r q f xs keeps (ground (arith, every)) in
    elim (Bool-cases (q x)) [ inl e ↦ rw (e, keeps x e head) rest | inr e ↦ rw (e, head) rest ]

-- The same, where a fact on the updated rows makes up for what they lose.
pub all-update_where_by {ℓ} :
    {A : Type ℓ}
    → (r q s : A → Bool) → (f : A → A) → (xs : List A) → ((x : A) → s x ≡ true → r (f x) ≡ true)
    → all (λ x. not (q x) || s x) xs ≡ true
    → all r xs ≡ true
    → all r (update_where q f xs) ≡ true
all-update_where_by r q s f [] gains facts every = refl
all-update_where_by r q s f (x ∷ xs) gains facts every =
    let head : r x ≡ true = ground (arith, every) in
    let rest =
      all-update_where_by r q s f xs gains (ground (arith, facts)) (ground (arith, every)) in
    elim (Bool-cases (q x)) [
      | inl e ↦ let fact : s x ≡ true = ground (arith, facts, e) in rw (e, gains x fact) rest
      | inr e ↦ rw (e, head) rest
    ]

pub is_some-find_by-update_where {ℓ} :
    {A : Type ℓ}
    → (p q : A → Bool) → (f : A → A) → (xs : List A) → ((y : A) → p (f y) ≡ p y)
    → is_some (find_by p (update_where q f xs)) ≡ is_some (find_by p xs)
is_some-find_by-update_where p q f [] keeps = refl
is_some-find_by-update_where p q f (y ∷ xs) keeps =
    let kept : p (if q y then f y else y) ≡ p y = kept_by p f y (keeps y) (q y) in
    elim (Bool-cases (p y)) [
      | inl e ↦ rw (kept, e) refl
      | inr e ↦ rw (kept, e) (is_some-find_by-update_where p q f xs keeps)
    ]

pub is_some-find_by-cons {ℓ} :
    {A : Type ℓ}
    → (p : A → Bool) → (x : A) → (xs : List A) → is_some (find_by p xs) ≡ true
    → is_some (find_by p (x ∷ xs)) ≡ true
is_some-find_by-cons p x xs h = elim (Bool-cases (p x)) [ inl e ↦ rw e refl | inr e ↦ rw e h ]

-- The numbers of the rows go down from below a bound: they are distinct and have all been given.
abbrev pub ids_below {ℓ} : {A : Type ℓ} → (A → ℕ) → ℕ → List A → Bool
ids_below id bound [] = true
ids_below id bound (x ∷ xs) = ltb (id x) bound && ids_below id (id x) xs

pub ids_below_raise {ℓ} :
    {A : Type ℓ}
    → (id : A → ℕ) → (m n : ℕ) → (xs : List A) → m ≤ n
    → ids_below id m xs ≡ true
    → ids_below id n xs ≡ true
ids_below_raise id m n [] le h = refl
ids_below_raise id m n (x ∷ xs) le h = ground (arith, h)

pub ids_below-cons {ℓ} :
    {A : Type ℓ}
    → (id : A → ℕ) → (n : ℕ) → (x : A) → (xs : List A) → id x ≡ n
    → ids_below id n xs ≡ true
    → ids_below id (n + 1) (x ∷ xs) ≡ true
ids_below-cons id n x xs e h =
    let rest : ids_below id (id x) xs ≡ true = subst (λ m. ids_below id m xs ≡ true) (sym e) h in
    ground (arith, e, rest)

pub ids_below-update_where {ℓ} :
    {A : Type ℓ}
    → (id : A → ℕ) → (n : ℕ) → (q : A → Bool) → (f : A → A) → (xs : List A)
    → ((y : A) → id (f y) ≡ id y)
    → ids_below id n (update_where q f xs) ≡ ids_below id n xs
ids_below-update_where id n q f [] keeps = refl
ids_below-update_where id n q f (y ∷ xs) keeps = elim (Bool-cases (q y)) [
  | inl e ↦ rw (e, keeps y, ids_below-update_where id (id y) q f xs keeps) refl
  | inr e ↦ rw (e, ids_below-update_where id (id y) q f xs keeps) refl
]

pub find_by_below {ℓ} :
    {A : Type ℓ}
    → (id : A → ℕ) → (n : ℕ) → (p : A → Bool) → (xs : List A) → (x : A) → ids_below id n xs ≡ true
    → find_by p xs ≡ some x
    → id x < n
find_by_below id n p [] x h found = cc
find_by_below id n p (y ∷ xs) x h found = elim (Bool-cases (p y)) [
  | inl e ↦ let same : y ≡ x = cc in subst (λ z. id z < n) same (ground (arith, h))
  | inr e ↦
      let later : find_by p xs ≡ some x = cc in
      let below = find_by_below id (id y) p xs x (ground (arith, h)) later in
      let head : id y < n = ground (arith, h) in omega arith
]

pub all-below {ℓ} :
    {A : Type ℓ}
    → (id : A → ℕ) → (n : ℕ) → (xs : List A) → ids_below id n xs ≡ true
    → all (λ x. ltb (id x) n) xs ≡ true
all-below id n [] h = refl
all-below id n (x ∷ xs) h =
    let head : ltb (id x) n ≡ true = ground (arith, h) in
    let rest = all-below id (id x) xs (ground (arith, h)) in
    let weaker =
      all-implied (λ y. ltb (id y) (id x)) (λ y. ltb (id y) n) xs (λ y lt. ground (arith, lt, head))
        rest in
    ground (arith, head, weaker)

-- What holds of the row that is found holds of each row with its number, since there is no other.
pub all-same_row {ℓ} :
    {A : Type ℓ}
    → (id : A → ℕ) → (n : ℕ) → (p r : A → Bool) → (xs : List A) → (x : A) → ids_below id n xs ≡ true
    → find_by p xs ≡ some x
    → r x ≡ true
    → all (λ y. not (id y == id x) || r y) xs ≡ true
all-same_row id n p r [] x h found own = refl
all-same_row {A = A} id n p r (y ∷ xs) x h found own =
    let below : ids_below id (id y) xs ≡ true = ground (arith, h) in
    elim (Bool-cases (p y)) [
      | inl e ↦
          let same : y ≡ x = cc in
          let head : r y ≡ true = subst (λ z. r z ≡ true) (sym same) own in
          let others : (z : A) → ltb (id z) (id y) ≡ true → (not (id z == id x) || r z) ≡ true =
            λ z lt.
              subst (λ v. (not (id z == id v) || r z) ≡ true) same
                (ground (arith, lt, ==_iff (id z) (id y))) in
          let rest =
            all-implied (λ z. ltb (id z) (id y)) _ xs others (all-below id (id y) xs below) in
          ground (arith, head, rest)
      | inr e ↦
          let later : find_by p xs ≡ some x = cc in
          let less = find_by_below id (id y) p xs x below later in
          let rest = all-same_row id (id y) p r xs x below later own in
          ground (arith, less, rest, ==_iff (id y) (id x))
    ]

pub missing_of {ℓ} : {A : Type ℓ} → (o : Option A) → is_some o ≡ false → o ≡ none
missing_of none h = refl
missing_of (some a) h = absurd (ground arith)
