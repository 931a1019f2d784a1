-- ===== src/Tier/Civil/Days.antt =====
-- The next day number of `civil_from_days` has the next date of the calendar.
use wkp.Base.{
  ℕ, ◌+◌, ◌-◌, ◌*◌, ◌/◌, ◌%◌, ◌<◌, ◌≡◌, refl, sym, ap, ap₂, ◌∙◌, subst, ◌⊎◌, inl, inr, Bool, true,
  arith, ltb, ◌==◌, ==_iff, Bool-cases,
}
use wkp.Tier.Civil.{
  pos, year_of_era, year_start, date_of, date_in_era, civil_from_march, civil_from_days,
}
use wkp.Tier.Civil.Calendar.{
  is_leap, leap_day, next_day, year_start-le, lt-year_start, year_of_era-lt, date_of-next,
  date_of-new_year, passes, test_passed,
}

year_length : ℕ → Bool
year_length k = year_start (k + 1) == year_start k + 365 + leap_day (is_leap (k + 1))

year_length_table : passes year_length 399 ≡ true
unfolding passes year_length year_start is_leap
year_length_table = refl

year_start-suc :
    (k : ℕ) → k < 399 → year_start (k + 1) ≡ year_start k + 365 + leap_day (is_leap (k + 1))
unfolding year_length
year_start-suc k h = (==_iff _ _).0 (test_passed year_length 399 k h year_length_table)

year_of_era-same :
    (doe : ℕ)
    → doe + 1 < 146097
    → doe + 1 < year_start (year_of_era doe + 1) ⊎ year_of_era doe ≡ 399
    → year_of_era (doe + 1) ≡ year_of_era doe
unfolding year_start year_of_era
year_of_era-same doe h k = ground arith

year_of_era-new :
    (doe : ℕ)
    → doe + 1 < 146097
    → doe + 1 ≡ year_start (year_of_era doe + 1)
    → year_of_era doe < 399
    → year_of_era (doe + 1) ≡ year_of_era doe + 1
unfolding year_start year_of_era
year_of_era-new doe h k l = omega arith

is_leap-era : (e k : ℕ) → is_leap (e * 400 + k + 1) ≡ is_leap (k + 1)
unfolding is_leap
is_leap-era e k =
    let a : (e * 400 + k + 1) % 4 ≡ (k + 1) % 4 = omega arith in
    let b : (e * 400 + k + 1) % 100 ≡ (k + 1) % 100 = omega arith in
    let c : (e * 400 + k + 1) % 400 ≡ (k + 1) % 400 = omega arith in rw (a, b, c)

-- A day of a year of the era that begins with the year 400 `e`.
date_within :
    (e doe : ℕ)
    → date_in_era (pos (e * 400)) doe
      ≡ date_of (pos (e * 400 + year_of_era doe)) (doe - year_start (year_of_era doe))
unfolding date_in_era
date_within e doe = refl

next_in_year :
    (e doe : ℕ)
    → doe + 1 < 146097
    → doe + 1 < year_start (year_of_era doe + 1) ⊎ year_of_era doe ≡ 399
    → doe - year_start (year_of_era doe) < 364 + leap_day (is_leap (year_of_era doe + 1))
    → date_in_era (pos (e * 400)) (doe + 1) ≡ next_day (date_in_era (pos (e * 400)) doe)
next_in_year e doe h k l =
    let same = year_of_era-same doe h k in
    let le = year_start-le doe (omega arith) in
    let leap = is_leap-era e (year_of_era doe) in
    let shift : doe + 1 - year_start (year_of_era doe) ≡ doe - year_start (year_of_era doe) + 1 =
      omega arith in
    date_within e (doe + 1)
    ∙ ap (λ y. date_of (pos (e * 400 + y)) (doe + 1 - year_start y)) same
    ∙ ap (date_of (pos (e * 400 + year_of_era doe))) shift
    ∙ date_of-next (e * 400 + year_of_era doe) (doe - year_start (year_of_era doe))
        (subst (λ b. doe - year_start (year_of_era doe) < 364 + leap_day b) (sym leap) l)
    ∙ ap next_day (sym (date_within e doe))

next_in_new_year :
    (e doe : ℕ)
    → doe + 1 < 146097
    → doe + 1 ≡ year_start (year_of_era doe + 1)
    → year_of_era doe < 399
    → date_in_era (pos (e * 400)) (doe + 1) ≡ next_day (date_in_era (pos (e * 400)) doe)
next_in_new_year e doe h k l =
    let new = year_of_era-new doe h k l in
    let le = year_start-le doe (omega arith) in
    let year = year_start-suc (year_of_era doe) l in
    let leap = is_leap-era e (year_of_era doe) in
    let zero_day : doe + 1 - year_start (year_of_era doe + 1) ≡ 0 = omega arith in
    let last : doe - year_start (year_of_era doe)
        ≡ 364 + leap_day (is_leap (e * 400 + year_of_era doe + 1)) =
      subst (λ b. doe - year_start (year_of_era doe) ≡ 364 + leap_day b) (sym leap) (omega arith) in
    date_within e (doe + 1)
    ∙ ap (λ y. date_of (pos (e * 400 + y)) (doe + 1 - year_start y)) new
    ∙ ap₂ (λ y d. date_of (pos y) d) (omega arith) zero_day
    ∙ date_of-new_year (e * 400 + year_of_era doe) (doe - year_start (year_of_era doe)) last
    ∙ ap next_day (sym (date_within e doe))

last_leaps : (e : ℕ) → 365 ≡ 364 + leap_day (is_leap (e * 400 + 399 + 1))
unfolding is_leap
last_leaps e = ap (λ b. 364 + leap_day b) (sym (is_leap-era e 399))

next_era :
    (e : ℕ) → date_in_era (pos ((e + 1) * 400)) 0 ≡ next_day (date_in_era (pos (e * 400)) 146096)
unfolding year_of_era year_start
next_era e =
    let carry : (e + 1) * 400 + 0 ≡ e * 400 + 399 + 1 = omega arith in
    date_within (e + 1) 0
    ∙ ap (λ y. date_of (pos y) 0) carry
    ∙ date_of-new_year (e * 400 + 399) 365 (last_leaps e)
    ∙ ap next_day (sym (date_within e 146096))

last_of_era :
    (doe : ℕ) → doe + 1 < 146097 → doe - year_start 399 < 364 + leap_day (is_leap (399 + 1))
unfolding year_start is_leap
last_of_era doe h = omega arith

within_last_year :
    (doe y : ℕ) → y ≡ 399 → doe + 1 < 146097 → doe - year_start y < 364 + leap_day (is_leap (y + 1))
within_last_year doe y k h =
    subst (λ y. doe - year_start y < 364 + leap_day (is_leap (y + 1))) (sym k) (last_of_era doe h)

next_in_era :
    (e doe : ℕ)
    → doe + 1 < 146097
    → date_in_era (pos (e * 400)) (doe + 1) ≡ next_day (date_in_era (pos (e * 400)) doe)
next_in_era e doe h =
    let lt = lt-year_start doe (omega arith) in
    let bound = year_of_era-lt doe (omega arith) in
    let le = year_start-le doe (omega arith) in
    elim (Bool-cases (year_of_era doe == 399)) [
      | inl last ↦
          next_in_year e doe h (inr ((==_iff _ _).0 last))
            (within_last_year doe (year_of_era doe) ((==_iff _ _).0 last) h)
      | inr other ↦
          let year = year_start-suc (year_of_era doe) (ground arith) in
          elim (Bool-cases (ltb (doe + 1) (year_start (year_of_era doe + 1)))) [
            | inl inside ↦ next_in_year e doe h (inl (ground arith)) (ground arith)
            | inr outside ↦ next_in_new_year e doe h (ground arith) (ground arith)
          ]
    ]

-- The date in the era that a count from March of the year 0 falls in.
next_counted :
    (n q r : ℕ)
    → n ≡ q * 146097 + r
    → r < 146097
    → civil_from_march (pos (n + 1)) ≡ next_day (date_in_era (pos (q * 400)) r)
unfolding civil_from_march
next_counted n q r h k = elim (Bool-cases (ltb (r + 1) 146097)) [
  | inl inside ↦
      let lt : r + 1 < 146097 = ground arith in
      let same : (n + 1) / 146097 ≡ q = omega (arith, h, lt) in
      let off : n + 1 - q * 146097 ≡ r + 1 = omega (arith, h) in
      ap (λ e. date_in_era (pos (e * 400)) (n + 1 - e * 146097)) same
      ∙ ap (date_in_era (pos (q * 400))) off
      ∙ next_in_era q r lt
  | inr outside ↦
      let last : r ≡ 146096 = ground arith in
      let next : (n + 1) / 146097 ≡ q + 1 = omega (arith, h, last) in
      let off : n + 1 - (q + 1) * 146097 ≡ 0 = omega (arith, h, last) in
      ap (λ e. date_in_era (pos (e * 400)) (n + 1 - e * 146097)) next
      ∙ ap (date_in_era (pos ((q + 1) * 400))) off
      ∙ next_era q
      ∙ ap (λ r. next_day (date_in_era (pos (q * 400)) r)) (sym last)
]

-- From the epoch on, the date that `civil_from_days` gives the next day is the next date of the
-- Gregorian calendar, with its lengths of months and its leap years.
pub civil_from_days_lem :
    (n : ℕ) → civil_from_days (pos (n + 1)) ≡ next_day (civil_from_days (pos n))
unfolding civil_from_days civil_from_march
civil_from_days_lem n =
    let m = n + 719468 in
    let later : n + 1 + 719468 ≡ n + 719468 + 1 = omega arith in
    ap (λ k. civil_from_march (pos k)) later
    ∙ next_counted m (m / 146097) (m - m / 146097 * 146097) (omega arith) (omega arith)
