-- ===== src/Tier/Civil/Calendar.antt =====
-- `civil_from_days` follows the Gregorian calendar: the next day has the next date.
use wkp.Base.{
  ℕ, zero, suc, ◌+◌, ◌%◌, ◌≤◌, ◌<◌, ◌≡◌, refl, sym, ◌∙◌, subst, ◌≢◌, Bool, true, false, not, ◌&&◌,
  ◌||◌, arith, ltb, leb, ◌==◌, if◌then◌else◌,
}
use wkp.Tier.Civil.{month_of, day_of, pos, negsuc, Date, year_of_era, year_start, date_of}

unfoldable pub is_leap : ℕ → Bool
is_leap y = y % 4 == 0 && (not (y % 100 == 0) || y % 400 == 0)

-- The days of a month, in a leap year or not.
unfoldable pub days_in : Bool → ℕ → ℕ
days_in leap m =
    if m == 2
    then (if leap then 29 else 28)
    else if m == 4 || (m == 6 || (m == 9 || m == 11))
    then 30
    else 31

unfoldable pub days_in_month : ℕ → ℕ → ℕ
days_in_month y m = days_in (is_leap y) m

-- The date after the date `d` of the month `m` of the year `y`.
unfoldable pub next_date : ℕ → ℕ → ℕ → Date
unfolding days_in_month
next_date y m d =
    if ltb d (days_in_month y m)
    then record { year = pos y; month = m; day = d + 1 }
    else if ltb m 12
    then record { year = pos y; month = m + 1; day = 1 }
    else record { year = pos (y + 1); month = 1; day = 1 }

pub next_day : Date → Date
unfolding next_date
next_day date = elim date.year [ pos y ↦ next_date y date.month date.day | negsuc y ↦ date ]

pub year_start-le : (doe : ℕ) → doe < 146097 → year_start (year_of_era doe) ≤ doe
unfolding year_start year_of_era
year_start-le doe h = omega arith

pub lt-year_start : (doe : ℕ) → doe < 146096 → doe < year_start (year_of_era doe + 1)
unfolding year_start year_of_era
lt-year_start doe h = omega arith

pub year_of_era-lt : (doe : ℕ) → doe < 146097 → year_of_era doe < 400
unfolding year_of_era
year_of_era-lt doe h = omega arith

abbrev pub leap_day : Bool → ℕ
leap_day leap = if leap then 1 else 0

-- The month and day of the day after `doy` follow those of `doy`.
follows : Bool → ℕ → Bool
follows leap doy =
    if ltb (day_of doy) (days_in leap (month_of doy))
    then month_of (doy + 1) == month_of doy && day_of (doy + 1) == day_of doy + 1
    else day_of (doy + 1) == 1
      && (if ltb (month_of doy) 12
          then month_of (doy + 1) == month_of doy + 1 && not (month_of doy == 2)
          else month_of (doy + 1) == 1)

-- The test holds of every number below a bound, by evaluation.
unfoldable pub passes : (ℕ → Bool) → ℕ → Bool
passes test zero = true
passes test (suc bound) = let earlier = passes test bound in earlier && test bound

pub test_passed :
    (test : ℕ → Bool) (bound k : ℕ) → k < bound → passes test bound ≡ true → test k ≡ true
unfolding passes
test_passed test zero k lt h = absurd (omega arith)
test_passed test (suc bound) k lt h = ground (arith, test_passed test bound k)

follows_table : (leap : Bool) → passes (follows leap) (364 + leap_day leap) ≡ true
unfolding passes follows month_of day_of days_in
follows_table true = refl
follows_table false = refl

follows_within : (leap : Bool) (doy : ℕ) → doy < 364 + leap_day leap → follows leap doy ≡ true
follows_within leap doy h =
    test_passed (follows leap) (364 + leap_day leap) doy h (follows_table leap)

month_of-pos : (doy : ℕ) → doy < 366 → (1 ≤ month_of doy) × (month_of doy ≤ 12)
unfolding month_of
month_of-pos doy h = ground arith

-- Outside February the year does not matter.
days_in_other : (a b : Bool) (m : ℕ) → m ≢ 2 → days_in a m ≡ days_in b m
unfolding days_in
days_in_other a b m h = ground arith

pub leap_day-le : (leap : Bool) → leap_day leap ≤ 1
leap_day-le true = omega arith
leap_day-le false = omega arith

-- One step of the calendar within the March year `y`, whose last month is in the year `y + 1`.
month_step :
    (y m d m' d' : ℕ)
    → (if ltb d (days_in (is_leap (y + 1)) m)
        then m' == m && d' == d + 1
        else d' == 1 && (if ltb m 12 then m' == m + 1 && not (m == 2) else m' == 1))
      ≡ true
    → 1 ≤ m
    → record { year = if leb m' 2 then pos (y + 1) else pos y; month = m'; day = d' }
      ≡ next_date (if leb m 2 then y + 1 else y) m d
unfolding next_date days_in_month
month_step y m d m' d' f p = let o = days_in_other (is_leap y) (is_leap (y + 1)) m in ground arith

next_day-if :
    (b : Bool) (y m d : ℕ)
    → next_day record { year = if b then pos (y + 1) else pos y; month = m; day = d }
      ≡ next_date (if b then y + 1 else y) m d
unfolding next_day
next_day-if true y m d = refl
next_day-if false y m d = refl

pub date_of-next :
    (y doy : ℕ)
    → doy < 364 + leap_day (is_leap (y + 1))
    → date_of (pos y) (doy + 1) ≡ next_day (date_of (pos y) doy)
unfolding date_of follows
date_of-next y doy h =
    let l = leap_day-le (is_leap (y + 1)) in
    let f = follows_within (is_leap (y + 1)) doy h in
    let p = (month_of-pos doy (omega arith)).0 in
    let s = month_step y (month_of doy) (day_of doy) (month_of (doy + 1)) (day_of (doy + 1)) f p in
    s ∙ sym (next_day-if (leb (month_of doy) 2) y (month_of doy) (day_of doy))

new_year :
    (y : ℕ) (leap : Bool)
    → is_leap (y + 1) ≡ leap
    → date_of (pos (y + 1)) 0 ≡ next_day (date_of (pos y) (364 + leap_day leap))
unfolding date_of next_day next_date days_in_month days_in month_of day_of
new_year y true h = ground (arith, h)
new_year y false h = ground (arith, h)

pub date_of-new_year :
    (y doy : ℕ)
    → doy ≡ 364 + leap_day (is_leap (y + 1))
    → date_of (pos (y + 1)) 0 ≡ next_day (date_of (pos y) doy)
date_of-new_year y doy h =
    subst (λ d. date_of (pos (y + 1)) 0 ≡ next_day (date_of (pos y) d)) (sym h)
      (new_year y (is_leap (y + 1)) refl)
