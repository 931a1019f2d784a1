-- ===== src/Tier/Civil.antt =====
-- `civil_from_days` of tier.rs: the calendar date of a number of days since 1970-01-01.
pub mod Calendar
pub mod Days
use wkp.Base.{
  ℕ, zero, suc, ◌+◌, ◌-◌, ◌*◌, ◌/◌, ◌%◌, ◌^◌, ◌≤◌, ◌<◌, min, max, String, ◌≡◌, refl, sym, ap, ap₂,
  ◌∙◌, subst, ◌≡⟨◌⟩◌, ◌∎, ◌≢◌, ◌↔◌, ◌⊎◌, inl, inr, Bool, true, false, not, ◌&&◌, ◌||◌, Option, none,
  some, List, [], ◌∷◌, ◌++◌, map, append-nil, append_assoc, arith, ltb, leb, ◌==◌, if◌then◌else◌,
  ==_iff, Bool-cases, Option-cases, &&-elim, length, take, drop, flatten, filter, take_while, all,
  any, is_empty, length-append, take-append, drop-append, filter_map, or_else, is_some, map_option,
  ◌>>=◌, all-append, drop_past, push_some,
}

-- `negsuc n` is -(n + 1).
pub data ℤ : Type 0 where
  pos : ℕ → ℤ
  negsuc : ℕ → ℤ

-- a - b, as an integer
abbrev pub sub_ℕ : ℕ → ℕ → ℤ
sub_ℕ a b = if leb b a then pos (a - b) else negsuc (b - a - 1)

abbrev pub add_ℕ : ℤ → ℕ → ℤ
add_ℕ (pos a) k = pos (a + k)
add_ℕ (negsuc a) k = sub_ℕ k (a + 1)

pub record Date : Type 0 where
  pub year : ℤ
  pub month : ℕ
  pub day : ℕ

-- The year of its era of 400 years, and that year's first day, which is the first of March.
unfoldable pub year_of_era : ℕ → ℕ
year_of_era doe = (doe - doe / 1460 + doe / 36524 - doe / 146096) / 365

unfoldable pub year_start : ℕ → ℕ
year_start yoe = 365 * yoe + yoe / 4 - yoe / 100

-- The months of a year that begins in March, from 0.
abbrev pub march_month : ℕ → ℕ
march_month doy = (5 * doy + 2) / 153

unfoldable pub month_of : ℕ → ℕ
month_of doy = if ltb (march_month doy) 10 then march_month doy + 3 else march_month doy - 9

unfoldable pub day_of : ℕ → ℕ
day_of doy = doy - (153 * march_month doy + 2) / 5 + 1

-- The date of the day `doy` of the year `y` that begins in March.
unfoldable pub date_of : ℤ → ℕ → Date
date_of y doy = record {
  year = if leb (month_of doy) 2 then add_ℕ y 1 else y;
  month = month_of doy;
  day = day_of doy;
}

-- The date of the day `doe` of an era that begins with the year `y`.
unfoldable pub date_in_era : ℤ → ℕ → Date
date_in_era y doe = let yoe = year_of_era doe in date_of (add_ℕ y yoe) (doe - year_start yoe)

-- By the sign of `z + 719468`; the division of a negative number rounds towards zero.
unfoldable pub civil_from_march : ℤ → Date
civil_from_march (pos n) = let era = n / 146097 in date_in_era (pos (era * 400)) (n - era * 146097)
civil_from_march (negsuc n) =
    let era = (n + 1 + 146096) / 146097 in
    date_in_era (sub_ℕ 0 (era * 400)) (era * 146097 - (n + 1))

unfoldable pub civil_from_days : ℤ → Date
civil_from_days z = civil_from_march (add_ℕ z 719468)
