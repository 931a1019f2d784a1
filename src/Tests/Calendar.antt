-- ===== src/Tests/Calendar.antt =====
-- Tiers and dates: tier.rs.
use wkp.Base.{◌≡◌, refl, ◌↔◌, true, some, arith}
use wkp.Str.{codes}
use wkp.Frontmatter.Types.{Frontmatter, ItemType, default}
use wkp.Tier.Civil.{
  pos, negsuc, civil_from_days, civil_from_march, date_in_era, date_of, year_of_era, year_start,
  month_of, day_of,
}
use wkp.Tier.Civil.Calendar.{next_day}
use wkp.Tier.Civil.Days.{civil_from_days_lem}
use wkp.Tier.Gate.{compute_tier-Gate, Gate}
use wkp.Tier.Compute.{compute_tier}

-- The dates of the source's tests: the epoch, a leap day, and the day before the epoch.
dates :
    (civil_from_days (pos 0) ≡ record { year = pos 1970; month = 1; day = 1 })
    × (civil_from_days (pos 11016) ≡ record { year = pos 2000; month = 2; day = 29 })
    × (civil_from_days (negsuc 0) ≡ record { year = pos 1969; month = 12; day = 31 })
unfolding civil_from_days civil_from_march date_in_era date_of year_of_era year_start month_of
    day_of
dates = (refl, refl, refl)

civil_from_days_lem_example : civil_from_days (pos 11017) ≡ next_day (civil_from_days (pos 11016))
civil_from_days_lem_example = civil_from_days_lem 11016

abbrev note : Frontmatter
note = record default { item_type = some ItemType.knowledge }

compute_tier-Gate_example :
    (compute_tier 0 (codes "user/a.md") note true ≡ some 1) ↔ Gate 0 (codes "user/a.md") note true 1
compute_tier-Gate_example = compute_tier-Gate 0 (codes "user/a.md") note true 1 (omega arith)
