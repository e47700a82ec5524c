-- ===== src/Billing/Zones.antt =====
-- What is relied on of a time zone (zoneinfo): its dates follow its midnights.
use nextgen_backend.Prelude.{ℕ, ◌+◌, ◌-◌, ◌≤◌, ◌<◌, ◌≡◌, arith}
use nextgen_backend.Billing.{Zone, end_of_local_day_utc}

-- A local date has begun by an instant exactly when the instant's local date is that date or a
-- later one; a date's midnight falls on that date; time begins on the first date.
pub record ZoneLaws (zone : Zone) : Type 0 where
  pub begun : (d t : ℕ) → zone.midnight d ≤ t → d ≤ zone.date_of t
  pub begins : (d t : ℕ) → d ≤ zone.date_of t → zone.midnight d ≤ t
  pub midnight_date : (d : ℕ) → zone.date_of (zone.midnight d) ≡ d
  pub first : zone.date_of 0 ≡ 0

module _ (zone : Zone) (laws : ZoneLaws zone) where
  midnight_pos : (d : ℕ) → 1 ≤ zone.midnight (d + 1)
  midnight_pos d = grind (arith, laws.begun (d + 1) 0, laws.first)

  pub after_end : (d t : ℕ) → d < zone.date_of t → end_of_local_day_utc zone d ≤ t
  unfolding end_of_local_day_utc
  after_end d t h = omega (arith, laws.begins (d + 1) t (omega (arith, h)))

  pub within_end : (d t : ℕ) → zone.date_of t ≤ d → t ≤ end_of_local_day_utc zone d
  unfolding end_of_local_day_utc
  within_end d t h = grind (arith, laws.begun (d + 1) t)

  pub end_date : (d : ℕ) → zone.date_of (end_of_local_day_utc zone d) ≡ d
  unfolding end_of_local_day_utc
  end_date d =
      let last = zone.midnight (d + 1) - 1 in
      grind (
        arith,
        midnight_pos d,
        laws.begun (d + 1) (zone.midnight d),
        laws.midnight_date d,
        laws.begun d last,
        laws.begins (d + 1) last,
      )
