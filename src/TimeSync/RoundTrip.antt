-- ===== src/TimeSync/RoundTrip.antt =====
-- The calendar of src/timesync.rs: stamps survive the way to fields and back.
use sedsnet.TimeSync.Calendar.{
  partial_of, as_unix_ms, to_network_time, from_unix_ms, in_range, fields_of, seconds_per_day,
  nanos_per_second, NetworkTime, from_unix_ns, as_unix_ns, i32_max, civil_from_days, era_of, yoe_of,
  days_from_civil, day_of_year, year_of_era, year_start,
}
use sedsnet.Base.{
  refl, opt_ind, u64_max, negsuc, ap, ◌%◌, ◌<◌, true, ◌≤◌, ◌∙◌, some-injective, subst, if_ind, ◌+ℤ◌,
  ℤ, some, none, leb, pos, ◌-ℤ◌, ltb, if◌then◌else◌, ◌/◌, ◌*◌, ◌-◌, ◌+◌, ◌≡◌, arith, ℕ,
}

year_of_era_bound : (doe : ℕ) → doe < 146097 → year_of_era doe < 400
year_of_era_bound doe h = omega arith

year_start_low : (doe : ℕ) → doe < 146097 → year_start (year_of_era doe) ≤ doe
year_start_low doe h = omega arith

year_start_high : (doe : ℕ) → doe < 146097 → doe ≤ year_start (year_of_era doe) + 365
year_start_high doe h = omega arith

-- The month and the day of the day `doy` of a year that starts with March.
abbrev month_of : ℕ → ℕ
month_of doy = let mp = (5 * doy + 2) / 153 in if ltb mp 10 then mp + 3 else mp - 9

abbrev day_of : ℕ → ℕ
day_of doy = let mp = (5 * doy + 2) / 153 in doy - (153 * mp + 2) / 5 + 1

month_of_bounds : (doy : ℕ) → doy ≤ 365 → (1 ≤ month_of doy) × (month_of doy ≤ 12)
month_of_bounds doy h = ground arith

day_of_bounds : (doy : ℕ) → doy ≤ 365 → (1 ≤ day_of doy) × (day_of doy ≤ 31)
day_of_bounds doy h = omega arith

day_of_year_back : (doy : ℕ) → doy ≤ 365 → day_of_year (month_of doy) (day_of doy) ≡ doy
day_of_year_back doy h = ground arith

-- The first two months of a civil year belong to the era's year before.
era_back :
    (era yoe early : ℕ)
    → yoe < 400
    → early ≤ 1
    → era_of (pos (yoe + era * 400 + early)) early ≡ pos era
unfolding era_of ◌-ℤ◌
era_back era yoe early h e = ground arith

yoe_back :
    (era yoe early : ℕ) → yoe < 400 → early ≤ 1 → yoe_of (pos (yoe + era * 400 + early)) early ≡ yoe
unfolding yoe_of
yoe_back era yoe early h e = ground arith

pos_sum_less : (a b c : ℕ) → c ≤ a + b → pos a +ℤ pos b -ℤ pos c ≡ pos (a + b - c)
unfolding ◌+ℤ◌ ◌-ℤ◌
pos_sum_less a b c h = ground arith

days_back :
    (era yoe month day : ℕ)
    → yoe < 400
    → 719468 ≤ era * 146097 + (year_start yoe + day_of_year month day)
    → days_from_civil (pos (yoe + era * 400 + (if leb month 2 then 1 else 0))) month day
      ≡ pos (era * 146097 + (year_start yoe + day_of_year month day) - 719468)
unfolding days_from_civil
days_back era yoe month day h k =
    let early : ℕ = if leb month 2 then 1 else 0 in
    let e : early ≤ 1 = ground arith in
    rw (era_back era yoe early h e, yoe_back era yoe early h e, days_from_civil)
      (pos_sum_less (era * 146097) _ 719468 k)

-- What `civil_from_days` answers for a day: a month and a day of the month in their ranges, and
-- `days_from_civil` of the three is the day again.
abbrev IsCivil : ℕ → ℤ × ℕ × ℕ → Type 0
IsCivil days (year, month, day) =
    (days_from_civil year month day ≡ pos days)
    × (1 ≤ month)
    × (month ≤ 12)
    × (1 ≤ day)
    × (day ≤ 31)

civil_from_days-IsCivil :
    (days : ℕ) {civil : ℤ × ℕ × ℕ} → civil_from_days days ≡ some civil → IsCivil days civil
unfolding civil_from_days
civil_from_days-IsCivil days {civil} =
    if_ind (λ o. o ≡ some civil → IsCivil days civil) (leb y i32_max)
      (λ _ e. subst (IsCivil days) (some-injective _ _ e) (
        whole,
        (month_of_bounds doy late).0,
        (month_of_bounds doy late).1,
        (day_of_bounds doy late).0,
        (day_of_bounds doy late).1,
      ))
      λ _ (e : none ≡ some civil). absurd (cc)
  where
    z : ℕ
    z = days + 719468

    era : ℕ
    era = z / 146097

    doe : ℕ
    doe = z - era * 146097

    yoe : ℕ
    yoe = year_of_era doe

    doy : ℕ
    doy = doe - year_start yoe

    y : ℕ
    y = yoe + era * 400 + (if leb (month_of doy) 2 then 1 else 0)

    inside : doe < 146097
    inside = omega arith

    small : yoe < 400
    small = year_of_era_bound doe inside

    late : doy ≤ 365
    late = omega (arith, year_start_high doe inside)

    back_doy : day_of_year (month_of doy) (day_of doy) ≡ doy
    back_doy = day_of_year_back doy late

    total : era * 146097 + (year_start yoe + day_of_year (month_of doy) (day_of doy)) ≡ z
    total = omega (arith, back_doy, year_start_low doe inside)

    whole : days_from_civil (pos y) (month_of doy) (day_of doy) ≡ pos days
    whole =
        days_back era yoe (month_of doy) (day_of doy) small (omega (arith, total))
        ∙ ap pos (omega (arith, total))

pos_sum : (a b : ℕ) → pos a +ℤ pos b ≡ pos (a + b)
unfolding ◌+ℤ◌
pos_sum a b = ground arith

stamp_back :
    (n : ℕ) (civil : ℤ × ℕ × ℕ)
    → let secs = n / nanos_per_second in
      IsCivil (secs / seconds_per_day) civil
      → as_unix_ns (fields_of secs (n % nanos_per_second) civil) ≡ some (pos n)
unfolding as_unix_ns
stamp_back n civil c =
    let secs = n / nanos_per_second in
    let t = fields_of secs (n % nanos_per_second) civil in
    let valid : in_range t ≡ true = ground arith in
    rw (valid, c.0, pos_sum, pos_sum, pos_sum, pos_sum) (ap (λ x. some (pos x)) (omega arith))

-- A stamp that has calendar fields is read back from them exactly, to the nanosecond.
pub as_unix_ns-from_unix_ns :
    (stamp : ℤ) {t : NetworkTime} → from_unix_ns stamp ≡ some t → as_unix_ns t ≡ some stamp
unfolding from_unix_ns
as_unix_ns-from_unix_ns (negsuc n) {t} = λ (e : none ≡ some t). absurd (cc)
as_unix_ns-from_unix_ns (pos n) {t} =
    let secs = n / nanos_per_second in
    if_ind (λ o. o ≡ some t → as_unix_ns t ≡ some (pos n)) (leb secs u64_max)
      (λ _.
        opt_ind (λ o. o ≡ some t → as_unix_ns t ≡ some (pos n))
          (civil_from_days (secs / seconds_per_day)) (λ _ (e : none ≡ some t). absurd (cc))
          λ civil found e.
            subst (λ x. as_unix_ns x ≡ some (pos n)) (some-injective _ _ e)
              (stamp_back n civil (civil_from_days-IsCivil _ found)))
      λ _ (e : none ≡ some t). absurd (cc)

civil_some : (days : ℕ) → days < 0x40_0000_0000 → (c : ℤ × ℕ × ℕ) × (civil_from_days days ≡ some c)
unfolding civil_from_days
civil_some days h =
    let z = days + 719468 in
    let doe = z - z / 146097 * 146097 in
    let y = year_of_era doe + z / 146097 * 400 in
    let early : ℕ = if leb (month_of (doe - year_start (year_of_era doe))) 2 then 1 else 0 in
    let e : early ≤ 1 = ground arith in
    if_ind (λ o. (c : ℤ × ℕ × ℕ) × (o ≡ some c)) (leb (y + early) i32_max) (λ _. (_, refl))
      λ large. absurd (ground (arith, e, year_of_era_bound doe (omega arith)))

-- Every `u64` number of milliseconds has calendar fields.
stamp_some :
    (ms : ℕ) → ms ≤ u64_max → (t : NetworkTime) × (from_unix_ns (pos (ms * 1_000_000)) ≡ some t)
unfolding from_unix_ns
stamp_some ms h =
    let secs = ms * 1_000_000 / nanos_per_second in
    let (c, e) = civil_some (secs / seconds_per_day) (omega arith) in
    let fits : leb secs u64_max ≡ true = ground arith in
    (fields_of secs (ms * 1_000_000 % nanos_per_second) c, rw (fits, e))

from_unix_ms_filled :
    (ms : ℕ) {t : NetworkTime}
    → from_unix_ns (pos (ms * 1_000_000)) ≡ some t
    → from_unix_ms ms ≡ partial_of t
unfolding from_unix_ms
from_unix_ms_filled ms e = rw (e, from_unix_ms)

to_network_time-partial_of : (t : NetworkTime) → to_network_time (partial_of t) ≡ some t
unfolding to_network_time
to_network_time-partial_of t = refl

as_unix_ms_exact :
    (ms : ℕ) (t : NetworkTime)
    → ms ≤ u64_max
    → as_unix_ns t ≡ some (pos (ms * 1_000_000))
    → as_unix_ms t ≡ some ms
unfolding as_unix_ms
as_unix_ms_exact ms t h e =
    let whole : leb (ms * 1_000_000 / 1_000_000) u64_max ≡ true = ground arith in
    let back : ms * 1_000_000 / 1_000_000 ≡ ms = omega arith in rw (e, as_unix_ms, whole, back)

-- Every `u64` number of milliseconds becomes a complete reading, which is the same number of
-- milliseconds again.
pub as_unix_ms-from_unix_ms :
    (ms : ℕ)
    → ms ≤ u64_max
    → (t : NetworkTime) × (to_network_time (from_unix_ms ms) ≡ some t) × (as_unix_ms t ≡ some ms)
as_unix_ms-from_unix_ms ms h =
    let (t, e) = stamp_some ms h in
    (
      t,
      ap to_network_time (from_unix_ms_filled ms e) ∙ to_network_time-partial_of t,
      as_unix_ms_exact ms t h (as_unix_ns-from_unix_ns (pos (ms * 1_000_000)) e),
    )
