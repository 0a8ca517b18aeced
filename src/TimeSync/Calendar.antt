-- ===== src/TimeSync/Calendar.antt =====
-- Calendar conversions of src/timesync.rs. Years are `i32`, nanosecond stamps are `i128`.
use sedsnet.Base.{
  sub_ℕ, u64_max, pos, is_some, ltb, leb, negsuc, ◌-ℤ◌, ℤ, Option, ℕ, Bool, ◌+ℤ◌, if◌then◌else◌,
  ◌&&◌, ◌%◌, ◌/◌, ◌*◌, ◌-◌, ◌+◌, suc, some, none,
}

pub record NetworkTime : Type 0 where
  pub year : ℤ
  pub month : ℕ
  pub day : ℕ
  pub hour : ℕ
  pub minute : ℕ
  pub second : ℕ
  pub nanosecond : ℕ

pub record PartialNetworkTime : Type 0 where
  pub year : Option ℤ
  pub month : Option ℕ
  pub day : Option ℕ
  pub hour : Option ℕ
  pub minute : Option ℕ
  pub second : Option ℕ
  pub nanosecond : Option ℕ

abbrev pub i32_max : ℕ
i32_max = 0x7fff_ffff

abbrev pub seconds_per_day : ℕ
seconds_per_day = 86400

abbrev pub nanos_per_second : ℕ
nanos_per_second = 1_000_000_000

-- `div_euclid` and `rem_euclid` by a positive number, and the product with one.
abbrev pub div_euclid : ℤ → ℕ → ℤ
div_euclid (pos a) n = pos (a / n)
div_euclid (negsuc a) n = negsuc (a / n)

abbrev pub rem_euclid : ℤ → ℕ → ℕ
rem_euclid (pos a) n = a % n
rem_euclid (negsuc a) n = n - 1 - a % n

abbrev pub scale : ℤ → ℕ → ℤ
scale (pos a) n = pos (a * n)
scale (negsuc a) n = sub_ℕ 0 (suc a * n)

-- The days before the year `yoe` of an era, and the year of an era that the day `doe` is in.
abbrev pub year_start : ℕ → ℕ
year_start yoe = yoe * 365 + yoe / 4 - yoe / 100

abbrev pub year_of_era : ℕ → ℕ
year_of_era doe = (doe - doe / 1460 + doe / 36524 - doe / 146096) / 365

-- The day within the year that starts with March; the callers' days are at least 1.
abbrev pub day_of_year : ℕ → ℕ → ℕ
day_of_year month day =
    let mp = if ltb 2 month then month - 3 else month + 9 in (153 * mp + 2) / 5 + day - 1

-- `era` and `yoe` of `days_from_civil`; `early` is 1 in the first two months, whose year is the one
-- before.
unfoldable pub era_of : ℤ → ℕ → ℤ
era_of year early =
    if ltb (rem_euclid year 400) early then div_euclid year 400 -ℤ pos 1 else div_euclid year 400

unfoldable pub yoe_of : ℤ → ℕ → ℕ
yoe_of year early =
    let rem = rem_euclid year 400 in if ltb rem early then rem + 400 - early else rem - early

unfoldable pub days_from_civil : ℤ → ℕ → ℕ → ℤ
unfolding era_of yoe_of
days_from_civil year month day =
    let early = if leb month 2 then 1 else 0 in
    scale (era_of year early) 146097
    +ℤ pos (year_start (yoe_of year early) + day_of_year month day)
    -ℤ pos 719468

unfoldable pub civil_from_days : ℕ → Option (ℤ × ℕ × ℕ)
civil_from_days days =
    let z = days + 719468 in
    let era = z / 146097 in
    let doe = z - era * 146097 in
    let yoe = year_of_era doe in
    let doy = doe - year_start yoe in
    let mp = (5 * doy + 2) / 153 in
    let d = doy - (153 * mp + 2) / 5 + 1 in
    let m = if ltb mp 10 then mp + 3 else mp - 9 in
    let y = yoe + era * 400 + (if leb m 2 then 1 else 0) in
    if leb y i32_max then some (pos y, m, d) else none

-- The fields of the second `secs` with the nanosecond `nanos`.
abbrev pub fields_of : ℕ → ℕ → ℤ × ℕ × ℕ → NetworkTime
fields_of secs nanos (year, month, day) =
    let sod = secs % seconds_per_day in
    record {
      year = year;
      month = month;
      day = day;
      hour = sod / 3600;
      minute = sod % 3600 / 60;
      second = sod % 60;
      nanosecond = nanos;
    }

unfoldable pub from_unix_ns : ℤ → Option NetworkTime
unfolding civil_from_days
from_unix_ns (negsuc n) = none
from_unix_ns (pos n) =
    let secs = n / nanos_per_second in
    if leb secs u64_max
    then elim (civil_from_days (secs / seconds_per_day)) [
      | none ↦ none
      | some civil ↦ some (fields_of secs (n % nanos_per_second) civil)
    ]
    else none

-- The guard of `as_unix_ns`.
abbrev pub in_range : NetworkTime → Bool
in_range t =
    leb 1 t.month
    && leb t.month 12
    && leb 1 t.day
    && leb t.day 31
    && leb t.hour 23
    && leb t.minute 59
    && leb t.second 59
    && ltb t.nanosecond nanos_per_second

unfoldable pub as_unix_ns : NetworkTime → Option ℤ
unfolding days_from_civil
as_unix_ns t =
    let days = days_from_civil t.year t.month t.day in
    let secs =
      scale days seconds_per_day +ℤ pos (t.hour * 3600) +ℤ pos (t.minute * 60) +ℤ pos t.second in
    if in_range t then some (scale secs nanos_per_second +ℤ pos t.nanosecond) else none

-- The milliseconds of a stamp that is not negative.
abbrev pub millis_of : ℤ → Option ℕ
millis_of (negsuc n) = none
millis_of (pos n) = let ms = n / 1_000_000 in if leb ms u64_max then some ms else none

unfoldable pub as_unix_ms : NetworkTime → Option ℕ
as_unix_ms t = elim (as_unix_ns t) [ none ↦ none | some ns ↦ millis_of ns ]

-- `PartialNetworkTime::default()` and `From<NetworkTime>`.
abbrev pub unknown_time : PartialNetworkTime
unknown_time = record {
  year = none;
  month = none;
  day = none;
  hour = none;
  minute = none;
  second = none;
  nanosecond = none;
}

abbrev pub partial_of : NetworkTime → PartialNetworkTime
partial_of t = record {
  year = some t.year;
  month = some t.month;
  day = some t.day;
  hour = some t.hour;
  minute = some t.minute;
  second = some t.second;
  nanosecond = some t.nanosecond;
}

unfoldable pub from_unix_ms : ℕ → PartialNetworkTime
from_unix_ms unix_ms = elim (from_unix_ns (pos (unix_ms * 1_000_000))) [
  | none ↦ unknown_time
  | some full ↦ partial_of full
]

abbrev pub is_complete_date : PartialNetworkTime → Bool
is_complete_date p = is_some p.year && is_some p.month && is_some p.day

abbrev pub is_complete_time : PartialNetworkTime → Bool
is_complete_time p = is_some p.hour && is_some p.minute && is_some p.second

abbrev pub or_else {ℓ} : {A : Type ℓ} → Option A → A → A
or_else none d = d
or_else (some a) d = a

abbrev pub all_three {ℓ κ μ} :
    {A : Type ℓ} {B : Type κ} {C : Type μ} → Option A → Option B → Option C → Option (A × B × C)
all_three (some a) (some b) (some c) = some (a, b, c)
all_three _ _ _ = none

unfoldable pub to_network_time : PartialNetworkTime → Option NetworkTime
to_network_time p = elim (all_three p.year p.month p.day) [
  | none ↦ none
  | some (year, month, day) ↦ elim (all_three p.hour p.minute p.second) [
    | none ↦ none
    | some (hour, minute, second) ↦ some (record {
      year = year;
      month = month;
      day = day;
      hour = hour;
      minute = minute;
      second = second;
      nanosecond = or_else p.nanosecond 0;
    })
  ]
]

-- The sum has `i128` to hold it: a stamp is below 2^98 and the elapsed time is `u64`.
unfoldable pub advance_network_time : NetworkTime → ℕ → Option NetworkTime
unfolding as_unix_ns from_unix_ns
advance_network_time base elapsed_ns = elim (as_unix_ns base) [
  | none ↦ none
  | some unix_ns ↦ from_unix_ns (unix_ns +ℤ pos elapsed_ns)
]
