-- ===== src/Loan/Calendar.antt =====
-- `datetime.date` as a year, a month and a day, and `_add_months` of
-- app/services/loan_schedules.py. A date has a year from 1 to 9999.
use sole_backend.Prelude.{
  ℕ, ◌+◌, ◌-◌, ◌*◌, ◌/◌, ◌%◌, ◌≤◌, ◌<◌, ◌≡◌, min, Bool, true, not, ◌&&◌, ◌||◌, inl, inr, ltb, ◌==◌,
  if◌then◌else◌, Bool-cases, Option-cases, arith, Option, none, some, leb, refl, subst,
}

pub record CalendarDate : Type 0 where
  pub year : ℕ
  pub month : ℕ
  pub day : ℕ

unfoldable pub is_leap : ℕ → Bool
is_leap year = year % 4 == 0 && (not (year % 100 == 0) || year % 400 == 0)

-- `calendar.monthrange(year, month)[1]`
unfoldable pub days_in_month : ℕ → ℕ → ℕ
days_in_month year month =
    if month == 2
    then (if is_leap year then 29 else 28)
    else if month == 4 || month == 6 || month == 9 || month == 11
    then 30
    else 31

-- `datetime.MAXYEAR`
abbrev pub max_year : ℕ
max_year = 9999

-- `date(year, month, min(day, ...))`; None is the ValueError of a year past the last. Years only grow
-- here, so the first is no concern.
unfoldable pub add_months : CalendarDate → ℕ → Option CalendarDate
add_months start months =
    let month_index = start.month - 1 + months in
    let year = start.year + month_index / 12 in
    let month = month_index % 12 + 1 in
    if leb year max_year
    then some
        (record { year = year; month = month; day = min start.day (days_in_month year month) })
    else none

unfoldable pub before : CalendarDate → CalendarDate → Bool
before a b =
    ltb a.year b.year
    || a.year == b.year && (ltb a.month b.month || a.month == b.month && ltb a.day b.day)

pub record IsDate (d : CalendarDate) : Type 0 where
  pub some_year : 1 ≤ d.year
  pub year_in_range : d.year ≤ max_year
  pub some_month : 1 ≤ d.month
  pub month_in_year : d.month ≤ 12
  pub some_day : 1 ≤ d.day
  pub day_in_month : d.day ≤ days_in_month d.year d.month

-- Months since year 0.
abbrev pub month_count : CalendarDate → ℕ
month_count d = 12 * d.year + d.month

days_in_month_pos : (year month : ℕ) → 28 ≤ days_in_month year month
unfolding days_in_month
days_in_month_pos year month = ground arith

-- December of the last year.
abbrev pub last_month : ℕ
last_month = 12 * max_year + 12

-- What becomes of adding months: a date that exists, so many months later, on the same day or the
-- last one of a shorter month; none where the month is past the last.
abbrev pub AddsMonths : CalendarDate → ℕ → Option CalendarDate → Type 0
AddsMonths start months none = last_month < month_count start + months
AddsMonths start months (some d) =
    IsDate d
    × (month_count d ≡ month_count start + months)
    × (d.day ≡ min start.day (days_in_month d.year d.month))

-- From a date that exists, `_add_months` gives a date that exists, exactly so many months later, on
-- the same day or, in a month without one, on its last day; it raises exactly where that month is
-- past December 9999.
pub add_months-IsDate :
    (start : CalendarDate) (months : ℕ)
    → IsDate start
    → AddsMonths start months (add_months start months)
unfolding add_months
add_months-IsDate start months v =
    let index = start.month - 1 + months in
    let year = start.year + index / 12 in
    let month = index % 12 + 1 in
    let room = days_in_month_pos year month in
    elim (Bool-cases (leb year max_year)) [
      | inl e ↦ rw e (
        record {
          some_year = omega (arith, v.some_year);
          year_in_range = ground arith;
          some_month = omega arith;
          month_in_year = omega arith;
          some_day = omega (arith, room, v.some_day);
          day_in_month = omega arith;
        },
        omega (arith, v.some_month),
        refl,
      )
      | inr e ↦
          rw e (let late : max_year < year = ground arith in omega (arith, v.some_month, late))
    ]

adds-some :
    (start : CalendarDate) (n : ℕ) (o : Option CalendarDate) (d : CalendarDate)
    → AddsMonths start n o
    → o ≡ some d
    → AddsMonths start n (some d)
adds-some start n o d h e = subst (AddsMonths start n) e h

add_months-count :
    (start : CalendarDate) (n : ℕ) (d : CalendarDate)
    → IsDate start
    → add_months start n ≡ some d
    → IsDate d × (month_count d ≡ month_count start + n)
add_months-count start n d v e =
    let h = adds-some start n _ d (add_months-IsDate start n v) e in (h.0, h.1)

-- In range there is a date.
pub add_months-found :
    (start : CalendarDate) (n : ℕ)
    → IsDate start
    → month_count start + n ≤ last_month
    → (d : CalendarDate) × (add_months start n ≡ some d)
add_months-found start n v h = elim (Option-cases (add_months start n)) [
  | inl e ↦ absurd (omega (arith, h, subst (AddsMonths start n) e (add_months-IsDate start n v)))
  | inr found ↦ found
]

before_month :
    (a b : CalendarDate) → IsDate a → IsDate b → month_count a < month_count b → before a b ≡ true
unfolding before
before_month a b va vb h = elim (Bool-cases (ltb a.year b.year)) [
  | inl e ↦ rw e
  | inr e ↦
      let years : a.year ≡ b.year =
        ground (arith, va.month_in_year, vb.month_in_year, va.some_month, vb.some_month) in
      ground arith
]

-- Of two instalments that both have a date the one with the smaller number falls due first.
pub add_months-before :
    (start : CalendarDate) (i j : ℕ) (a b : CalendarDate)
    → IsDate start
    → i < j
    → add_months start i ≡ some a
    → add_months start j ≡ some b
    → before a b ≡ true
add_months-before start i j a b v h ea eb =
    let x = add_months-count start i a v ea in
    let y = add_months-count start j b v eb in before_month a b x.0 y.0 (omega (arith, h, x.1, y.1))
