-- ===== src/Calendar.antt =====
-- libs/data_types.h: `Time2YYYYMMDD`. `std::localtime` of `time_ns / 1E9`, with its division of
-- doubles, is a parameter: the local date of a timestamp.
use tracebox.Prelude.{ℕ, ◌+◌, ◌*◌, ◌<◌, ◌≡◌, ◌⊎◌, ◌↔◌, arith}

-- The fields of `std::tm`: years since 1900, months from 0, days from 1.
pub record Date : Type 0 where
  pub year : ℕ
  pub month : ℕ
  pub day : ℕ

unfoldable pub yyyymmdd : Date → ℕ
yyyymmdd d = (d.year + 1900) * 10000 + (d.month + 1) * 100 + d.day

unfoldable pub time_to_yyyymmdd : (ℕ → Date) → ℕ → ℕ
time_to_yyyymmdd local_date time_ns = yyyymmdd (local_date time_ns)

pub record IsDate (d : Date) : Type 0 where
  pub month : d.month < 12
  pub day : d.day < 32
  pub some_day : 0 < d.day

-- `a` is an earlier day than `b`.
abbrev pub Before : Date → Date → Type 0
Before a b =
    (a.year < b.year)
    ⊎ ((a.year ≡ b.year) × (a.month < b.month))
    ⊎ ((a.year ≡ b.year) × (a.month ≡ b.month) × (a.day < b.day))

-- For two dates, the numbers of the days compare exactly as the days do.
pub yyyymmdd-Before : (a b : Date) → IsDate a → IsDate b → (yyyymmdd a < yyyymmdd b) ↔ Before a b
unfolding yyyymmdd
yyyymmdd-Before a b va vb = (λ h. earlier h, λ h. omega arith)
  where
    earlier :
        (a.year + 1900) * 10000 + (a.month + 1) * 100 + a.day
          < (b.year + 1900) * 10000 + (b.month + 1) * 100 + b.day
        → Before a b
    earlier h = grind arith

-- Two dates with equal numbers are the same day.
pub yyyymmdd-injective :
    (a b : Date)
    → IsDate a
    → IsDate b
    → yyyymmdd a ≡ yyyymmdd b
    → (a.year ≡ b.year) × (a.month ≡ b.month) × (a.day ≡ b.day)
unfolding yyyymmdd
yyyymmdd-injective a b va vb e = omega arith
