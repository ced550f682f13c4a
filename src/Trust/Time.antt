-- ===== src/Trust/Time.antt =====
-- TufVerifier.cpp: `ParseUtcTimestamp`, with what `std::get_time` reads at fixed places and the
-- seconds of `timegm`. RegistryTrust.cpp has the same function.
use pafio_nightly.Prelude.{
  ℕ, ◌+◌, ◌-◌, ◌*◌, ◌/◌, ◌%◌, Bool, not, ◌&&◌, ◌||◌, Option, none, some, [], ◌∷◌, leb, ltb, ◌==◌,
  within, if◌then◌else◌, Text,
}

pub record Moment : Type 0 where
  pub year : ℕ
  pub month : ℕ
  pub day : ℕ
  pub hour : ℕ
  pub minute : ℕ
  pub second : ℕ

-- a field of decimal digits, all of which must be there
abbrev pub digits_from : ℕ → Text → Option ℕ
digits_from value [] = some value
digits_from value (c ∷ s) =
    let rest = digits_from (10 * value + (c - b'0')) s in if within b'0' b'9' c then rest else none

abbrev pub moment_of :
    Option ℕ → Option ℕ → Option ℕ → Option ℕ → Option ℕ → Option ℕ → Option Moment
moment_of (some y) (some m) (some d) (some h) (some mi) (some s) =
    some (record { year = y; month = m; day = d; hour = h; minute = mi; second = s })
moment_of _ _ _ _ _ _ = none

-- the size, the separators, and the digits between them
unfoldable pub read_moment : Text → Option Moment
read_moment
      (y1 ∷ y2 ∷ y3 ∷ y4 ∷ c4 ∷ m1 ∷ m2 ∷ c7 ∷ d1 ∷ d2 ∷ c10 ∷ h1 ∷ h2 ∷ c13 ∷ n1 ∷ n2 ∷ c16 ∷ s1
        ∷ s2 ∷ c19 ∷ []) =
    if c4 == b'-' && (c7 == b'-' && (c10 == b'T' && (c13 == b':' && (c16 == b':' && c19 == b'Z'))))
    then moment_of (digits_from 0 (y1 ∷ y2 ∷ y3 ∷ y4 ∷ [])) (digits_from 0 (m1 ∷ m2 ∷ []))
        (digits_from 0 (d1 ∷ d2 ∷ [])) (digits_from 0 (h1 ∷ h2 ∷ [])) (digits_from 0 (n1 ∷ n2 ∷ []))
        (digits_from 0 (s1 ∷ s2 ∷ []))
    else none
read_moment _ = none

unfoldable pub is_leap : ℕ → Bool
is_leap year = year % 4 == 0 && (not (year % 100 == 0) || year % 400 == 0)

-- `kDaysPerMonth`, with the leap day
unfoldable pub days_in_month : Bool → ℕ → ℕ
days_in_month leap month =
    if month == 2
    then (if leap then 29 else 28)
    else if month == 4 || (month == 6 || (month == 9 || month == 11))
    then 30
    else 31

unfoldable pub is_valid_moment : Moment → Bool
unfolding is_leap days_in_month
is_valid_moment t =
    leb 1970 t.year
    && (within 1 12 t.month
        && (leb 1 t.day
            && (leb t.day (days_in_month (is_leap t.year) t.month)
                && (leb t.hour 23 && (leb t.minute 59 && leb t.second 59)))))

-- the days of the months before one
unfoldable pub days_before_month : Bool → ℕ → ℕ
days_before_month leap month =
    (if ltb 1 month then 31 else 0)
    + ((if ltb 2 month then (if leap then 29 else 28) else 0)
        + ((if ltb 3 month then 31 else 0)
            + ((if ltb 4 month then 30 else 0)
                + ((if ltb 5 month then 31 else 0)
                    + ((if ltb 6 month then 30 else 0)
                        + ((if ltb 7 month then 31 else 0)
                            + ((if ltb 8 month then 31 else 0)
                                + ((if ltb 9 month then 30 else 0)
                                    + ((if ltb 10 month then 31 else 0)
                                        + (if ltb 11 month then 30 else 0))))))))))

-- the days from the first of January 1970 to that of a later year
unfoldable pub days_before_year : ℕ → ℕ
days_before_year year =
    365 * (year - 1970) + ((year - 1) / 4 + (year - 1) / 400 - (year - 1) / 100 - 477)

-- `timegm`
unfoldable pub seconds_of : Moment → ℕ
unfolding is_leap days_before_month days_before_year
seconds_of t =
    60
      * (60
            * (24
                  * (days_before_year t.year
                      + (days_before_month (is_leap t.year) t.month + (t.day - 1)))
                + t.hour)
          + t.minute)
    + t.second

abbrev pub checked_seconds : Option Moment → Option ℕ
checked_seconds none = none
checked_seconds (some t) = if is_valid_moment t then some (seconds_of t) else none

unfoldable pub parse_utc_timestamp : Text → Option ℕ
unfolding read_moment is_valid_moment seconds_of
parse_utc_timestamp value = checked_seconds (read_moment value)
