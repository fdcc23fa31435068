-- ===== src/Pdf/Dates.antt =====
-- `formatDate` of server/src/processing/pdf/report-html.ts, over milliseconds since 1970 (UTC).
use Prim.Native.Nat.{ℕ, zero, suc, ◌+◌, ◌-◌, ◌*◌, ◌/◌, ◌%◌}
use field_note.Common.{◌≡◌, refl, List, [], ◌∷◌, ◌++◌, Text, codes, ltb, show_nat, if◌then◌else◌}

record CivilDate : Type 0 where
  year : ℕ
  month : ℕ
  day : ℕ

-- getUTCFullYear, getUTCMonth (from 0) and getUTCDate of the proleptic Gregorian calendar: years
-- begin in March, in eras of 400 years.
civil_of_days : ℕ → CivilDate
civil_of_days days =
    let z = days + 719468 in
    let doe = z % 146097 in
    let yoe = (doe + doe / 36524 - doe / 1460 - doe / 146096) / 365 in
    let doy = doe - (365 * yoe + yoe / 4 - yoe / 100) in
    let mp = (5 * doy + 2) / 153 in
    let y = yoe + z / 146097 * 400 in
    record {
      year = if ltb mp 10 then y else y + 1;
      month = if ltb mp 10 then mp + 2 else mp - 10;
      day = doy - (153 * mp + 2) / 5 + 1;
    }

month_name : ℕ → List Text → Text
month_name n [] = codes "undefined"
month_name zero (m ∷ ms) = m
month_name (suc n) (m ∷ ms) = month_name n ms

abbrev months : List Text
months =
    codes "January"
    ∷ codes "February"
    ∷ codes "March"
    ∷ codes "April"
    ∷ codes "May"
    ∷ codes "June"
    ∷ codes "July"
    ∷ codes "August"
    ∷ codes "September"
    ∷ codes "October"
    ∷ codes "November"
    ∷ codes "December"
    ∷ []

-- String(n).padStart(2, '0')
two_digits : ℕ → Text
unfolding show_nat
two_digits n = if ltb n 10 then codes "0" ++ show_nat n else show_nat n

unfoldable pub format_date : ℕ → Text
unfolding civil_of_days month_name two_digits show_nat
format_date ms =
    let date = civil_of_days (ms / 86400000) in
    let minutes = ms / 60000 in
    month_name date.month months
    ++ (codes " "
        ++ (show_nat date.day
            ++ (codes ", "
                ++ (show_nat date.year
                    ++ (codes " at "
                        ++ (two_digits (minutes / 60 % 24)
                            ++ (codes ":" ++ (two_digits (minutes % 60) ++ codes " UTC"))))))))

format_date_example : format_date 1780581900000 ≡ codes "June 4, 2026 at 14:05 UTC"
unfolding format_date
format_date_example = refl

format_date_epoch : format_date 951782399999 ≡ codes "February 28, 2000 at 23:59 UTC"
unfolding format_date
format_date_epoch = refl
