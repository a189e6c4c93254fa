-- ===== src/Client/Main/Stamp.antt =====
-- The log directories of InfoDumping/main.cpp: their names, and that two seconds share none.
use project.Prelude.{
  ℕ, ◌<◌, ◌≡◌, ◌≢◌, List, [], ◌∷◌, ◌++◌, append_cancel_left, codes, some, All, arith,
}
use project.Client.Files.{base_name}
use project.Client.Files.Shows.{base_name-append}
use project.Client.Main.{Time, two, four, get_current_timestamp, log_dir}

-- Numbers with as many digits as the timestamp has for them.
pub record IsTime (t : Time) : Type 0 where
  pub year_fits : t.year < 10000
  pub month_fits : t.month < 100
  pub day_fits : t.day < 100
  pub hour_fits : t.hour < 100
  pub minute_fits : t.minute < 100
  pub second_fits : t.second < 100

cons_eq : (a b : ℕ) (as' bs : List ℕ) → a ∷ as' ≡ b ∷ bs → (a ≡ b) × (as' ≡ bs)
cons_eq a b as' bs e = (cc, cc)

two_eq : (a b : ℕ) (r s : List ℕ) → a < 100 → b < 100 → two a r ≡ two b s → (a ≡ b) × (r ≡ s)
two_eq a b r s la lb e =
    let (h, more) = cons_eq _ _ _ _ e in let (l, rest) = cons_eq _ _ _ _ more in (omega arith, rest)

four_eq : (a b : ℕ) (r s : List ℕ) → a < 10000 → b < 10000 → four a r ≡ four b s → (a ≡ b) × (r ≡ s)
four_eq a b r s la lb e =
    let (k, e1) = cons_eq _ _ _ _ e in
    let (h, e2) = cons_eq _ _ _ _ e1 in
    let (t, e3) = cons_eq _ _ _ _ e2 in let (o, rest) = cons_eq _ _ _ _ e3 in (omega arith, rest)

Time_eq :
    (a b : Time)
    → a.year ≡ b.year
    → a.month ≡ b.month
    → a.day ≡ b.day
    → a.hour ≡ b.hour
    → a.minute ≡ b.minute
    → a.second ≡ b.second
    → a ≡ b
Time_eq a b y mo d h mi s i = record {
  year = y i;
  month = mo i;
  day = d i;
  hour = h i;
  minute = mi i;
  second = s i;
}

get_current_timestamp-injective :
    (a b : Time) → IsTime a → IsTime b → get_current_timestamp a ≡ get_current_timestamp b → a ≡ b
unfolding get_current_timestamp
get_current_timestamp-injective a b v w e =
    let (_, e0) = cons_eq _ _ _ _ e in
    let (year, e1) = four_eq a.year b.year _ _ v.year_fits w.year_fits e0 in
    let (month, e2) = two_eq a.month b.month _ _ v.month_fits w.month_fits e1 in
    let (day, e3) = two_eq a.day b.day _ _ v.day_fits w.day_fits e2 in
    let (_, e4) = cons_eq _ _ _ _ e3 in
    let (hour, e5) = two_eq a.hour b.hour _ _ v.hour_fits w.hour_fits e4 in
    let (minute, e6) = two_eq a.minute b.minute _ _ v.minute_fits w.minute_fits e5 in
    let (second, e7) = two_eq a.second b.second _ _ v.second_fits w.second_fits e6 in
    Time_eq a b year month day hour minute second

log_dir-injective :
    (new_dir : List ℕ) (a b : Time)
    → IsTime a
    → IsTime b
    → log_dir new_dir a ≡ log_dir new_dir b
    → a ≡ b
unfolding log_dir
log_dir-injective new_dir a b v w e = get_current_timestamp-injective a b v w (
    append_cancel_left (codes "\\log") (get_current_timestamp a) (get_current_timestamp b) (
      append_cancel_left new_dir (codes "\\log" ++ get_current_timestamp a)
        (codes "\\log" ++ get_current_timestamp b) e))

-- Two different times, with a year of four digits at most and the other parts of two at most: the log
-- directories that the program names after them, in the same directory, are different.
log_dir_differs :
    (new_dir : List ℕ) (a b : Time)
    → IsTime a
    → IsTime b
    → a ≢ b
    → log_dir new_dir a ≢ log_dir new_dir b
log_dir_differs new_dir a b v w differs e = differs (log_dir-injective new_dir a b v w e)

-- The name under which a log directory is sent to the server.
abbrev pub log_name : Time → List ℕ
log_name t = codes "log" ++ get_current_timestamp t

two_plain : (n : ℕ) (rest : List ℕ) → All (λ c. c ≢ 92) rest → All (λ c. c ≢ 92) (two n rest)
two_plain n rest h = ((λ e. omega arith), ((λ e. omega arith), h))

log_name_plain : (t : Time) → All (λ c. c ≢ 92) (log_name t)
unfolding get_current_timestamp
log_name_plain t =
    let seconds : List ℕ = two t.second [] in
    let clock : List ℕ = two t.hour (two t.minute seconds) in
    let behind : All (λ c. c ≢ 92) clock =
      two_plain t.hour (two t.minute seconds)
        (two_plain t.minute seconds (two_plain t.second [] tt)) in
    let date : List ℕ = two t.month (two t.day (95 ∷ clock)) in
    let plain_date : All (λ c. c ≢ 92) date =
      two_plain t.month (two t.day (95 ∷ clock))
        (two_plain t.day (95 ∷ clock) ((λ e. omega arith), behind)) in
    let year : All (λ c. c ≢ 92) (four t.year date) =
      ((λ e. omega arith), ((λ e. omega arith), two_plain t.year date plain_date)) in
    ((λ e. omega arith), ((λ e. omega arith), ((λ e. omega arith), ((λ e. omega arith), year))))

pub base_name-log_dir :
    (new_dir : List ℕ) (t : Time) → base_name (log_dir new_dir t) ≡ some (log_name t)
unfolding log_dir
base_name-log_dir new_dir t = base_name-append new_dir (log_name t) (log_name_plain t)
