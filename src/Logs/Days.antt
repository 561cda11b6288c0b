-- ===== src/Logs/Days.antt =====
-- gateway/src/main.rs: which log files are removed, by the calendar.
use ilink_gateway.Prelude.{
  ℕ, ◌+◌, ◌/◌, ◌%◌, ◌<◌, ◌≡◌, refl, Bool, false, not, ◌&&◌, ◌||◌, Option, none, some, List, [], ◌∷◌,
  ◌++◌, map, arith, ltb, nat_eq, keep,
}
use ilink_gateway.Text.{Text}
use ilink_gateway.Logs.{text_lt, DirEntry, is_log, is_old, is_removed, sweep_logs}

pub record Day : Type 0 where
  pub year : ℕ
  pub month : ℕ
  pub day : ℕ

-- Two and four decimal digits.
abbrev pub two_digits : ℕ → Text
two_digits n = (b'0' + n / 10) ∷ (b'0' + n % 10) ∷ []

-- The text of a day in the format %Y-%m-%d, for a year of four digits.
unfoldable pub day_text : Day → Text
day_text d =
    two_digits (d.year / 100)
    ++ (two_digits (d.year % 100) ++ (b'-' ∷ (two_digits d.month ++ (b'-' ∷ two_digits d.day))))

abbrev pub IsDay : Day → Type 0
IsDay d = (d.year < 10000) × (d.month < 100) × (d.day < 100)

-- The order of the calendar.
abbrev pub before : Day → Day → Bool
before a b =
    ltb a.year b.year
    || (nat_eq a.year b.year
        && (ltb a.month b.month || (nat_eq a.month b.month && ltb a.day b.day)))

text_lt-two_digits :
    (n m : ℕ) (s t : Text)
    → n < 100
    → m < 100
    → text_lt (two_digits n ++ s) (two_digits m ++ t) ≡ (ltb n m || (nat_eq n m && text_lt s t))
unfolding text_lt
text_lt-two_digits n m s t h k = ground arith

text_lt-same : (c : ℕ) (s t : Text) → text_lt (c ∷ s) (c ∷ t) ≡ text_lt s t
unfolding text_lt
text_lt-same c s t = ground arith

text_lt-last : (n m : ℕ) → n < 100 → m < 100 → text_lt (two_digits n) (two_digits m) ≡ ltb n m
unfolding text_lt
text_lt-last n m h k = ground arith

text_lt-day_text : (a b : Day) → IsDay a → IsDay b → text_lt (day_text a) (day_text b) ≡ before a b
unfolding day_text
text_lt-day_text a b h k = ground (
  arith,
  text_lt-two_digits (a.year / 100) (b.year / 100)
      (two_digits (a.year % 100) ++ (b'-' ∷ (two_digits a.month ++ (b'-' ∷ two_digits a.day))))
      (two_digits (b.year % 100) ++ (b'-' ∷ (two_digits b.month ++ (b'-' ∷ two_digits b.day)))),
  text_lt-two_digits (a.year % 100) (b.year % 100)
      (b'-' ∷ (two_digits a.month ++ (b'-' ∷ two_digits a.day)))
      (b'-' ∷ (two_digits b.month ++ (b'-' ∷ two_digits b.day))),
  text_lt-same b'-' (two_digits a.month ++ (b'-' ∷ two_digits a.day))
      (two_digits b.month ++ (b'-' ∷ two_digits b.day)),
  text_lt-two_digits a.month b.month (b'-' ∷ two_digits a.day) (b'-' ∷ two_digits b.day),
  text_lt-same b'-' (two_digits a.day) (two_digits b.day),
  text_lt-last a.day b.day,
)

-- A file by the calendar: its day is none where it is not known, or where there is no metadata.
pub record LogFile : Type 0 where
  pub path : Text
  pub extension : Option Text
  pub is_file : Bool
  pub day : Option Day

abbrev pub day_string : Option Day → Option Text
day_string none = none
day_string (some d) = some (day_text d)

-- The file as the directory shows it.
abbrev pub entry_of : LogFile → Option DirEntry
entry_of f = some (record {
  path = f.path;
  extension = f.extension;
  metadata = some (record { is_file = f.is_file; file_day = day_string f.day });
})

abbrev pub HasDay : Option Day → Type 0
HasDay none = Unit
HasDay (some d) = IsDay d

abbrev pub AllDated : List LogFile → Type 0
AllDated [] = Unit
AllDated (f ∷ files) = HasDay f.day × AllDated files

abbrev pub day_before : Day → Option Day → Bool
day_before today none = false
day_before today (some d) = before d today

-- A log file of an earlier day.
abbrev pub is_outdated : Day → LogFile → Bool
is_outdated today f = is_log f.extension && (f.is_file && day_before today f.day)

is_old-day_string :
    (today : Day) (d : Option Day)
    → IsDay today
    → HasDay d
    → is_old (day_text today) (day_string d) ≡ day_before today d
is_old-day_string today none h k = refl
is_old-day_string today (some d) h k = text_lt-day_text d today k h

is_removed-entry_of :
    (today : Day) (f : LogFile)
    → IsDay today
    → HasDay f.day
    → is_removed (day_text today) (entry_of f) ≡ is_outdated today f
unfolding is_removed
is_removed-entry_of today f h k = ground (arith, is_old-day_string today f.day h k)

-- The cleanup compares days as strings. For days with years of at most four digits that is the same
-- as to compare them by the calendar: exactly the regular log files of an earlier day go, apart from
-- those that cannot be removed, and the order of the others is kept.
pub sweep_logs-keep :
    (fails : Text → Bool) (today : Day) (files : List LogFile)
    → IsDay today
    → AllDated files
    → sweep_logs fails (day_text today) (map entry_of files)
      ≡ map entry_of (keep (λ (f : LogFile). not (is_outdated today f) || fails f.path) files)
unfolding sweep_logs
sweep_logs-keep fails today [] h k = refl
sweep_logs-keep fails today (f ∷ files) h k =
    ground (arith, is_removed-entry_of today f h k.0, sweep_logs-keep fails today files h k.1)
