-- ===== src/Timer.antt =====
-- `aftimer` of src/aftimer.h. The times are what `timestamp` reads from the clock, and arithmetic on
-- `double` is left out. `hms` makes the text of a number of seconds, which is not negative; the number of
-- days is taken to fit an `int`.
pub mod Clock
pub mod Laps
use frag_find.Common.{
  ℕ, ◌+◌, ◌-◌, ◌/◌, ◌%◌, ◌*◌, ◌^◌, Bool, true, false, List, [], ◌∷◌, ◌++◌, ltb, ◌==◌, if◌then◌else◌,
}
use frag_find.Common.Text.{codes, print_u64}
use frag_find.Xml.Environment.{Timeval}

-- `days`, `h`, `m` and `s`
pub record ClockTime : Type 0 where
  pub days : ℕ
  pub h : ℕ
  pub m : ℕ
  pub s : ℕ

unfoldable pub clock : ℕ → ClockTime
clock t =
    let left = t % 86400 in
    record { days = t / 86400; h = left / 3600; m = left / 60 % 60; s = left % 60 }

-- `%2d` and `%02d`, with the character that fills.
unfoldable pub two_digits : ℕ → ℕ → List ℕ
two_digits fill n = if ltb n 10 then fill ∷ print_u64 n else print_u64 n

unfoldable pub hms : ℕ → List ℕ
unfolding clock two_digits
hms t =
    let c = clock t in
    let time =
      two_digits b' ' c.h ++ (b':' ∷ (two_digits b'0' c.m ++ (b':' ∷ two_digits b'0' c.s))) in
    if c.days == 0
    then time
    else (if c.days == 1
        then print_u64 c.days ++ (codes " day, " ++ time)
        else print_u64 c.days ++ (codes " days " ++ time))

-- The totals are patterns of a `long`; the seconds and microseconds of `lap_time_` are those that the C
-- function makes one `double` of.
pub record Aftimer : Type 0 where
  pub t0 : Timeval
  pub running : Bool
  pub total_sec : ℕ
  pub total_usec : ℕ
  pub lap_sec : ℕ
  pub lap_usec : ℕ

abbrev pub new_aftimer : Aftimer
new_aftimer = record {
  t0 = record { tv_sec = 0; tv_usec = 0 };
  running = false;
  total_sec = 0;
  total_usec = 0;
  lap_sec = 0;
  lap_usec = 0;
}

unfoldable pub start : Aftimer → Timeval → Aftimer
start a t = record a { t0 = t; running = true }

-- The difference of two patterns.
unfoldable pub sub_long : ℕ → ℕ → ℕ
sub_long a b = (a + 2 ^ 64 - b) % 2 ^ 64

unfoldable pub stop : Aftimer → Timeval → Aftimer
unfolding sub_long
stop a t =
    if a.running
    then record a {
      total_sec = (a.total_sec + sub_long t.tv_sec a.t0.tv_sec) % 2 ^ 64;
      total_usec = (a.total_usec + sub_long t.tv_usec a.t0.tv_usec) % 2 ^ 64;
      lap_sec = sub_long t.tv_sec a.t0.tv_sec;
      lap_usec = sub_long t.tv_usec a.t0.tv_usec;
      running = false;
    }
    else a

-- The seconds and the microseconds, as patterns, of which the C function makes one `double`.
unfoldable pub elapsed : Aftimer → Timeval → ℕ × ℕ
unfolding sub_long
elapsed a t =
    if a.running
    then (
      (a.total_sec + sub_long t.tv_sec a.t0.tv_sec) % 2 ^ 64,
      (a.total_usec + sub_long t.tv_usec a.t0.tv_usec) % 2 ^ 64,
    )
    else (a.total_sec, a.total_usec)
