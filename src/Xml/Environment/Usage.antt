-- ===== src/Xml/Environment/Usage.antt =====
-- `xml::add_rusage`: the time and memory that the program has used.
use frag_find.Common.{
  ℕ, ◌+◌, ◌-◌, ◌%◌, ◌^◌, [], Option, none, some, Run, done, ◌>>=◌, ltb, if◌then◌else◌,
}
use frag_find.Common.Text.{codes}
use frag_find.Xml.Writer.{Xml, push, pop}
use frag_find.Xml.Environment.{xmlout_i64, Timeval, xmlout_time}

-- `struct rusage`, whose numbers are patterns of a `long`.
pub record Rusage : Type 0 where
  pub ru_utime : Timeval
  pub ru_stime : Timeval
  pub ru_maxrss : ℕ
  pub ru_minflt : ℕ
  pub ru_majflt : ℕ
  pub ru_nswap : ℕ
  pub ru_inblock : ℕ
  pub ru_oublock : ℕ

-- The time from `t0` to a later `t1`.
unfoldable pub clocktime : Timeval → Timeval → Timeval
clocktime t0 t1 =
    let sec = t1.tv_sec - t0.tv_sec in
    if ltb t0.tv_usec t1.tv_usec
    then record { tv_sec = sec; tv_usec = t1.tv_usec - t0.tv_usec }
    else record {
      tv_sec = (sec + 2 ^ 64 - 1) % 2 ^ 64;
      tv_usec = t1.tv_usec + 1000000 - t0.tv_usec;
    }

unfoldable pub add_rusage : Xml → Option Rusage → Timeval → Timeval → Run Xml
add_rusage x none t0 t1 = done x
add_rusage x (some ru) t0 t1 = do
  x ← push x (codes "rusage") []
  x ← xmlout_time x (codes "utime") ru.ru_utime
  x ← xmlout_time x (codes "stime") ru.ru_stime
  x ← xmlout_i64 x (codes "maxrss") ru.ru_maxrss
  x ← xmlout_i64 x (codes "minflt") ru.ru_minflt
  x ← xmlout_i64 x (codes "majflt") ru.ru_majflt
  x ← xmlout_i64 x (codes "nswap") ru.ru_nswap
  x ← xmlout_i64 x (codes "inblock") ru.ru_inblock
  x ← xmlout_i64 x (codes "oublock") ru.ru_oublock
  x ← xmlout_time x (codes "clocktime") (clocktime t0 t1)
  pop x
