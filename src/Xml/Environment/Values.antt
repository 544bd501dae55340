-- ===== src/Xml/Environment/Values.antt =====
-- The numbers that the environment shows.
use frag_find.Common.{ℕ, ◌+◌, ◌*◌, ◌^◌, ◌<◌, ◌≡◌, arith}
use frag_find.Xml.Environment.{Timeval}
use frag_find.Xml.Environment.Usage.{clocktime}

-- Microseconds since the start of time.
abbrev pub micros : Timeval → ℕ
micros t = t.tv_sec * 1000000 + t.tv_usec

-- For microseconds below a million, seconds below 2^63 and a second time after the first, the
-- clock time that add_rusage prints is, in microseconds, the difference of the two.
pub clocktime-micros :
    (t0 t1 : Timeval)
    → t1.tv_sec < 2 ^ 63
    → t0.tv_usec < 1000000
    → t1.tv_usec < 1000000
    → micros t0 < micros t1
    → micros (clocktime t0 t1) + micros t0 ≡ micros t1
unfolding clocktime
clocktime-micros t0 t1 word u0 u1 later = ground arith
