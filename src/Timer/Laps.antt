-- ===== src/Timer/Laps.antt =====
-- The time that the timer counts is that of its laps.
use frag_find.Common.{
  ℕ, ◌+◌, ◌-◌, ◌*◌, ◌%◌, ◌^◌, ◌<◌, ◌≤◌, ◌≡◌, refl, false, List, [], ◌∷◌, All, arith,
}
use frag_find.Xml.Environment.{Timeval}
use frag_find.Xml.Environment.Values.{micros}
use frag_find.Timer.{Aftimer, new_aftimer, start, sub_long, stop, elapsed}

-- The timer is started and stopped at each pair of times.
unfoldable pub run_laps : Aftimer → List (Timeval × Timeval) → Aftimer
run_laps a [] = a
run_laps a ((from, to) ∷ laps) = run_laps (stop (start a from) to) laps

-- The microseconds of the laps.
unfoldable pub lap_micros : List (Timeval × Timeval) → ℕ
lap_micros [] = 0
lap_micros ((from, to) ∷ laps) = micros to - micros from + lap_micros laps

-- Times that a clock gives, the second not before the first.
pub record IsLap (lap : Timeval × Timeval) : Type 0 where
  pub from_sec : lap.0.tv_sec < 2 ^ 63
  pub from_usec : lap.0.tv_usec < 1000000
  pub to_sec : lap.1.tv_sec < 2 ^ 63
  pub to_usec : lap.1.tv_usec < 1000000
  pub later : micros lap.0 ≤ micros lap.1

abbrev pub total_micros : ℕ × ℕ → ℕ
total_micros total = (total.0 * 1000000 + total.1) % 2 ^ 64

lap-adds :
    (sec usec : ℕ) (from to : Timeval)
    → IsLap (from, to)
    → total_micros (
      (sec + sub_long to.tv_sec from.tv_sec) % 2 ^ 64,
      (usec + sub_long to.tv_usec from.tv_usec) % 2 ^ 64,
    )
      ≡ (total_micros (sec, usec) + (micros to - micros from)) % 2 ^ 64
unfolding sub_long
lap-adds sec usec from to h = omega (arith, h.from_sec, h.from_usec, h.to_sec, h.to_usec, h.later)

run_laps-total :
    (laps : List (Timeval × Timeval)) (a : Aftimer)
    → a.running ≡ false
    → All IsLap laps
    → ((run_laps a laps).running ≡ false)
      × (total_micros ((run_laps a laps).total_sec, (run_laps a laps).total_usec)
          ≡ (total_micros (a.total_sec, a.total_usec) + lap_micros laps) % 2 ^ 64)
unfolding run_laps lap_micros stop start
run_laps-total [] a still h = (still, omega arith)
run_laps-total ((from, to) ∷ laps) a still (h, hs) =
    let (rest, total) = run_laps-total laps (stop (start a from) to) refl hs in
    (rest, omega (arith, total, lap-adds a.total_sec a.total_usec from to h))

-- For laps whose times are clock times below 2^63 seconds with the end not before the start, the
-- time elapsed on a timer that is started and stopped at each of them is, in microseconds modulo
-- 2^64, the sum of the laps, and with one more start the sum and the time since that start.
pub elapsed-run_laps :
    (laps : List (Timeval × Timeval)) (from now : Timeval)
    → All IsLap laps
    → IsLap (from, now)
    → let a = run_laps new_aftimer laps in
      (total_micros (elapsed a now) ≡ lap_micros laps % 2 ^ 64)
      × (total_micros (elapsed (start a from) now)
          ≡ (lap_micros laps + (micros now - micros from)) % 2 ^ 64)
unfolding elapsed start
elapsed-run_laps laps from now h last =
    let a = run_laps new_aftimer laps in
    let (still, total) = run_laps-total laps new_aftimer refl h in
    (
      rw still (omega (arith, total)),
      omega (arith, total, lap-adds a.total_sec a.total_usec from now last),
    )
