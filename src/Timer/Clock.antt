-- ===== src/Timer/Clock.antt =====
-- The parts of the text add up to the seconds, and it fits its buffer.
use frag_find.Common.{
  ℕ, zero, suc, ◌+◌, ◌/◌, ◌%◌, ◌*◌, ◌≤◌, ◌<◌, ◌≡◌, [], ◌∷◌, ◌++◌, length, length-append, ltb,
  Bool-cases, inl, inr, arith,
}
use frag_find.Common.Text.{codes, decimal, print_u64}
use frag_find.Timer.{clock, two_digits, hms}

-- The days, hours, minutes and seconds that the timer prints add up to the number of seconds,
-- with hours below 24 and minutes and seconds below 60.
pub clock-total :
    (t : ℕ)
    → ((clock t).days * 86400 + (clock t).h * 3600 + (clock t).m * 60 + (clock t).s ≡ t)
      × ((clock t).h < 24)
      × ((clock t).m < 60)
      × ((clock t).s < 60)
unfolding clock
clock-total t = (omega arith, omega arith, omega arith, omega arith)

decimal-bound : (fuel n : ℕ) → length (decimal fuel n) ≤ fuel
unfolding decimal
decimal-bound zero n = omega arith
decimal-bound (suc fuel) n = elim (Bool-cases (ltb n 10)) [
  | inl e ↦ rw e (omega arith)
  | inr e ↦ rw e (
      omega (
        arith,
        decimal-bound fuel (n / 10),
        length-append (decimal fuel (n / 10)) ((b'0' + n % 10) ∷ []),
      ))
]

print_u64-bound : (n : ℕ) → length (print_u64 n) ≤ 20
unfolding print_u64
print_u64-bound n = decimal-bound 20 n

print_u64-two : (n : ℕ) → n < 100 → length (print_u64 n) ≤ 2
unfolding print_u64 decimal
print_u64-two n h = ground arith

two_digits-bound : (fill n : ℕ) → n < 100 → length (two_digits fill n) ≤ 3
unfolding two_digits
two_digits-bound fill n h = ground (arith, print_u64-two n h)

-- The text of any number of seconds, with its NUL, fits the buffer of 64 characters, so that it
-- is not cut.
pub hms-fits : (t : ℕ) → length (hms t) < 64
unfolding hms
hms-fits t =
    let (total, hours, minutes, seconds) = clock-total t in
    let c = clock t in
    let l₃ = length-append (two_digits b'0' c.m) (b':' ∷ two_digits b'0' c.s) in
    let l₂ =
      length-append (two_digits b' ' c.h)
        (b':' ∷ (two_digits b'0' c.m ++ (b':' ∷ two_digits b'0' c.s))) in
    let time =
      two_digits b' ' c.h ++ (b':' ∷ (two_digits b'0' c.m ++ (b':' ∷ two_digits b'0' c.s))) in
    ground (
      arith,
      l₃,
      l₂,
      two_digits-bound b' ' c.h (omega arith),
      two_digits-bound b'0' c.m (omega arith),
      two_digits-bound b'0' c.s (omega arith),
      length-append (print_u64 c.days) (codes " day, " ++ time),
      length-append (print_u64 c.days) (codes " days " ++ time),
      print_u64-bound c.days,
    )
