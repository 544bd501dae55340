-- ===== src/Hex/Digits.antt =====
-- Each printed digit is read as itself, by the table of bloom.c and by `tohex`.
use frag_find.Common.{
  ℕ, ◌*◌, ◌/◌, ◌%◌, ◌^◌, ◌<◌, ◌≡◌, refl, ◌∙◌, ap, Bool, true, false, done, read-done, length,
  get_or, ltb, ◌==◌, ==_iff, bit_or, arith,
}
use frag_find.Common.Bits.{all_below, all_below_elim}
use frag_find.Hex.{hex_char, tohex, hexcharvals, hex_value}

tohex_table : (upper : Bool) → all_below 16 (λ d. tohex (hex_char upper d) == d) ≡ true
unfolding all_below tohex hex_char
tohex_table true = refl
tohex_table false = refl

pub tohex-hex_char : (upper : Bool) (d : ℕ) → d < 16 → tohex (hex_char upper d) ≡ d
tohex-hex_char upper d h =
    (==_iff (tohex (hex_char upper d)) d).0
      (all_below_elim (λ d. tohex (hex_char upper d) == d) 16 (tohex_table upper) d h)

values_table :
    (upper : Bool) → all_below 16 (λ d. get_or hexcharvals (hex_char upper d) 0 == d) ≡ true
unfolding all_below hexcharvals hex_char
values_table true = refl
values_table false = refl

chars_table : (upper : Bool) → all_below 16 (λ d. ltb (hex_char upper d) 128) ≡ true
unfolding all_below hex_char
chars_table true = refl
chars_table false = refl

length-hexcharvals : length hexcharvals ≡ 256
unfolding hexcharvals
length-hexcharvals = refl

pub hex_value-hex_char : (upper : Bool) (d : ℕ) → d < 16 → hex_value (hex_char upper d) ≡ done d
unfolding hex_value
hex_value-hex_char upper d h =
    let small = all_below_elim (λ d. ltb (hex_char upper d) 128) 16 (chars_table upper) d h in
    let below : hex_char upper d < length hexcharvals = ground (arith, length-hexcharvals) in
    let same = (==_iff (get_or hexcharvals (hex_char upper d) 0) d).0 (
      all_below_elim (λ d. get_or hexcharvals (hex_char upper d) 0 == d) 16 (values_table upper) d
        h) in
    rw small (read-done hexcharvals (hex_char upper d) 0 below ∙ ap (λ (n : ℕ). done n) same)

nibbles_table : all_below 256 (λ b. bit_or (b / 16 * 16) (b % 16) % 2 ^ 8 == b) ≡ true
unfolding all_below
nibbles_table = refl

-- `(high << 4) | low` puts a byte together.
pub nibbles : (b : ℕ) → b < 256 → bit_or (b / 16 * 16) (b % 16) % 2 ^ 8 ≡ b
nibbles b h =
    (==_iff (bit_or (b / 16 * 16) (b % 16) % 2 ^ 8) b).0
      (all_below_elim (λ b. bit_or (b / 16 * 16) (b % 16) % 2 ^ 8 == b) 256 nibbles_table b h)
