-- ===== src/Hex/Bounds.antt =====
-- The buffers of the printing functions are not overrun.
use frag_find.Common.{
  ℕ, ◌+◌, ◌-◌, ◌%◌, ◌<◌, ◌≡◌, refl, false, ◌&&◌, List, [], ◌∷◌, Returns, length, ltb, ◌==◌,
  if◌then◌else◌, Bool-cases, inl, inr, arith,
}
use frag_find.Hex.{hex_byte, has_flag, spaced, nsrl_hexbuf_from, nsrl_hexbuf, hexbuf_from, hexbuf}

nsrl_hexbuf_from-fits :
    (bin : List ℕ) (dst_len flag charcount : ℕ)
    → 0 < dst_len
    → length (nsrl_hexbuf_from dst_len bin flag charcount) < dst_len
unfolding nsrl_hexbuf_from hex_byte
nsrl_hexbuf_from-fits [] dst_len flag charcount pos = pos
nsrl_hexbuf_from-fits (b ∷ bin) dst_len flag charcount pos = elim (Bool-cases (ltb 3 dst_len)) [
  | inr e ↦ rw e pos
  | inl e ↦
      let large : 3 < dst_len = ground arith in
      rw e (elim (Bool-cases (spaced flag (charcount + 1))) [
        | inl s ↦ rw s (
            omega (
              arith,
              nsrl_hexbuf_from-fits bin (dst_len - 2 - 1) flag (charcount + 1) (omega arith),
            ))
        | inr s ↦ rw s (
            omega (
              arith,
              nsrl_hexbuf_from-fits bin (dst_len - 2 - 0) flag (charcount + 1) (omega arith),
            ))
      ])
]

-- With a buffer of at least one character nsrl_hexbuf returns, for any bytes and flags, and its
-- text with the NUL fits the buffer.
pub nsrl_hexbuf-fits :
    (dst_len flag : ℕ) (bin : List ℕ)
    → 0 < dst_len
    → Returns (nsrl_hexbuf dst_len bin flag) λ hex. length hex < dst_len
unfolding nsrl_hexbuf
nsrl_hexbuf-fits dst_len flag bin pos =
    let e : (dst_len == 0) ≡ false = ground arith in
    (nsrl_hexbuf_from dst_len bin flag 0, rw e refl, nsrl_hexbuf_from-fits bin dst_len flag 0 pos)

hexbuf_from-nsrl_hexbuf_from :
    (bin : List ℕ) (dst_len flag charcount : ℕ)
    → has_flag flag 2 ≡ false
    → hexbuf_from dst_len bin flag charcount ≡ nsrl_hexbuf_from dst_len bin flag charcount
unfolding hexbuf_from nsrl_hexbuf_from spaced
hexbuf_from-nsrl_hexbuf_from [] dst_len flag charcount off = refl
hexbuf_from-nsrl_hexbuf_from (b ∷ bin) dst_len flag charcount off =
    let space = has_flag flag 4 && (charcount + 1) % 2 == 0 in
    rw
      (
        off,
        hexbuf_from-nsrl_hexbuf_from bin (dst_len - 2 - (if space then 1 else 0)) flag
            (charcount + 1) off,
      )
      refl

-- Without the flag for a space after each byte, hexbuf of hexbuf.c and nsrl_hexbuf of bloom.c
-- print the same.
pub hexbuf-nsrl_hexbuf :
    (dst_len flag : ℕ) (bin : List ℕ)
    → has_flag flag 2 ≡ false
    → hexbuf dst_len bin flag ≡ nsrl_hexbuf dst_len bin flag
unfolding hexbuf nsrl_hexbuf
hexbuf-nsrl_hexbuf dst_len flag bin off =
    rw (hexbuf_from-nsrl_hexbuf_from bin dst_len flag 0 off) refl
