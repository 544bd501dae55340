-- ===== src/Hex/Trips.antt =====
-- Bytes that are printed and read again.
use frag_find.Common.{
  ℕ, zero, suc, ◌+◌, ◌-◌, ◌*◌, ◌/◌, ◌%◌, ◌^◌, ◌≤◌, ◌<◌, ◌≡◌, refl, ◌∙◌, ap, Bool, true, false, List,
  [], ◌∷◌, ◌++◌, done, ◌>>=◌, length, ltb, leb, ◌==◌, lt→ltb, All, arith,
}
use frag_find.Hex.{
  hex_byte, fromhex_from, fromhex, hexdigest_to, hexdigest, nsrl_hex2bin_from, nsrl_hex2bin,
  has_flag, spaced, nsrl_hexbuf_from, nsrl_hexbuf,
}
use frag_find.Hex.Digits.{tohex-hex_char, hex_value-hex_char, nibbles}

abbrev pub AreBytes : List ℕ → Type 0
AreBytes bin = All (λ b. b < 256) bin

fromhex_from-hexdigest_to :
    (ds : List ℕ) (bufsize : ℕ)
    → AreBytes ds
    → 2 * length ds < bufsize
    → fromhex_from (length ds) (hexdigest_to ds bufsize) ≡ ds
unfolding fromhex_from hexdigest_to hex_byte
fromhex_from-hexdigest_to [] bufsize bytes room = refl
fromhex_from-hexdigest_to (d ∷ ds) bufsize bytes room =
    let e : leb 3 bufsize ≡ true = ground arith in
    let small : d < 256 = bytes.0 in
    rw
      (
        e,
        tohex-hex_char false (d / 16) (omega arith),
        tohex-hex_char false (d % 16) (omega arith),
        nibbles d small,
        fromhex_from-hexdigest_to ds (bufsize - 2) bytes.1 (omega arith),
      )
      refl

-- A digest of 16 numbers below 256 that is printed by hexdigest is what fromhex reads back.
pub fromhex-hexdigest :
    (digest : List ℕ) → AreBytes digest → length digest ≡ 16 → fromhex (hexdigest digest) ≡ digest
unfolding fromhex hexdigest
fromhex-hexdigest digest bytes size =
    let r = fromhex_from-hexdigest_to digest 33 bytes (omega arith) in rw size at r

nsrl_hex2bin_from-byte :
    (size b bits total : ℕ) (upper : Bool) (rest bin : List ℕ)
    → b < 256
    → bits + 8 < 2 ^ 31
    → nsrl_hex2bin_from size rest (bits + 8) ≡ done (bin, total)
    → nsrl_hex2bin_from (suc size) (hex_byte upper b ++ rest) bits ≡ done (b ∷ bin, total)
unfolding hex_byte
nsrl_hex2bin_from-byte size b bits total upper rest bin small few h =
    unfold nsrl_hex2bin_from in
    rw
      (
        hex_value-hex_char upper (b / 16) (omega arith),
        hex_value-hex_char upper (b % 16) (omega arith),
        lt→ltb (bits + 8) (2 ^ 31) few,
        h,
        nibbles b small,
      )
      refl

nsrl_hex2bin_from-end : (size bits : ℕ) → nsrl_hex2bin_from size [] bits ≡ done ([], bits + 0)
unfolding nsrl_hex2bin_from
nsrl_hex2bin_from-end zero bits = let e : bits + 0 ≡ bits = omega arith in rw e refl
nsrl_hex2bin_from-end (suc size) bits = let e : bits + 0 ≡ bits = omega arith in rw e refl

nsrl_hex2bin_from-nsrl_hexbuf_from :
    (bin : List ℕ) (size dst_len flag charcount bits : ℕ)
    → has_flag flag 2 ≡ false
    → has_flag flag 4 ≡ false
    → AreBytes bin
    → length bin ≤ size
    → 2 * length bin + 1 < dst_len
    → bits + 8 * length bin < 2 ^ 31
    → nsrl_hex2bin_from size (nsrl_hexbuf_from dst_len bin flag charcount) bits
      ≡ done (bin, bits + 8 * length bin)
unfolding nsrl_hexbuf_from spaced
nsrl_hex2bin_from-nsrl_hexbuf_from [] size dst_len flag charcount bits p q bytes fits room few =
    nsrl_hex2bin_from-end size bits
nsrl_hex2bin_from-nsrl_hexbuf_from (b ∷ bin) zero dst_len flag charcount bits p q bytes fits room
      few =
    absurd (omega arith)
nsrl_hex2bin_from-nsrl_hexbuf_from (b ∷ bin) (suc size) dst_len flag charcount bits p q bytes fits
      room few =
    let e : ltb 3 dst_len ≡ true = ground arith in
    let total : bits + 8 + 8 * length bin ≡ bits + 8 * suc (length bin) = omega arith in
    let rest =
      nsrl_hex2bin_from-nsrl_hexbuf_from bin size (dst_len - 2 - 0) flag (charcount + 1) (bits + 8)
        p q bytes.1 (omega arith) (omega arith) (omega arith) in
    rw (p, q, e)
      (nsrl_hex2bin_from-byte size b bits (bits + 8 * suc (length bin)) (has_flag flag 1) _ bin
        bytes.0 (omega arith) (rest ∙ ap (λ (n : ℕ). done (bin, n)) total))

-- Bytes that nsrl_hexbuf prints without spaces, in either case, into a buffer of more than twice
-- their number and one characters, are what nsrl_hex2bin reads back from the text, with the
-- number of their bits, if its buffer has room and the bits fit an int.
pub nsrl_hex2bin-nsrl_hexbuf :
    (bin : List ℕ) (binbuf_size dst_len flag : ℕ)
    → has_flag flag 2 ≡ false
    → has_flag flag 4 ≡ false
    → AreBytes bin
    → length bin ≤ binbuf_size
    → 2 * length bin + 1 < dst_len
    → 8 * length bin < 2 ^ 31
    → (nsrl_hexbuf dst_len bin flag >>= λ hex. nsrl_hex2bin binbuf_size hex)
      ≡ done (bin, 8 * length bin)
unfolding nsrl_hexbuf nsrl_hex2bin
nsrl_hex2bin-nsrl_hexbuf bin binbuf_size dst_len flag p q bytes fits room few =
    let e : (dst_len == 0) ≡ false = ground arith in
    let z : 0 + 8 * length bin ≡ 8 * length bin = omega arith in
    rw e (
      nsrl_hex2bin_from-nsrl_hexbuf_from bin binbuf_size dst_len flag 0 0 p q bytes fits room
        (omega (arith, few))
      ∙ ap (λ (n : ℕ). done (bin, n)) z)
