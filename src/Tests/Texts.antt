-- ===== src/Tests/Texts.antt =====
-- Examples for hexadecimal text and the text of a time.
use frag_find.Common.{ℕ, ◌<◌, ◌≡◌, refl, false, List, [], ◌∷◌, done, ◌>>=◌, Returns, length, arith}
use frag_find.Common.Text.{codes, print_u64}
use frag_find.Timer.{hms}
use frag_find.Hex.{nsrl_hexbuf, nsrl_hex2bin, hexbuf, has_flag, hex_byte, spaced}
use frag_find.Hex.Trips.{AreBytes, nsrl_hex2bin-nsrl_hexbuf}
use frag_find.Hex.Bounds.{nsrl_hexbuf-fits, hexbuf-nsrl_hexbuf}

abbrev three_bytes : List ℕ
three_bytes = 1 ∷ 171 ∷ 255 ∷ []

-- "01AB FF" with a space after each second byte.
nsrl_hexbuf-spaced : nsrl_hexbuf 20 three_bytes 5 ≡ done (48 ∷ 49 ∷ 65 ∷ 66 ∷ 32 ∷ 70 ∷ 70 ∷ [])
unfolding nsrl_hexbuf has_flag hex_byte spaced
nsrl_hexbuf-spaced = refl

-- With no more than the room for the text and its NUL the last byte is not printed.
nsrl_hexbuf-short : nsrl_hexbuf 7 three_bytes 0 ≡ done (48 ∷ 49 ∷ 97 ∷ 98 ∷ [])
unfolding nsrl_hexbuf has_flag hex_byte spaced
nsrl_hexbuf-short = refl

no_spaces : (has_flag 1 2 ≡ false) × (has_flag 1 4 ≡ false)
unfolding has_flag
no_spaces = (refl, refl)

three_bytes-AreBytes : AreBytes three_bytes
three_bytes-AreBytes = (omega arith, (omega arith, (omega arith, tt)))

nsrl_hex2bin-nsrl_hexbuf_example :
    (nsrl_hexbuf 8 three_bytes 1 >>= λ hex. nsrl_hex2bin 3 hex) ≡ done (three_bytes, 24)
nsrl_hex2bin-nsrl_hexbuf_example =
    nsrl_hex2bin-nsrl_hexbuf three_bytes 3 8 1 no_spaces.0 no_spaces.1 three_bytes-AreBytes
      (omega arith) (omega arith) (omega arith)

nsrl_hexbuf-fits_example : Returns (nsrl_hexbuf 6 three_bytes 2) λ hex. length hex < 6
nsrl_hexbuf-fits_example = nsrl_hexbuf-fits 6 2 three_bytes (omega arith)

hexbuf-nsrl_hexbuf_example : hexbuf 20 three_bytes 1 ≡ nsrl_hexbuf 20 three_bytes 1
hexbuf-nsrl_hexbuf_example = hexbuf-nsrl_hexbuf 20 1 three_bytes no_spaces.0

-- "1 day,  1:01:05"
hms-day : hms 90065 ≡ codes "1 day,  1:01:05"
unfolding hms print_u64
hms-day = refl
