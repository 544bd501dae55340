-- ===== src/Hex.antt =====
-- Hexadecimal text: `md5_t` of src/md5.h, `nsrl_hex2bin` and `nsrl_hexbuf` of bloom.c, and src/hexbuf.c.
-- A C string is the list of its characters before the NUL.
pub mod Digits
pub mod Trips
pub mod Bounds
use frag_find.Common.{
  ℕ, zero, suc, ◌+◌, ◌-◌, ◌*◌, ◌/◌, ◌%◌, ◌^◌, Bool, true, false, not, ◌&&◌, ◌||◌, List, [], ◌∷◌,
  ◌++◌, Run, done, fault, out_of_bounds, overflow, ◌>>=◌, read, set, replicate, length, ltb, leb,
  ◌==◌, if◌then◌else◌, bit_and, bit_or,
}

-- A digit as `%x` or `%X` prints it, and a byte as `%02x` or `%02X` does.
unfoldable pub hex_char : Bool → ℕ → ℕ
hex_char upper d = if ltb d 10 then b'0' + d else (if upper then b'A' else b'a') + d - 10

unfoldable pub hex_byte : Bool → ℕ → List ℕ
unfolding hex_char
hex_byte upper b = hex_char upper (b / 16) ∷ hex_char upper (b % 16) ∷ []

-- `md5_t::tohex`
unfoldable pub tohex : ℕ → ℕ
tohex ch =
    if leb b'0' ch && leb ch b'9'
    then ch - b'0'
    else (if leb b'a' ch && leb ch b'f'
        then ch - b'a' + 10
        else (if leb b'A' ch && leb ch b'F' then ch - b'A' + 10 else 0))

-- The loop of `md5_t::fromhex`, with `left` bytes of the digest to go; those it does not reach are 0.
unfoldable pub fromhex_from : ℕ → List ℕ → List ℕ
fromhex_from zero hex = []
fromhex_from (suc left) (h ∷ l ∷ rest) =
    bit_or (tohex h * 16) (tohex l) % 2 ^ 8 ∷ fromhex_from left rest
fromhex_from (suc left) _ = replicate (suc left) 0

unfoldable pub fromhex : List ℕ → List ℕ
fromhex hex = fromhex_from 16 hex

-- The loop of `md5_t::hexdigest` into a buffer.
unfoldable pub hexdigest_to : List ℕ → ℕ → List ℕ
hexdigest_to [] bufsize = []
hexdigest_to (d ∷ ds) bufsize =
    let rest = hexdigest_to ds (bufsize - 2) in
    if leb 3 bufsize then hex_byte false d ++ rest else []

unfoldable pub hexdigest : List ℕ → List ℕ
hexdigest digest = hexdigest_to digest (16 * 2 + 1)

-- The loops of `nsrl_bloom_init` over the table `hexcharvals`.
unfoldable pub set_digits : ℕ → ℕ → List ℕ → List ℕ
set_digits zero i table = table
set_digits (suc left) i table = set_digits left (i + 1) (set table (b'0' + i) i)

unfoldable pub set_letters : ℕ → ℕ → List ℕ → List ℕ
set_letters zero i table = table
set_letters (suc left) i table =
    set_letters left (i + 1) (set (set table (b'A' + i - 10) i) (b'a' + i - 10) i)

unfoldable pub hexcharvals : List ℕ
unfolding set_digits set_letters
hexcharvals = set_letters 6 10 (set_digits 10 0 (replicate 256 0))

-- `hexcharvals[(int)c]`: a `char` from 128 on is negative.
unfoldable pub hex_value : ℕ → Run ℕ
hex_value c = if ltb c 128 then read hexcharvals c else fault out_of_bounds

-- The loop of `nsrl_hex2bin`: the bytes that it stores, and the number of bits.
unfoldable pub nsrl_hex2bin_from : ℕ → List ℕ → ℕ → Run (List ℕ × ℕ)
nsrl_hex2bin_from (suc size) (h ∷ l ∷ rest) bits = do
  high ← hex_value h
  low ← hex_value l
  (bin, total) ←
      (if ltb (bits + 8) (2 ^ 31) then nsrl_hex2bin_from size rest (bits + 8) else fault overflow)
  done (bit_or (high * 16) low % 2 ^ 8 ∷ bin, total)
nsrl_hex2bin_from size hex bits = done ([], bits)

unfoldable pub nsrl_hex2bin : ℕ → List ℕ → Run (List ℕ × ℕ)
unfolding nsrl_hex2bin_from
nsrl_hex2bin binbuf_size hex = nsrl_hex2bin_from binbuf_size hex 0

-- `flag & mask`
unfoldable pub has_flag : ℕ → ℕ → Bool
has_flag flag mask = not (bit_and flag mask == 0)

unfoldable pub spaced : ℕ → ℕ → Bool
spaced flag charcount = has_flag flag 2 || (has_flag flag 4 && charcount % 2 == 0)

-- The loop of `nsrl_hexbuf`.
unfoldable pub nsrl_hexbuf_from : ℕ → List ℕ → ℕ → ℕ → List ℕ
nsrl_hexbuf_from dst_len [] flag charcount = []
nsrl_hexbuf_from dst_len (b ∷ bin) flag charcount =
    let space = spaced flag (charcount + 1) in
    let rest = nsrl_hexbuf_from (dst_len - 2 - (if space then 1 else 0)) bin flag (charcount + 1) in
    if ltb 3 dst_len
    then hex_byte (has_flag flag 1) b ++ (if space then 32 ∷ rest else rest)
    else []

-- The NUL at the start is written first.
unfoldable pub nsrl_hexbuf : ℕ → List ℕ → ℕ → Run (List ℕ)
unfolding nsrl_hexbuf_from
nsrl_hexbuf dst_len bin flag =
    if dst_len == 0 then fault out_of_bounds else done (nsrl_hexbuf_from dst_len bin flag 0)

-- The same for `hexbuf` of hexbuf.c, in which the flag for a space after each byte has no effect.
unfoldable pub hexbuf_from : ℕ → List ℕ → ℕ → ℕ → List ℕ
hexbuf_from dst_len [] flag charcount = []
hexbuf_from dst_len (b ∷ bin) flag charcount =
    let space = has_flag flag 4 && (charcount + 1) % 2 == 0 in
    let rest = hexbuf_from (dst_len - 2 - (if space then 1 else 0)) bin flag (charcount + 1) in
    if ltb 3 dst_len
    then hex_byte (has_flag flag 1) b ++ (if space then 32 ∷ rest else rest)
    else []

unfoldable pub hexbuf : ℕ → List ℕ → ℕ → Run (List ℕ)
unfolding hexbuf_from
hexbuf dst_len bin flag =
    if dst_len == 0 then fault out_of_bounds else done (hexbuf_from dst_len bin flag 0)
