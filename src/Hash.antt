-- ===== src/Hash.antt =====
-- `hash__` and `hash_generator__` of src/hash_t.h, for a digest of `size` bytes. OpenSSL is the
-- parameter `evp`, the digest of all the bytes that were fed to a context.
pub mod Digests
pub mod Md5
use frag_find.Common.{
  ℕ, zero, suc, ◌+◌, ◌-◌, ◌*◌, ◌/◌, ◌%◌, ◌^◌, Bool, true, false, not, ◌&&◌, List, [], ◌∷◌, ◌++◌,
  Run, done, exited, fault, assertion, overflow, ◌>>=◌, length, replicate, leb, ltb, ◌==◌,
  if◌then◌else◌, bit_or,
}
use frag_find.Hex.{hex_byte}

-- `hash__::hex2int` of one character; a negative `char` is no digit.
unfoldable pub hex2int : ℕ → ℕ
hex2int ch =
    if leb b'0' ch && leb ch b'9'
    then ch - b'0'
    else (if leb b'a' ch && leb ch b'f'
        then ch - b'a' + 10
        else (if leb b'A' ch && leb ch b'F' then ch - b'A' + 10 else 0))

unfoldable pub hex2int_pair : ℕ → ℕ → ℕ
unfolding hex2int
hex2int_pair ch0 ch1 = bit_or (hex2int ch0 * 16) (hex2int ch1)

unfoldable pub from_pairs : ℕ → List ℕ → List ℕ
unfolding hex2int_pair
from_pairs (suc left) (h ∷ l ∷ rest) = hex2int_pair h l % 2 ^ 8 ∷ from_pairs left rest
from_pairs _ _ = []

-- `hash__::fromhex`, whose text must have two digits for each byte.
unfoldable pub fromhex : ℕ → List ℕ → Run (List ℕ)
unfolding from_pairs
fromhex size hexbuf =
    if length hexbuf == size * 2 then done (from_pairs size hexbuf) else fault assertion

unfoldable pub hexdigest_to : List ℕ → ℕ → List ℕ
hexdigest_to [] bufsize = []
hexdigest_to (d ∷ ds) bufsize =
    let rest = hexdigest_to ds (bufsize - 2) in
    if leb 3 bufsize then hex_byte false d ++ rest else []

unfoldable pub hexdigest : ℕ → List ℕ → List ℕ
unfolding hexdigest_to
hexdigest size digest = hexdigest_to digest (size * 2 + 1)

-- `hash__::hex2bin`, with the bits that were read before.
unfoldable pub hex2bin_from : ℕ → List ℕ → ℕ → Run (List ℕ × ℕ)
hex2bin_from (suc binbuf_size) (h ∷ l ∷ rest) bits = do
  (bin, total) ←
      (if ltb (bits + 8) (2 ^ 31) then hex2bin_from binbuf_size rest (bits + 8) else fault overflow)
  done (hex2int_pair h l % 2 ^ 8 ∷ bin, total)
hex2bin_from binbuf_size hex bits = done ([], bits)

unfoldable pub hex2bin : ℕ → List ℕ → Run (List ℕ × ℕ)
unfolding hex2bin_from
hex2bin binbuf_size hex = hex2bin_from binbuf_size hex 0

-- `hash__::new_from_hex`
unfoldable pub new_from_hex : ℕ → List ℕ → Run (List ℕ)
unfolding hex2bin
new_from_hex size hex = do
  (digest, bits) ← hex2bin size hex
  if bits == size * 8 then done digest else exited 1

-- The fields of a generator, and the bytes that its OpenSSL context has been fed.
pub record Generator : Type 0 where
  pub fed : List ℕ
  pub initialized : Bool
  pub finalized : Bool
  pub hashed_bytes : ℕ

abbrev pub new_generator : Generator
new_generator = record { fed = []; initialized = false; finalized = false; hashed_bytes = 0 }

unfoldable pub release : Generator → Generator
release g = if g.initialized then record g { initialized = false; hashed_bytes = 0 } else g

unfoldable pub init : Generator → Generator
init g =
    if g.initialized
    then g
    else record { fed = []; initialized = true; finalized = false; hashed_bytes = 0 }

-- `hashed_bytes` is an `int64_t`, of which this is the pattern.
unfoldable pub update : Generator → List ℕ → Run Generator
unfolding init
update g buf =
    let g' = init g in
    if g'.finalized
    then exited 1
    else done
        (record g' { fed = g'.fed ++ buf; hashed_bytes = (g'.hashed_bytes + length buf) % 2 ^ 64 })

module _ (evp : List ℕ → List ℕ) where
  unfoldable pub final : Generator → Run (Generator × List ℕ)
  unfolding init
  final g =
      if g.finalized
      then fault assertion
      else (let g' = init g in done (record g' { finalized = true }, evp g'.fed))

  unfoldable pub hash_buf : List ℕ → Run (List ℕ)
  unfolding update final
  hash_buf buf = do g ← update new_generator buf; (g', digest) ← final g; done digest
