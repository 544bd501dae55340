-- ===== src/Hash/Digests.antt =====
-- A generator hashes what it was fed, once; hexadecimal text of digests of any size.
use mathlib.Core.List.{append_assoc, append-nil}
use frag_find.Common.{
  ℕ, ◌+◌, ◌-◌, ◌*◌, ◌/◌, ◌%◌, ◌^◌, ◌<◌, ◌≡◌, refl, ◌∙◌, ap, true, false, List, [], ◌∷◌, ◌++◌, Run,
  done, exited, fault, assertion, ◌>>=◌, bind-done, length, length-append, leb, ◌==◌, arith,
}
use frag_find.Hex.{hex_byte, hex_char, tohex}
use frag_find.Hex.Digits.{tohex-hex_char, nibbles}
use frag_find.Hex.Trips.{AreBytes}
use frag_find.Hash.{
  hex2int, hex2int_pair, from_pairs, fromhex, hexdigest_to, hexdigest, Generator, new_generator,
  init, update, final,
}

-- `update` for each buffer in turn.
unfoldable pub update_all : Generator → List (List ℕ) → Run Generator
update_all g [] = done g
update_all g (buf ∷ bufs) = update g buf >>= λ g'. update_all g' bufs

unfoldable pub concat : List (List ℕ) → List ℕ
concat [] = []
concat (buf ∷ bufs) = buf ++ concat bufs

update_all-fed :
    (fed : List ℕ) (n : ℕ) (bufs : List (List ℕ))
    → n ≡ length fed % 2 ^ 64
    → update_all
        (record { fed = fed; initialized = true; finalized = false; hashed_bytes = n })
        bufs
      ≡ done (record {
        fed = fed ++ concat bufs;
        initialized = true;
        finalized = false;
        hashed_bytes = length (fed ++ concat bufs) % 2 ^ 64;
      })
unfolding update_all concat update
update_all-fed fed n [] e = simp (append-nil, e)
update_all-fed fed n (buf ∷ bufs) e =
    update_all-fed (fed ++ buf) ((n + length buf) % 2 ^ 64) bufs
      (omega (arith, length-append fed buf))
    ∙ rw (append_assoc fed buf (concat bufs)) refl

-- A generator of hash_t.h that is fed one or more buffers gives the digest of all their bytes in
-- order, and counts those bytes modulo 2^64.
pub final-update_all :
    (evp : List ℕ → List ℕ) (buf : List ℕ) (bufs : List (List ℕ))
    → (update_all new_generator (buf ∷ bufs) >>= λ g. final evp g)
      ≡ done (
        record {
          fed = buf ++ concat bufs;
          initialized = true;
          finalized = true;
          hashed_bytes = length (buf ++ concat bufs) % 2 ^ 64;
        },
        evp (buf ++ concat bufs),
      )
unfolding update_all update final
final-update_all evp buf bufs =
    bind-done _ (update_all-fed buf ((0 + length buf) % 2 ^ 64) bufs (omega arith)) refl

-- A generator of hash_t.h gives its digest once: after it, an update exits with status 1 and
-- another final fails the assertion.
pub final_once :
    (evp : List ℕ → List ℕ) (g g' : Generator) (digest buf : List ℕ)
    → final evp g ≡ done (g', digest)
    → (update g' buf ≡ exited 1) × (final evp g' ≡ fault assertion)
unfolding final update init
final_once evp g g' digest buf h = ground arith

hex2int-tohex : (c : ℕ) → hex2int c ≡ tohex c
unfolding hex2int tohex
hex2int-tohex c = refl

from_pairs-hexdigest_to :
    (ds : List ℕ) (bufsize : ℕ)
    → AreBytes ds
    → 2 * length ds < bufsize
    → (from_pairs (length ds) (hexdigest_to ds bufsize) ≡ ds)
      × (length (hexdigest_to ds bufsize) ≡ length ds * 2)
unfolding from_pairs hexdigest_to hex_byte hex2int_pair
from_pairs-hexdigest_to [] bufsize bytes room = (refl, omega arith)
from_pairs-hexdigest_to (d ∷ ds) bufsize bytes room =
    let e : leb 3 bufsize ≡ true = ground arith in
    let small : d < 256 = bytes.0 in
    let (same, size) = from_pairs-hexdigest_to ds (bufsize - 2) bytes.1 (omega arith) in
    (
      rw
          (
            e,
            hex2int-tohex (hex_char false (d / 16)),
            hex2int-tohex (hex_char false (d % 16)),
            tohex-hex_char false (d / 16) (omega arith),
            tohex-hex_char false (d % 16) (omega arith),
            nibbles d small,
            same,
          )
          refl,
      rw e (omega arith),
    )

-- A digest of the size of the class, of numbers below 256, that hash_t.h prints is what its
-- fromhex reads back, and the assertion on the length of the text holds.
pub fromhex-hexdigest_sized :
    (size : ℕ) (digest : List ℕ)
    → AreBytes digest
    → length digest ≡ size
    → fromhex size (hexdigest size digest) ≡ done digest
unfolding fromhex hexdigest
fromhex-hexdigest_sized size digest bytes e =
    let (same, text) = from_pairs-hexdigest_to digest (size * 2 + 1) bytes (omega arith) in
    let full : (length (hexdigest_to digest (size * 2 + 1)) == size * 2) ≡ true = ground arith in
    rw full (ap (λ (t : List ℕ). done t) (rw e at same))
