-- ===== src/Bloom/Class.antt =====
-- `class NSRLBloom` of src/bloom.h: what its functions on C++ strings add to those of bloom.c. A
-- `std::string` that is passed as a C string ends at its first NUL; the strings here have none.
use frag_find.Common.{
  ℕ, ◌+◌, ◌*◌, ◌<◌, ◌≤◌, ◌≡◌, refl, ◌∙◌, sym, Bool, false, arith, bind_assoc, bind-done, List, ◌++◌,
  Option, Run, ◌>>=◌, length, drop,
}
use frag_find.Hex.{nsrl_hex2bin, nsrl_hexbuf, has_flag}
use frag_find.Hex.Trips.{AreBytes, nsrl_hex2bin-nsrl_hexbuf}
use frag_find.Bloom.Types.{Bloom, Env, blank}
use frag_find.Bloom.Filter.{add, query}
use frag_find.Bloom.Create.{create, clear}

module _ (env : Env) where
  -- `create(fname,hash_size,M,k,comment)` of a new object.
  unfoldable pub create_named : Option (List ℕ) → ℕ → ℕ → ℕ → List ℕ → Run (Bloom × Bool)
  create_named fname hash_size m k comment = create env blank fname hash_size m k comment

  -- With the memory of `buf`, of 256 bytes.
  unfoldable pub add_hex : List ℕ → Bloom → List ℕ → Run Bloom
  add_hex buf b str = do
    (bin, bits) ← nsrl_hex2bin (length buf) str
    add env b (bin ++ drop (length bin) buf)

  -- The filter is changed through the `const`.
  unfoldable pub query_const : Bloom → List ℕ → Run (Bloom × Bool)
  query_const b hash = query env b hash

-- `calchits`
unfoldable pub calchits : Bloom → ℕ
calchits b = b.hits

-- The destructor.
unfoldable pub destroy : Bloom → Bloom
destroy b = clear b

-- On a buffer of 256 bytes, adding by addHex the text that nsrl_hexbuf prints without spaces, in
-- either case, of a hash of at most 256 bytes, with room for the text, is adding that hash
-- followed by the rest of the buffer.
pub add_hex-nsrl_hexbuf :
    (env : Env) (b : Bloom) (buf hash : List ℕ) (dst_len flag : ℕ)
    → has_flag flag 2 ≡ false
    → has_flag flag 4 ≡ false
    → AreBytes hash
    → length hash ≤ length buf
    → 2 * length hash + 1 < dst_len
    → length buf ≡ 256
    → (nsrl_hexbuf dst_len hash flag >>= λ hex. add_hex env buf b hex)
      ≡ add env b (hash ++ drop (length hash) buf)
unfolding add_hex
add_hex-nsrl_hexbuf env b buf hash dst_len flag p q bytes fits room size =
    sym (
      bind_assoc (nsrl_hexbuf dst_len hash flag) (nsrl_hex2bin (length buf))
        λ r. add env b (r.0 ++ drop (length r.0) buf))
    ∙ bind-done _
        (nsrl_hex2bin-nsrl_hexbuf hash (length buf) dst_len flag p q bytes fits room
          (omega (arith, size)))
        refl
