-- ===== src/Search/Master/Load.antt =====
-- `load`: the md5map of a master file is its list of block digests, and the filter has them all.
use mathlib.Core.List.{append_assoc, append-nil}
use mathlib.Core.Path.{subst}
use frag_find.Common.{
  ℕ, zero, suc, ◌+◌, ◌%◌, ◌^◌, ◌≤◌, ◌<◌, ◌≡◌, refl, sym, ◌∙◌, Bool, true, false, List, [], ◌∷◌,
  ◌++◌, some, done, ◌>>=◌, Returns, length, length-append, get_or, replicate, All, All-append,
  arith, if◌then◌else◌, ltb, Bool-cases, inl, inr, ◌/◌, le→ltb, bind-done,
}
use frag_find.Bloom.Types.{Bloom}
use frag_find.Bloom.Filter.{query}
use frag_find.Bloom.Filter.Laws.{present}
use frag_find.Search.Filter.{
  IsReady, Extends, Extends-refl, Extends-trans, present-Extends, add-Extends, query-Extends,
}
use frag_find.Search.BlockFile.{File, BlockFile, getblock}
use frag_find.Search.BlockFile.Blocks.{
  IsWhole, IsRegular, block, getblock-block, length-block, open_blocks-IsWhole,
}
use frag_find.Hash.Md5.{hash_file-done}
use frag_find.Search.Master.{
  Digest, Md5Map, Master, Program, touch, at_key, push_at, add_block_hash, load_blocks, load,
}
use frag_find.Search.Master.Positions.{
  IsDigest, HasDigests, positions, HasDigests-push_at, HasDigests-touch, at_key-touch,
  at_key-push_at, positions-snoc,
}

-- The digests `ds` are what the map and the filter know of a master file.
pub record Knows (ds : List Digest) (b : Bloom) (map : Md5Map) : Type 0 where
  pub ready : IsReady b
  pub proper : All IsDigest ds
  pub keys : HasDigests map
  pub places : (key : Digest) → IsDigest key → at_key key map ≡ positions 0 ds key
  pub seen : All (λ d. present b d ≡ true) ds

pub seen-Extends :
    {b b' : Bloom} (ds : List Digest)
    → IsReady b
    → Extends b b'
    → All (λ d. present b d ≡ true) ds
    → All (λ d. present b' d ≡ true) ds
seen-Extends [] r e h = tt
seen-Extends (d ∷ ds) r e h = (present-Extends d r e h.0, seen-Extends ds r e h.1)

-- MD5 gives 16 bytes.
abbrev pub GivesDigests : Program → Type 0
GivesDigests p = (buf : List ℕ) → IsDigest (p.hash_buf buf)

-- The digests of `left` blocks from the nth on.
pub digests : Program → BlockFile → ℕ → ℕ → List Digest
digests p file zero n = []
digests p file (suc left) n = p.hash_buf (block file n) ∷ digests p file left (n + 1)

pub length-digests :
    (p : Program) (file : BlockFile) (left n : ℕ) → length (digests p file left n) ≡ left
unfolding digests
length-digests p file zero n = refl
length-digests p file (suc left) n = omega (arith, length-digests p file left (n + 1))

pub get_or-digests :
    (p : Program) (file : BlockFile) (left n j : ℕ)
    → j < left
    → get_or (digests p file left n) j [] ≡ p.hash_buf (block file (n + j))
unfolding digests
get_or-digests p file zero n j h = absurd (omega arith)
get_or-digests p file (suc left) n zero h = let e : n + 0 ≡ n = omega arith in rw e refl
get_or-digests p file (suc left) n (suc j) h =
    let e : n + suc j ≡ n + 1 + j = omega arith in
    rw e (get_or-digests p file left (n + 1) j (omega arith))

-- A master file is loaded: all of its block digests are in the filter and in its md5map, and its file
-- map has an empty entry for each block.
pub record IsLoaded (p : Program) (f : File) (blocksize : ℕ) (b : Bloom) (t : Master) : Type 0 where
  pub whole : IsWhole t.file
  pub same_file : t.file.file ≡ f
  pub same_size : t.file.blocksize ≡ blocksize
  pub knows : Knows (digests p t.file t.file.blocks 0) b t.md5map
  pub empty : t.filemap ≡ replicate t.file.blocks []
  pub hashed : t.md5 ≡ p.hash_buf f.contents

module _ (p : Program) (md5 : GivesDigests p) where
  -- The optional report of `add_block_hash` changes neither the lists nor what the filter has.
  report :
      (d : Digest) (b : Bloom)
      → IsDigest d
      → IsReady b
      → Returns (if p.opt_raw then query p.env b d else done (b, false)) λ c. Extends b c.0
  report d b q r = elim (Bool-cases p.opt_raw) [
    | inl raw ↦ let (c, run, (e, _)) = query-Extends p.env b d r q in (c, rw raw run, e)
    | inr quiet ↦ ((b, false), rw quiet, Extends-refl r)
  ]

  touch_if : Bool → Digest → Md5Map → Md5Map
  touch_if seen d map = if seen then touch d map else map

  at_key-touch_if :
      (seen : Bool) (key d : Digest) (map : Md5Map)
      → at_key key (touch_if seen d map) ≡ at_key key map
  unfolding touch_if
  at_key-touch_if true key d map = at_key-touch key d map
  at_key-touch_if false key d map = refl

  HasDigests-touch_if :
      (seen : Bool) (d : Digest) (map : Md5Map)
      → IsDigest d
      → HasDigests map
      → HasDigests (touch_if seen d map)
  unfolding touch_if
  HasDigests-touch_if true d map q h = HasDigests-touch d map q h
  HasDigests-touch_if false d map q h = h

  Knows-push :
      (ds : List Digest) (d : Digest) (b b' : Bloom) (map : Md5Map) (seen : Bool)
      → IsDigest d
      → Knows ds b map
      → Extends b b'
      → present b' d ≡ true
      → Knows (ds ++ d ∷ []) b' (push_at d (length ds) (touch_if seen d map))
  Knows-push ds d b b' map seen q k e here = record {
    ready = e.ready;
    proper = All-append IsDigest ds (d ∷ []) k.proper (q, tt);
    keys =
        HasDigests-push_at d (length ds) (touch_if seen d map) q
          (HasDigests-touch_if seen d map q k.keys);
    places = λ key kq.
        let z : 0 + length ds ≡ length ds = omega arith in
        at_key-push_at key d (length ds) (touch_if seen d map) kq q
          (HasDigests-touch_if seen d map q k.keys)
        ∙ rw (at_key-touch_if seen key d map, k.places key kq, positions-snoc 0 ds d key, z) refl;
    seen =
        All-append (λ d. present b' d ≡ true) ds (d ∷ []) (seen-Extends ds k.ready e k.seen)
          (here, tt);
  }

  add_block_hash-Knows :
      (n : ℕ) (ds : List Digest) (d : Digest) (b : Bloom) (map : Md5Map)
      → n ≡ length ds
      → IsDigest d
      → n < 2 ^ 32
      → Knows ds b map
      → Returns (add_block_hash p n d b map) λ r. Extends b r.0 × Knows (ds ++ d ∷ []) r.0 r.1
  unfolding add_block_hash touch_if
  add_block_hash-Knows n ds d b map at q small k =
      let ((b', seen), run, e) = report d b q k.ready in
      let (b'', run', (e', here)) = add-Extends p.env b' d e.ready q in
      let z : n % 2 ^ 32 ≡ length ds = omega arith in
      (
        (b'', push_at d (length ds) (touch_if seen d map)),
        rw (run, run', z) refl,
        (Extends-trans e e', Knows-push ds d b b'' map seen q k (Extends-trans e e') here),
      )

  load_blocks-suc :
      (left n : ℕ) (file : BlockFile) (buf buf' : List ℕ) (b : Bloom) (map : Md5Map)
      → getblock file n buf ≡ some buf'
      → load_blocks p (suc left) n file buf b map ≡ (
          add_block_hash p n (p.hash_buf buf') b map >>= λ (b', map').
          load_blocks p left (n + 1) file buf' b' map')
  unfolding load_blocks
  load_blocks-suc left n file buf buf' b map e = rw (e, load_blocks) refl

  load_blocks-Knows :
      (file : BlockFile) (left n : ℕ) (ds : List Digest) (buf : List ℕ) (b : Bloom) (map : Md5Map)
      → IsWhole file
      → n ≡ length ds
      → n + left ≡ file.blocks
      → file.blocks < 2 ^ 32
      → length buf ≡ file.blocksize
      → Knows ds b map
      → Returns
          (load_blocks p left n file buf b map)
          λ r. Extends b r.0 × Knows (ds ++ digests p file left n) r.0 r.1
  unfolding digests
  load_blocks-Knows file zero n ds buf b map w at count small full k =
      ((b, map), unfold load_blocks in refl, (Extends-refl k.ready, rw (append-nil ds) k))
  load_blocks-Knows file (suc left) n ds buf b map w at count small full k =
      let d = p.hash_buf (block file n) in
      let (s, run, (e, k')) =
        add_block_hash-Knows n ds d b map at (md5 (block file n)) (omega arith) k in
      let (r, run', (e', k'')) =
        load_blocks-Knows file left (n + 1) (ds ++ d ∷ []) (block file n) s.0 s.1 w
          (omega (arith, length-append ds (d ∷ []))) (omega arith) small
          (length-block file n w (omega arith)) k' in
      (
        r,
        load_blocks-suc left n file buf (block file n) b map
              (getblock-block file n buf w (omega arith) full)
            ∙ bind-done _ run run',
        (
          Extends-trans e e',
          subst (λ (t : List Digest). Knows t r.0 r.1)
              (append_assoc ds (d ∷ []) (digests p file left (n + 1))) k'',
        ),
      )

  Knows-start : (b : Bloom) → IsReady b → Knows [] b []
  unfolding at_key positions
  Knows-start b r = record { ready = r; proper = tt; keys = tt; places = λ key q. refl; seen = tt }

  -- With 16-byte digests, a block size above 0 and below 2^32, a buffer of that size and a ready
  -- filter, loading a readable master file that opens a second time and can be mapped, is no
  -- larger than the image and has fewer than 2^32 blocks returns; its digest is that of its
  -- contents, the digests of all its blocks are then in the filter, its md5map gives each digest
  -- the list of its positions, and its file map has an empty entry per block.
  pub load-IsLoaded :
      (image : BlockFile) (f : File) (blocksize : ℕ) (b : Bloom)
      → IsRegular f
      → 0 < blocksize
      → blocksize < 2 ^ 32
      → f.st_size ≤ image.filesize
      → f.st_size / blocksize < 2 ^ 32
      → length (p.malloc blocksize) ≡ blocksize
      → p.reopen f ≡ some f
      → p.mmap f f.st_size ≡ some f.contents
      → IsReady b
      → Returns
          (load p image (some f) blocksize b)
          λ r. Extends b r.0 × IsLoaded p f blocksize r.0 r.1
  unfolding load
  load-IsLoaded image f blocksize b reg pos word fits few room again maps r =
      let (file, run, (w, eb, ef, es)) = open_blocks-IsWhole f blocksize reg pos word in
      let small : file.blocks < 2 ^ 32 = rw (w.count, es, eb) few in
      let l : ltb image.filesize file.filesize ≡ false =
        rw es (le→ltb image.filesize f.st_size fits) in
      let ((b', map), run', (e, k)) =
        load_blocks-Knows file file.blocks 0 [] (p.malloc blocksize) b [] w refl (omega arith) small
          (room ∙ sym eb) (Knows-start b r) in
      (
        (
          b',
          record {
            file = file;
            md5 = p.hash_buf f.contents;
            md5map = map;
            filemap = replicate file.blocks [];
          },
        ),
        rw (run, l, ef, again, hash_file-done p.hash_buf f p.mmap reg.stat maps, run') refl,
        (
          e,
          record {
            whole = w;
            same_file = ef;
            same_size = eb;
            knows = k;
            empty = refl;
            hashed = refl;
          },
        ),
      )
