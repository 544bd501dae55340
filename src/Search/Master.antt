-- ===== src/Search/Master.antt =====
-- `md5map_t`, `masterfile` and the masters of frag_find.cpp. What is printed is left out.
pub mod Positions
pub mod Load
use frag_find.Common.{
  ℕ, zero, suc, ◌+◌, ◌%◌, ◌^◌, Bool, true, false, List, [], ◌∷◌, ◌++◌, Option, none, some, Run,
  done, exited, fault, uncaught_exception, ◌>>=◌, read, set, replicate, ltb, if◌then◌else◌,
}
use frag_find.Bloom.Types.{Bloom, Env}
use frag_find.Bloom.Filter.{add, query}
use frag_find.Search.FileMap.{BlockList, FileMap}
use frag_find.Search.Digest.{equivalent}
use frag_find.Hash.Md5.{hash_file}
use frag_find.Search.BlockFile.{File, BlockFile, open_blocks, getblock}

abbrev pub Digest : Type 0
Digest = List ℕ

-- `map<md5_t,blocklist_t>`
abbrev pub Md5Map : Type 0
Md5Map = List (Digest × BlockList)

-- `md5map[key]`: a missing key is inserted with an empty list, and the list is returned.
unfoldable pub touch : Digest → Md5Map → Md5Map
touch key [] = (key, []) ∷ []
touch key ((k, blocks) ∷ rest) =
    if equivalent key k then (k, blocks) ∷ rest else (k, blocks) ∷ touch key rest

unfoldable pub at_key : Digest → Md5Map → BlockList
at_key key [] = []
at_key key ((k, blocks) ∷ rest) = if equivalent key k then blocks else at_key key rest

-- `md5map[key].push_back(block)`
unfoldable pub push_at : Digest → ℕ → Md5Map → Md5Map
push_at key block [] = (key, block ∷ []) ∷ []
push_at key block ((k, blocks) ∷ rest) =
    if equivalent key k
    then (k, blocks ++ block ∷ []) ∷ rest
    else (k, blocks) ∷ push_at key block rest

pub record Master : Type 0 where
  pub file : BlockFile
  pub md5 : Digest
  pub md5map : Md5Map
  pub filemap : FileMap

-- The program's calls of MD5, `open` and `mmap` for the MD5 of a file, the uninitialised memory of `malloc`, and the globals that the options
-- set.
pub record Program : Type 0 where
  pub env : Env
  pub hash_buf : List ℕ → Digest
  -- what `open` gives when a file that is open is opened again by its name
  pub reopen : File → Option File
  -- the bytes at the address that `mmap` gives for a length, or `none` for MAP_FAILED
  pub mmap : File → ℕ → Option (List ℕ)
  pub malloc : ℕ → List ℕ
  pub opt_raw : Bool
  pub use_prefilter : Bool

module _ (p : Program) where
  -- `add_block_hash`; the map is looked up for the report if the block is seen again.
  unfoldable pub add_block_hash : ℕ → Digest → Bloom → Md5Map → Run (Bloom × Md5Map)
  add_block_hash blocknumber md5 b map = do
    (b', seen) ← if p.opt_raw then query p.env b md5 else done (b, false)
    let map' = if seen then touch md5 map else map
    b'' ← add p.env b' md5
    done (b'', push_at md5 (blocknumber % 2 ^ 32) map')

  -- The loop over the blocks of a master file, with `left` blocks to go.
  unfoldable pub load_blocks : ℕ → ℕ → BlockFile → List ℕ → Bloom → Md5Map → Run (Bloom × Md5Map)
  load_blocks zero blocknumber file buf b map = done (b, map)
  load_blocks (suc left) blocknumber file buf b map = elim (getblock file blocknumber buf) [
    | none ↦ done (b, map)
    | some buf' ↦ do
      (b', map') ← add_block_hash blocknumber (p.hash_buf buf') b map
      load_blocks left (blocknumber + 1) file buf' b' map'
  ]

  -- `load`, with what `::open` gives for the file's name; `hash_file` opens it again and may throw.
  unfoldable pub load : BlockFile → Option File → ℕ → Bloom → Run (Bloom × Master)
  load image opened blocksize b = do
    file ← open_blocks opened blocksize
    elim file [
      | none ↦ exited 1
      | some file ↦ if ltb image.filesize file.filesize then exited 1 else (do
        md5 ← hash_file p.hash_buf (p.reopen file.file) p.mmap
        elim md5 [
          | none ↦ fault uncaught_exception
          | some digest ↦ do
            (b', map) ← load_blocks file.blocks 0 file (p.malloc blocksize) b []
            done (
              b',
              record {
                file = file;
                md5 = digest;
                md5map = map;
                filemap = replicate file.blocks [];
              },
            )
        ])
    ]

  -- `add_master_file` for each name of the command line.
  unfoldable pub load_all : BlockFile → List (Option File) → ℕ → Bloom → Run (Bloom × List Master)
  load_all image [] blocksize b = done (b, [])
  load_all image (f ∷ fs) blocksize b = do
    (b', t) ← load image f blocksize b
    (b'', ts) ← load_all image fs blocksize b'
    done (b'', t ∷ ts)
