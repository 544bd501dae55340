-- ===== src/Bloom/Disk.antt =====
-- `main` of src/disk_bloom.cpp: a filter of the sectors of a disk image. AFFLIB is the parameter `Image`;
-- the message digest md5 is there, and the structure of the filter is new.
pub mod Sectors
pub mod Stored
use frag_find.Common.{
  ℕ, zero, suc, ◌+◌, Bool, true, false, List, [], ◌∷◌, ◌++◌, Option, none, some, Run, done, exited,
  fault, out_of_bounds, ◌>>=◌, length, take, drop, replicate, ltb, if◌then◌else◌,
}
use frag_find.Common.Text.{codes}
use frag_find.Bloom.Types.{Bloom, Env, blank}
use frag_find.Bloom.Filter.{add}
use frag_find.Bloom.Create.{Written, create, write}

-- A segment: whether it holds data, that is a page number that is not negative, and what `af_get_page`
-- gives, or `none` when that fails.
pub record Segment : Type 0 where
  pub is_data : Bool
  pub page : Option (List ℕ)

pub record Image : Type 0 where
  pub segs : List Segment
  pub sector_size : ℕ
  pub image_pagesize : ℕ
  pub is_badsector : List ℕ → Bool

module _ (env : Env) (hash_buf : List ℕ → List ℕ) where
  -- The sector at `o` of the buffer.
  unfoldable pub add_sector : Image → List ℕ → ℕ → Bloom → Run Bloom
  add_sector af buf o bf =
      if ltb (length buf) (o + af.sector_size)
      then fault out_of_bounds
      else (let sector_buf = take af.sector_size (drop o buf) in
          if af.is_badsector sector_buf then done bf else add env bf (hash_buf sector_buf))

  -- The loop over the sectors of a page, on fuel.
  unfoldable pub add_sectors : ℕ → Image → List ℕ → ℕ → ℕ → Bloom → Run Bloom
  unfolding add_sector
  add_sectors zero af buf bytes o bf = done bf
  add_sectors (suc fuel) af buf bytes o bf = elim (ltb o bytes) [
    | false ↦ done bf
    | true ↦
        add_sector af buf o bf >>= λ bf'. add_sectors fuel af buf bytes (o + af.sector_size) bf'
  ]

  -- The loop over the segments; the buffer keeps what a page does not fill.
  unfoldable pub add_pages : Image → List Segment → List ℕ → Bloom → Run Bloom
  unfolding add_sectors
  add_pages af [] buf bf = done bf
  add_pages af (s ∷ segs) buf bf = elim s.is_data [
    | false ↦ add_pages af segs buf bf
    | true ↦ elim s.page [
      | none ↦ add_pages af segs buf bf
      | some page ↦
          let buf' = page ++ drop (length page) buf in
          add_sectors (length page) af buf' (length page) 0 bf >>= λ bf'. add_pages af segs buf' bf'
    ]
  ]

  -- With the names of the disk and of the filter, whether there is a file of that name, and what
  -- `af_open` gives. The results of `create` and `write` are not looked at.
  unfoldable pub disk_bloom : List ℕ → List ℕ → Bool → Option Image → Run (Bloom × Written)
  unfolding add_pages
  disk_bloom diskfile bloomfile exists image = if exists then exited 1 else (do
    (bf, ok) ← create env blank none 128 28 2 (codes "bloom filter for " ++ diskfile)
    elim image [
      | none ↦ exited 1
      | some af ↦ do
        bf' ← add_pages af af.segs (replicate af.image_pagesize 0) bf
        write env bf' bloomfile
    ])
