-- ===== src/Bloom/Disk/Sectors.antt =====
-- The filter of a disk holds every sector that is read.
use frag_find.Common.{
  ℕ, zero, suc, ◌+◌, ◌*◌, ◌<◌, ◌≤◌, ◌≡◌, refl, sym, ◌∙◌, ap, true, false, Bool-cases, inl, inr,
  List, [], ◌∷◌, ◌++◌, none, some, Run, ◌>>=◌, bind_assoc, All, length, length-append, length-drop,
  take-append_within, drop-append_within, Option-cases, ◌/◌, ◌%◌, take, drop, ltb, if◌then◌else◌,
  arith,
}
use frag_find.Bloom.Create.Files.{drop-drop}
use frag_find.Bloom.Types.{Bloom, Env}
use frag_find.Bloom.Filter.{add}
use frag_find.Bloom.Filter.Sequence.{add_all}
use frag_find.Bloom.Disk.{Segment, Image, add_sector, add_sectors, add_pages}

-- A page of whole sectors, no larger than the buffer.
pub record IsPage (af : Image) (page : List ℕ) : Type 0 where
  pub whole : length page % af.sector_size ≡ 0
  pub fits : length page ≤ af.image_pagesize

-- What is read of a segment is a page.
abbrev pub IsSegment : Image → Segment → Type 0
IsSegment af s = (page : List ℕ) → s.page ≡ some page → IsPage af page

module _ (hash_buf : List ℕ → List ℕ) (af : Image) where
  -- The digests of the good sectors among `count` sectors.
  unfoldable pub digests_of : ℕ → List ℕ → List (List ℕ)
  digests_of zero page = []
  digests_of (suc count) page =
      let rest = digests_of count (drop af.sector_size page) in
      let sector = take af.sector_size page in
      if af.is_badsector sector then rest else hash_buf sector ∷ rest

  -- The digests of the good sectors of the data that can be read.
  unfoldable pub digests_of_page : Segment → List (List ℕ)
  digests_of_page s = elim s.is_data [
    | false ↦ []
    | true ↦ elim s.page [ none ↦ [] | some page ↦ digests_of (length page / af.sector_size) page ]
  ]

  unfoldable pub disk_digests : List Segment → List (List ℕ)
  disk_digests [] = []
  disk_digests (s ∷ segs) = digests_of_page s ++ disk_digests segs

module _ (env : Env) (hash_buf : List ℕ → List ℕ) (af : Image) where
  add_sectors-digests_of :
      (count fuel o bytes : ℕ) (buf : List ℕ) (bf : Bloom)
      → 0 < af.sector_size
      → count ≤ fuel
      → o + count * af.sector_size ≡ bytes
      → bytes ≤ length buf
      → add_sectors env hash_buf fuel af buf bytes o bf
        ≡ add_all env bf (digests_of hash_buf af count (drop o buf))
  unfolding add_sectors add_sector digests_of add_all
  add_sectors-digests_of zero zero o bytes buf bf pos fuels size fits = refl
  add_sectors-digests_of zero (suc fuel) o bytes buf bf pos fuels size fits =
      let z : ltb o bytes ≡ false = ground arith in rw (z, add_sectors) refl
  add_sectors-digests_of (suc count) zero o bytes buf bf pos fuels size fits = absurd (omega arith)
  add_sectors-digests_of (suc count) (suc fuel) o bytes buf bf pos fuels size fits =
      let step : o + af.sector_size + count * af.sector_size ≡ bytes = grind arith in
      let more : ltb o bytes ≡ true = ground arith in
      let inside : ltb (length buf) (o + af.sector_size) ≡ false = ground arith in
      let rest : (b : Bloom)
          → add_sectors env hash_buf fuel af buf bytes (o + af.sector_size) b
            ≡ add_all env b (digests_of hash_buf af count (drop af.sector_size (drop o buf))) =
        λ b.
          add_sectors-digests_of count fuel (o + af.sector_size) bytes buf b pos (omega arith) step
            fits
          ∙ ap (λ (d : List ℕ). add_all env b (digests_of hash_buf af count d))
              (sym (drop-drop o af.sector_size buf)) in
      elim (Bool-cases (af.is_badsector (take af.sector_size (drop o buf)))) [
        | inl e ↦ rw (more, inside, e, add_sectors, add_sector, digests_of) (rest bf)
        | inr e ↦
            rw (more, inside, e, add_sectors, add_sector, digests_of)
              (ap
                (λ (next : Bloom → Run Bloom).
                  add env bf (hash_buf (take af.sector_size (drop o buf))) >>= next)
                (λ i b. rest b i))
      ]

  digests_of-append :
      (count : ℕ) (page stale : List ℕ)
      → count * af.sector_size ≤ length page
      → digests_of hash_buf af count (page ++ stale) ≡ digests_of hash_buf af count page
  unfolding digests_of
  digests_of-append zero page stale h = refl
  digests_of-append (suc count) page stale h =
      let first : af.sector_size ≤ length page = grind arith in
      let others : count * af.sector_size ≤ length (drop af.sector_size page) =
        rw (length-drop af.sector_size page) (grind arith) in
      rw
        (
          take-append_within af.sector_size page stale first,
          drop-append_within af.sector_size page stale first,
          digests_of-append count (drop af.sector_size page) stale others,
        )
        refl

  add_all-append :
      (xs ys : List (List ℕ)) (bf : Bloom)
      → (add_all env bf xs >>= λ b. add_all env b ys) ≡ add_all env bf (xs ++ ys)
  unfolding add_all
  add_all-append [] ys bf = refl
  add_all-append (x ∷ xs) ys bf =
      bind_assoc (add env bf x) (λ b. add_all env b xs) (λ b. add_all env b ys)
      ∙ ap (λ (next : Bloom → Run Bloom). add env bf x >>= next) (λ i b. add_all-append xs ys b i)

  page-digests_of :
      (page buf : List ℕ) (bf : Bloom)
      → 0 < af.sector_size
      → IsPage af page
      → add_sectors env hash_buf
          (length page)
          af
          (page ++ drop (length page) buf)
          (length page)
          0
          bf
        ≡ add_all env bf (digests_of hash_buf af (length page / af.sector_size) page)
  page-digests_of page buf bf pos h =
      let count = length page / af.sector_size in
      let size : 0 + count * af.sector_size ≡ length page = grind (arith, h.whole) in
      let fuels : count ≤ length page = grind arith in
      let room : length page ≤ length (page ++ drop (length page) buf) =
        omega (arith, length-append page (drop (length page) buf)) in
      add_sectors-digests_of count (length page) 0 (length page) (page ++ drop (length page) buf) bf
        pos fuels size room
      ∙ ap (λ (d : List (List ℕ)). add_all env bf d)
          (digests_of-append count page (drop (length page) buf) (omega (arith, size)))

  pub add_pages-disk_digests :
      (segs : List Segment) (buf : List ℕ) (bf : Bloom)
      → 0 < af.sector_size
      → All (IsSegment af) segs
      → add_pages env hash_buf af segs buf bf ≡ add_all env bf (disk_digests hash_buf af segs)
  unfolding disk_digests digests_of_page add_pages
  add_pages-disk_digests [] buf bf pos h = unfold add_all in refl
  add_pages-disk_digests (s ∷ segs) buf bf pos (h, hs) = elim (Bool-cases s.is_data) [
    | inr e ↦ rw e (add_pages-disk_digests segs buf bf pos hs)
    | inl e ↦ elim (Option-cases s.page) [
      | inl q ↦ rw (e, q) (add_pages-disk_digests segs buf bf pos hs)
      | inr (page, q) ↦
          let buf' = page ++ drop (length page) buf in
          rw (e, q)
            (ap (λ (r : Run Bloom). r >>= λ b. add_pages env hash_buf af segs buf' b)
                (page-digests_of page buf bf pos (h page q))
              ∙ ap
                  (λ (next : Bloom → Run Bloom).
                    add_all env bf (digests_of hash_buf af (length page / af.sector_size) page)
                    >>= next)
                  (λ i b. add_pages-disk_digests segs buf' b pos hs i)
              ∙ add_all-append (digests_of hash_buf af (length page / af.sector_size) page)
                  (disk_digests hash_buf af segs) bf)
    ]
  ]
