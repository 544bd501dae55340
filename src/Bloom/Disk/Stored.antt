-- ===== src/Bloom/Disk/Stored.antt =====
-- What disk_bloom leaves in the file.
use frag_find.Common.{
  ℕ, zero, suc, ◌/◌, take, drop, All-append, Bool-cases, inr, ◌^◌, ◌<◌, ◌≤◌, ◌≡◌, refl, sym, ◌∙◌,
  Bool, true, false, List, [], ◌∷◌, ◌++◌, Option, none, some, bind-done, Returns, All, length,
  arith, inl, replicate,
}
use frag_find.Common.Text.{codes}
use frag_find.Bloom.Types.{Bloom, Env}
use frag_find.Bloom.Header.{info_text, page_of}
use frag_find.Bloom.Filter.Laws.{view}
use frag_find.Bloom.Filter.Sequence.{add_all-bits, some_bit, some_bit-Follows, AreLong}
use frag_find.Bloom.Create.{Written, written}
use frag_find.Bloom.Create.Memory.{create-IsNew}
use frag_find.Bloom.Create.Files.{write-written}
use frag_find.Bloom.Disk.{Segment, Image, disk_bloom}
use frag_find.Bloom.Disk.Sectors.{
  IsSegment, digests_of, digests_of_page, disk_digests, add_pages-disk_digests,
}

-- The file of a filter of 2^28 bits and two functions, in which exactly the bits of the digests are on.
pub record IsStored (digests : List (List ℕ)) (file : Written) : Type 0 where
  pub filter : Bloom
  pub vector : List ℕ
  pub comment : List ℕ
  pub same_m : filter.m ≡ 28
  pub same_k : filter.k ≡ 2
  pub held : filter.vector ≡ some vector
  pub stored : file ≡ written (page_of (info_text filter comment) ++ vector)
  pub members : (v : ℕ) → view filter v ≡ some_bit filter digests v

module _ (env : Env) (hash_buf : List ℕ → List ℕ)
    (md5 : (buf : List ℕ) → length (hash_buf buf) ≡ 16) (af : Image) where
  digests_of-AreLong :
      (n count : ℕ) (page : List ℕ) → n ≤ 16 → AreLong n (digests_of hash_buf af count page)
  unfolding digests_of
  digests_of-AreLong n zero page h = tt
  digests_of-AreLong n (suc count) page h =
      let rest = digests_of-AreLong n count (drop af.sector_size page) h in
      elim (Bool-cases (af.is_badsector (take af.sector_size page))) [
        | inl e ↦ rw e rest
        | inr e ↦ rw e (omega (arith, md5 (take af.sector_size page)), rest)
      ]

  disk_digests-AreLong :
      (n : ℕ) (segs : List Segment) → n ≤ 16 → AreLong n (disk_digests hash_buf af segs)
  unfolding disk_digests digests_of_page
  disk_digests-AreLong n [] h = tt
  disk_digests-AreLong n (s ∷ segs) h =
      All-append (λ d. n ≤ length d) (digests_of_page hash_buf af s) (disk_digests hash_buf af segs)
        (of_page s.is_data s.page) (disk_digests-AreLong n segs h)
    where
      of_page :
          (d : Bool) (p : Option (List ℕ))
          → AreLong n (elim d [
            | false ↦ []
            | true ↦ elim p [
              | none ↦ []
              | some page ↦ digests_of hash_buf af (length page / af.sector_size) page
            ]
          ])
      of_page false p = tt
      of_page true none = tt
      of_page true (some page) = digests_of-AreLong n (length page / af.sector_size) page h

  -- With 16-byte digests, memory for the vector, a file that opens on a descriptor above 0 where
  -- no seek to its start and no write fails, a sector size above 0, and pages of whole sectors
  -- that are no larger than the page size, disk_bloom returns, and its file is that of a filter
  -- of 2^28 bits and two functions in which exactly the bits of the digests of the good sectors
  -- in readable data pages are on.
  pub disk_bloom-IsStored :
      (diskfile bloomfile : List ℕ) (fd : ℕ)
      → env.calloc_ok (2 ^ 25) ≡ true
      → 0 < fd
      → env.open_new bloomfile ≡ some fd
      → env.lseek_ok fd 0 ≡ true
      → ((n : ℕ) → env.write_ok fd n ≡ true)
      → 0 < af.sector_size
      → All (IsSegment af) af.segs
      → Returns
          (disk_bloom env hash_buf diskfile bloomfile false (some af))
          λ r. IsStored (disk_digests hash_buf af af.segs) r.1
  disk_bloom-IsStored diskfile bloomfile fd memory pos opens seeks writes step segs =
      let hs = disk_digests hash_buf af af.segs in
      let ((b, ok), run₁, (e, n)) =
        create-IsNew 128 28 2 (codes "bloom filter for " ++ diskfile) (inl refl) (omega arith)
          (omega arith) env (omega arith) memory in
      let (b', run₂, (f, bits)) =
        add_all-bits env hs b n.valid n.keyless
          (disk_digests-AreLong b.hash_bytes af.segs (omega (arith, n.hash_size))) in
      let (r, run₃, stored) =
        write-written env fd writes b' bloomfile f.valid.bits f.valid.note pos opens seeks
          f.valid.held f.valid.sized f.valid.commented in
      let pages =
        add_pages-disk_digests env hash_buf af af.segs (replicate af.image_pagesize 0) b step
          segs in
      (
        r,
        unfold disk_bloom in bind-done _ run₁ (bind-done _ (pages ∙ run₂) run₃),
        record {
          filter = b';
          vector = f.valid.bits;
          comment = f.valid.note;
          same_m = f.same_m ∙ n.same_m;
          same_k = f.same_k ∙ n.same_k;
          held = f.valid.held;
          stored = stored;
          members =
              λ v. bits v ∙ rw (n.empty v) (sym (some_bit-Follows b b' hs v f.same_m f.same_k));
        },
      )
