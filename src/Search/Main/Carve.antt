-- ===== src/Search/Main/Carve.antt =====
-- A run of `main` on readable files: each step returns, and the file maps are right.
use mathlib.Core.Path.{subst}
use frag_find.Common.{
  ℕ, ◌-◌, ◌^◌, ◌≤◌, ◌<◌, ◌≡◌, refl, sym, ◌∙◌, true, false, ◌||◌, List, [], ◌∷◌, map, some, Returns,
  bind-done, length, All, arith, ltb, ◌==◌, le→ltb, inl,
}
use frag_find.Common.Text.{codes}
use frag_find.Bloom.Types.{Bloom}
use frag_find.Bloom.Create.Memory.{create-IsNew}
use frag_find.Search.Filter.{IsReady, Extends, Extends-refl, Extends-trans}
use frag_find.Search.BlockFile.{File, BlockFile}
use frag_find.Search.BlockFile.Blocks.{IsWhole, IsRegular, open_blocks-IsWhole}
use frag_find.Search.Master.{Program, load_all}
use frag_find.Search.Master.Load.{GivesDigests, load-IsLoaded}
use frag_find.Search.Scan.{State}
use frag_find.Search.Scan.Exact.{places, scanned, scan-Scanned}
use frag_find.Search.Main.{Options, bloom_create, open_image, carve}
use frag_find.Search.Main.Found.{
  IsMaster, LoadedAll, FoundAll, all_digests, LoadedAll-Tracks, LoadedAll-Extends,
  FoundAll-GainsAll,
}

module _ (p : Program) (blocksize : ℕ) (md5 : GivesDigests p)
    (room : length (p.malloc blocksize) ≡ blocksize) (pos : 0 < blocksize)
    (word : blocksize < 2 ^ 32) where
  load_all-LoadedAll :
      (image : BlockFile) (fs : List File) (b : Bloom)
      → All (IsMaster p image.filesize blocksize) fs
      → IsReady b
      → Returns
          (load_all p image (map some fs) blocksize b)
          λ r. Extends b r.0 × LoadedAll p blocksize r.0 fs r.1
  unfolding load_all
  load_all-LoadedAll image [] b h r = ((b, []), refl, (Extends-refl r, tt))
  load_all-LoadedAll image (f ∷ fs) b h r =
      let ((b', t), run, (e, l)) =
        load-IsLoaded p md5 image f blocksize b h.0.regular pos word h.0.fits h.0.few room h.0.again
          h.0.maps r in
      let ((b'', ts), run', (e', ls)) = load_all-LoadedAll image fs b' h.1 e.ready in
      (
        (b'', t ∷ ts),
        bind-done _ run (bind-done _ run' refl),
        (
          Extends-trans e e',
          ((LoadedAll-Extends p blocksize b' b'' (f ∷ []) (t ∷ []) e' (l, tt)).0, ls),
        ),
      )

-- The filter of frag_find is made, and ready.
bloom_create-IsReady :
    (p : Program) (opt_m : ℕ)
    → 5 ≤ opt_m
    → opt_m ≤ 32
    → p.env.calloc_ok (2 ^ (opt_m - 3)) ≡ true
    → Returns (bloom_create p opt_m) IsReady
bloom_create-IsReady p m lo hi memory =
    let ((b, ok), run, (e, n)) =
      create-IsNew 128 m 4 (codes "In-memory bloom filter for frag find") (inl refl) (omega arith)
        (omega arith) p.env (omega arith) memory in
    (
      b,
      unfold bloom_create in bind-done _ run (rw e refl),
      record { valid = n.valid; keyless = n.keyless; short = omega (arith, n.hash_size) },
    )

pub open_image-IsWhole :
    (p : Program) (f : File) (blocksize : ℕ)
    → IsRegular f
    → 0 < blocksize
    → blocksize < 2 ^ 32
    → blocksize ≤ f.st_size
    → Returns
        (open_image p (some f) blocksize)
        λ b. IsWhole b × (b.blocksize ≡ blocksize) × (b.file ≡ f) × (b.filesize ≡ f.st_size)
open_image-IsWhole p f blocksize r pos word large =
    let (b, run, (w, eb, ef, es)) = open_blocks-IsWhole f blocksize r pos word in
    let z : (b.filesize == 0) ≡ false = ground (arith, es) in
    let l : ltb b.filesize blocksize ≡ false = ground (arith, es) in
    (b, unfold open_image in bind-done _ run (rw (z, l) refl), (w, eb, ef, es))

-- What a run on an image `f` and the files `fs` leaves.
pub record Carved (p : Program) (o : Options) (f : File) (fs : List File) (s : State) : Type 0 where
  pub image : BlockFile
  pub whole : IsWhole image
  pub same_image : image.file ≡ f
  pub same_size : image.blocksize ≡ o.blocksize
  pub found :
      FoundAll p
        (places p image (scanned image o.opt_start o.opt_end) o.opt_start)
        o.blocksize
        fs
        s.masters

-- The options of a run within the checks of `main`, and the memory it asks for.
pub record IsAllowed (p : Program) (o : Options) : Type 0 where
  pub lo : 5 ≤ o.opt_m
  pub hi : o.opt_m ≤ 32
  pub wide : 4 ≤ o.blocksize
  pub word : o.blocksize < 2 ^ 32
  pub memory : p.env.calloc_ok (2 ^ (o.opt_m - 3)) ≡ true
  pub room : length (p.malloc o.blocksize) ≡ o.blocksize
  pub off : p.use_prefilter ≡ false

options-checked :
    (p : Program) (o : Options)
    → IsAllowed p o
    → (ltb o.opt_m 5 || ltb 32 o.opt_m || ltb o.blocksize 4) ≡ false
options-checked p o a =
    rw (le→ltb o.opt_m 5 a.lo, le→ltb 32 o.opt_m a.hi, le→ltb o.blocksize 4 a.wide) refl

-- With options within the checks, a block size below 2^32, no prefilter, memory for the filter
-- and the buffer, 16-byte digests, a readable image of at least one block, and one or more
-- readable masters that open a second time and can be mapped, no larger than the image and of
-- fewer than 2^32 blocks, a run returns, and it leaves for each block of each master the list, in
-- order, of exactly the scanned blocks of the image with the same digest.
pub carve-Carved :
    (p : Program) (md5 : GivesDigests p) (o : Options) (f m : File) (fs : List File)
    → IsAllowed p o
    → IsRegular f
    → o.blocksize ≤ f.st_size
    → All (IsMaster p f.st_size o.blocksize) (m ∷ fs)
    → Returns (carve p o (some f) (map some (m ∷ fs))) (Carved p o f (m ∷ fs))
carve-Carved p md5 o f m fs a reg large masters =
    let pos : 0 < o.blocksize = omega (arith, a.wide) in
    let (b, run, ready) = bloom_create-IsReady p o.opt_m a.lo a.hi a.memory in
    let (image, run', (w, eb, ef, es)) = open_image-IsWhole p f o.blocksize reg pos a.word large in
    let ((b', ts), run'', (e, ls)) =
      load_all-LoadedAll p o.blocksize md5 a.room pos a.word image (m ∷ fs) b
        (subst (λ (n : ℕ). All (IsMaster p n o.blocksize) (m ∷ fs)) (sym es) masters) ready in
    let (s, run''', z) =
      scan-Scanned p md5 image w o.opt_start o.opt_end (p.malloc o.blocksize)
        (record { filter = b'; masters = ts; hits = 0; bloom_false_positives = 0 })
        (all_digests p ts) a.off (a.room ∙ sym eb) e.ready
        (LoadedAll-Tracks p o.blocksize b' (m ∷ fs) ts ls) in
    (
      s,
      unfold carve in
          rw (options-checked p o a)
            (bind-done _ run (bind-done _ run' (bind-done _ run'' run'''))),
      record {
        image = image;
        whole = w;
        same_image = ef;
        same_size = eb;
        found = FoundAll-GainsAll p _ o.blocksize b' (m ∷ fs) ts ls z.gains;
      },
    )
