-- ===== src/Bloom/Open/Trip.antt =====
-- A filter that is written to a file and opened again is the filter that was written.
use frag_find.Common.{
  take-append, drop-append, ℕ, ◌+◌, ◌-◌, ◌*◌, ◌/◌, ◌%◌, ◌^◌, ◌≤◌, ◌<◌, ◌≡◌, refl, sym, ◌∙◌, ap,
  true, false, List, ◌++◌, some, done, ◌>>=◌, bind-done, Returns, length, length-append, take, drop,
  All, ltb, leb, le→ltb, ◌==◌, inl, inr, arith,
}
use frag_find.Bloom.Types.{Bloom, Env, Md}
use frag_find.Bloom.Header.{info_text, page_of, vector_start}
use frag_find.Bloom.Create.{Written, write, digest_of, set_params}
use frag_find.Bloom.Create.Memory.{pow-room, set_params-digest, IsHashSize, digest_of-size}
use frag_find.Bloom.Create.Files.{length-page_of, write-written}
use frag_find.Bloom.Filter.Laws.{IsValid, present}
use frag_find.Bloom.Open.{open_vector, open_filter, reopen}
use frag_find.Bloom.Open.Header.{
  IsPlain, FitsHeader, with_fields, take-all, c_string-page_of, read_header-info_text,
}

take-page : (text v : List ℕ) → take vector_start (page_of text ++ v) ≡ page_of text
take-page text v =
    ap (λ (n : ℕ). take n (page_of text ++ v)) (sym (length-page_of text))
    ∙ take-append (page_of text) v

drop-page : (text v : List ℕ) → drop vector_start (page_of text ++ v) ≡ v
drop-page text v =
    ap (λ (n : ℕ). drop n (page_of text ++ v)) (sym (length-page_of text))
    ∙ drop-append (page_of text) v

-- A filter whose header the reader understands.
pub record IsFilable (c : Bloom) : Type 0 where
  pub valid : IsValid c
  pub fits : FitsHeader c
  pub plain : All IsPlain valid.note
  pub short : length (info_text c valid.note) ≤ 4095
  pub size : IsHashSize (8 * c.hash_bytes)
  pub few : c.m ≤ 66
  pub some_k : 0 < c.k

-- The filter `r` has the parameters, the counters and the bits of `c`.
pub record Restores (c r : Bloom) : Type 0 where
  pub valid : IsValid r
  pub same_m : r.m ≡ c.m
  pub same_k : r.k ≡ c.k
  pub same_hash_bytes : r.hash_bytes ≡ c.hash_bytes
  pub same_comment : r.comment ≡ c.comment
  pub same_counts :
      (r.added_items ≡ c.added_items)
      × (r.unique_added_items ≡ c.unique_added_items)
      × (r.aliased_adds ≡ c.aliased_adds)
  pub same_vector : r.vector ≡ c.vector
  pub same_present : (hash : List ℕ) → present r hash ≡ present c hash

module _ (env : Env) (c : Bloom) (f : IsFilable c) (fd : ℕ) (b : Bloom)
    (maps : env.mmap_ok (2 ^ (c.m - 3)) ≡ true) where
  bits : List ℕ
  bits = f.valid.bits

  note : List ℕ
  note = f.valid.note

  page : List ℕ
  unfolding note
  page = page_of (info_text c note)

  opened : Bloom
  unfolding page
  opened = record b { fd = fd; page = page }

  restored : Md → Bloom
  unfolding opened note bits
  restored md = record (with_fields c note opened) {
    md = some md;
    vector_bytes = 2 ^ (c.m - 3);
    vector = some bits;
    memmapped = true;
  }

  restored-Restores : (md : Md) → Restores c (restored md)
  unfolding restored present
  restored-Restores md = record {
    valid = record {
      bits = f.valid.bits;
      note = f.valid.note;
      held = refl;
      commented = refl;
      room = f.valid.room;
      sized = omega (arith, f.valid.room, pow-room c.m f.valid.wide);
      bytes = f.valid.bytes;
      wide = f.valid.wide;
      reads = f.valid.reads;
      word = f.valid.word;
    };
    same_m = refl;
    same_k = refl;
    same_hash_bytes = refl;
    same_comment = sym f.valid.commented;
    same_counts = (refl, refl, refl);
    same_vector = sym f.valid.held;
    same_present = λ hash. rw f.valid.held refl;
  }

  hash_pos : (c.hash_bytes == 0) ≡ false
  hash_pos = elim f.size [
    | inl e ↦ ground arith
    | inr (inl e) ↦ ground arith
    | inr (inr e) ↦ ground arith
  ]

  open_vector-restored :
      (md : Md)
      → open_vector env (record (with_fields c note opened) { md = some md }) 2 (page ++ bits)
        ≡ done (restored md, true)
  unfolding open_vector restored page
  open_vector-restored md =
      let h : (c.hash_bytes == 0) ≡ false = hash_pos in
      let m : (c.m == 0) ≡ false = ground (arith, f.valid.wide) in
      let k : (c.k == 0) ≡ false = ground (arith, f.some_k) in
      let e : (c.m + 2 ^ 32 - 3) % 2 ^ 32 ≡ c.m - 3 = omega (arith, f.valid.wide, f.few) in
      let l : leb 64 (c.m - 3) ≡ false = ground (arith, f.few) in
      let whole : length bits ≤ 2 ^ (c.m - 3) =
        unfold bits in omega (arith, f.valid.room, pow-room c.m f.valid.wide) in
      rw
        (
          h,
          m,
          k,
          e,
          l,
          maps,
          drop-page (info_text c note) bits,
          take-all (2 ^ (c.m - 3)) bits whole,
        )
        refl

  open_filter-restored :
      (md : Md)
      → digest_of c.hash_bytes ≡ some md
      → open_filter env b (some (fd, page ++ bits)) ≡ done (restored md, true)
  unfolding open_filter page opened
  open_filter-restored md q =
      let long : ltb (length (page ++ bits)) vector_start ≡ false =
        le→ltb (length (page ++ bits)) vector_start
          (omega (arith, length-append page bits, length-page_of (info_text c note))) in
      rw (long, take-page (info_text c note) bits)
        (bind-done _ (c_string-page_of c note f.plain f.short) (
          ap (λ (s : Bloom × ℕ). set_params s.0 >>= λ b'. open_vector env b' s.1 (page ++ bits))
            (read_header-info_text c opened note f.fits f.plain)
          ∙ bind-done _ (set_params-digest (with_fields c note opened) md q)
              (open_vector-restored md)))

  -- A valid filter of 16, 20 or 32 hash bytes, m at most 66, k above 0 and parameters and
  -- counters below 2^32, with a header text of at most 4095 bytes and a comment without NUL and
  -- line ends, is written when the file opens on a descriptor above 0 and no seek to its start
  -- and no write fails; when the vector can be mapped, opening that file succeeds, with any
  -- structure before, and gives a valid filter with the same parameters, comment, counters of
  -- adds, vector and members.
  pub reopen-Restores :
      (fd' : ℕ) (fname : List ℕ)
      → ((n : ℕ) → env.write_ok fd' n ≡ true)
      → 0 < fd'
      → env.open_new fname ≡ some fd'
      → env.lseek_ok fd' 0 ≡ true
      → Returns (write env c fname >>= λ w. reopen env fd b w.1) λ r. (r.1 ≡ true) × Restores c r.0
  unfolding reopen bits note page
  reopen-Restores fd' fname writes pos opens seeks =
      let (w, run, file) =
        write-written env fd' writes c fname bits note pos opens seeks f.valid.held f.valid.sized
          f.valid.commented in
      let (md, q) = digest_of-size (8 * c.hash_bytes) f.size in
      let same : 8 * c.hash_bytes / 8 ≡ c.hash_bytes = omega arith in
      (
        (restored md, true),
        bind-done _ run (
            ap (λ (t : Written). reopen env fd b t) file
            ∙ open_filter-restored md (ap digest_of (sym same) ∙ q)),
        (refl, restored-Restores md),
      )
