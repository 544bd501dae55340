-- ===== src/Search/Main/Found.antt =====
-- What a run of frag_find leaves: for each block of each master file, the blocks of the image that
-- have its MD5.
use frag_find.Common.{
  ℕ, ◌+◌, ◌/◌, ◌^◌, ◌≤◌, ◌<◌, ◌≡◌, refl, sym, ◌∙◌, ap, List, [], ◌∷◌, some, length,
  length-replicate, get_or, get_or-replicate, arith,
}
use frag_find.Bloom.Types.{Bloom}
use frag_find.Search.FileMap.{BlockList}
use frag_find.Search.Filter.{Extends}
use frag_find.Search.BlockFile.{File, BlockFile}
use frag_find.Search.BlockFile.Blocks.{IsWhole, IsRegular, block}
use frag_find.Search.Master.{Digest, Master, Program}
use frag_find.Search.Master.Load.{IsLoaded, digests, length-digests, get_or-digests}
use frag_find.Search.Scan.Gains.{TracksAll, Gains, GainsAll, Knows-Extends}

-- A master file that frag_find accepts: regular, no larger than the image, with block numbers that
-- fit 32 bits, that opens again and that `mmap` gives.
pub record IsMaster (p : Program) (size blocksize : ℕ) (f : File) : Type 0 where
  pub regular : IsRegular f
  pub fits : f.st_size ≤ size
  pub few : f.st_size / blocksize < 2 ^ 32
  pub again : p.reopen f ≡ some f
  pub maps : p.mmap f f.st_size ≡ some f.contents

abbrev pub LoadedAll : Program → ℕ → Bloom → List File → List Master → Type 0
LoadedAll p blocksize b [] [] = Unit
LoadedAll p blocksize b (f ∷ fs) (t ∷ ts) =
    IsLoaded p f blocksize b t × LoadedAll p blocksize b fs ts
LoadedAll p blocksize b _ _ = ⊥

-- The file map of a master: entry `j` is the scanned blocks of the image with the MD5 of block `j`.
pub record IsFound (p : Program) (f : Digest → BlockList) (file : File) (blocksize : ℕ) (t : Master)
    : Type 0 where
  pub whole : IsWhole t.file
  pub same_file : t.file.file ≡ file
  pub same_size : t.file.blocksize ≡ blocksize
  pub same_length : length t.filemap ≡ t.file.blocks
  pub entries :
      (j : ℕ) → j < t.file.blocks → get_or t.filemap j [] ≡ f (p.hash_buf (block t.file j))
  pub hashed : t.md5 ≡ p.hash_buf file.contents

abbrev pub FoundAll : Program → (Digest → BlockList) → ℕ → List File → List Master → Type 0
FoundAll p f blocksize [] [] = Unit
FoundAll p f blocksize (g ∷ gs) (t ∷ ts) = IsFound p f g blocksize t × FoundAll p f blocksize gs ts
FoundAll p f blocksize _ _ = ⊥

pub all_digests : Program → List Master → List (List Digest)
all_digests p [] = []
all_digests p (t ∷ ts) = digests p t.file t.file.blocks 0 ∷ all_digests p ts

pub LoadedAll-Tracks :
    (p : Program) (blocksize : ℕ) (b : Bloom) (fs : List File) (ts : List Master)
    → LoadedAll p blocksize b fs ts
    → TracksAll b ts (all_digests p ts)
unfolding all_digests
LoadedAll-Tracks p blocksize b [] [] h = TracksAll.nil
LoadedAll-Tracks p blocksize b [] (t ∷ ts) h = absurd h
LoadedAll-Tracks p blocksize b (f ∷ fs) [] h = absurd h
LoadedAll-Tracks p blocksize b (f ∷ fs) (t ∷ ts) h =
    TracksAll.cons
      (record {
        knows = h.0.knows;
        room =
            rw (length-digests p t.file t.file.blocks 0, h.0.empty)
              (omega (arith, length-replicate {A = BlockList} t.file.blocks []));
      })
      (LoadedAll-Tracks p blocksize b fs ts h.1)

IsFound-Gains :
    (p : Program) (f : Digest → BlockList) (blocksize : ℕ) (b : Bloom) (g : File) (t t' : Master)
    → IsLoaded p g blocksize b t
    → Gains f (digests p t.file t.file.blocks 0) t t'
    → IsFound p f g blocksize t'
IsFound-Gains p f blocksize b g t t' l h = record {
  whole = rw h.same_file l.whole;
  same_file = rw h.same_file l.same_file;
  same_size = rw h.same_file l.same_size;
  same_length =
      h.same_length
      ∙ (ap length l.empty
          ∙ (length-replicate {A = BlockList} t.file.blocks []
              ∙ ap (λ (x : BlockFile). x.blocks) (sym h.same_file)));
  entries = λ j q. entry j (rw h.same_file at q);
  hashed = h.same_md5 ∙ l.hashed;
}
  where
    entry : (j : ℕ) → j < t.file.blocks → get_or t'.filemap j [] ≡ f (p.hash_buf (block t'.file j))
    entry j q =
        let z : 0 + j ≡ j = omega arith in
        h.entries j (rw (length-digests p t.file t.file.blocks 0) q)
        ∙ rw
            (
              l.empty,
              get_or-replicate {A = BlockList} t.file.blocks j [],
              get_or-digests p t.file t.file.blocks 0 j q,
              z,
              h.same_file,
            )
            refl

pub FoundAll-GainsAll :
    (p : Program) (f : Digest → BlockList) (blocksize : ℕ) (b : Bloom) (gs : List File)
    (ts : List Master) {ts' : List Master}
    → LoadedAll p blocksize b gs ts
    → GainsAll f (all_digests p ts) ts ts'
    → FoundAll p f blocksize gs ts'
unfolding all_digests
FoundAll-GainsAll p f blocksize b [] [] h GainsAll.nil = tt
FoundAll-GainsAll p f blocksize b [] (t ∷ ts) h g = absurd h
FoundAll-GainsAll p f blocksize b (x ∷ gs) [] h g = absurd h
FoundAll-GainsAll p f blocksize b (x ∷ gs) (t ∷ ts) h (GainsAll.cons {t' = t'} g rest) =
    (IsFound-Gains p f blocksize b x t t' h.0 g, FoundAll-GainsAll p f blocksize b gs ts h.1 rest)

pub LoadedAll-Extends :
    (p : Program) (blocksize : ℕ) (b b' : Bloom) (fs : List File) (ts : List Master)
    → Extends b b'
    → LoadedAll p blocksize b fs ts
    → LoadedAll p blocksize b' fs ts
LoadedAll-Extends p blocksize b b' [] [] e h = tt
LoadedAll-Extends p blocksize b b' [] (t ∷ ts) e h = absurd h
LoadedAll-Extends p blocksize b b' (f ∷ fs) [] e h = absurd h
LoadedAll-Extends p blocksize b b' (f ∷ fs) (t ∷ ts) e h = (
  record {
    whole = h.0.whole;
    same_file = h.0.same_file;
    same_size = h.0.same_size;
    knows = Knows-Extends t (digests p t.file t.file.blocks 0) h.0.knows e;
    empty = h.0.empty;
    hashed = h.0.hashed;
  },
  LoadedAll-Extends p blocksize b b' fs ts e h.1,
)
