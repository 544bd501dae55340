-- ===== src/Search/Scan/Gains.antt =====
-- What one looked-up block of the image adds to the file maps of the masters.
use mathlib.Core.List.{append-nil, append_assoc}
use frag_find.Common.{
  ℕ, zero, suc, ◌+◌, ◌≤◌, ◌<◌, ◌≡◌, refl, sym, ◌∙◌, ap, true, false, List, [], ◌∷◌, ◌++◌, done,
  Returns, bind-done, length, get_or, All, arith, if◌then◌else◌, Bool-cases, inl, inr,
}
use frag_find.Bloom.Types.{Bloom}
use frag_find.Bloom.Filter.Laws.{present}
use frag_find.Search.FileMap.{BlockList, FileMap}
use frag_find.Search.Digest.{equal, equal_iff}
use frag_find.Search.Filter.{Extends}
use frag_find.Search.Master.{Digest, Master, touch, at_key}
use frag_find.Search.Master.Positions.{IsDigest, HasDigests-touch, at_key-touch}
use frag_find.Search.Master.Load.{Knows, seen-Extends}
use frag_find.Search.Scan.{record_block, push_all}
use frag_find.Search.Scan.Push.{push_all-positions}

-- The filter and the md5map know the digests `ds` of a master file, and its file map has room.
pub record Tracks (b : Bloom) (t : Master) (ds : List Digest) : Type 0 where
  pub knows : Knows ds b t.md5map
  pub room : length ds ≤ length t.filemap

pub data TracksAll (b : Bloom) : List Master → List (List Digest) → Type 0 where
  nil : TracksAll b [] []
  cons :
      {t : Master} {ts : List Master} {ds : List Digest} {dss : List (List Digest)}
      → Tracks b t ds
      → TracksAll b ts dss
      → TracksAll b (t ∷ ts) (ds ∷ dss)

-- Between `t` and `t'` the entry of each block gained the places that `f` has for its digest.
pub record Gains (f : Digest → BlockList) (ds : List Digest) (t t' : Master) : Type 0 where
  pub same_file : t'.file ≡ t.file
  pub same_md5 : t'.md5 ≡ t.md5
  pub same_length : length t'.filemap ≡ length t.filemap
  pub entries :
      (j : ℕ) → j < length ds → get_or t'.filemap j [] ≡ get_or t.filemap j [] ++ f (get_or ds j [])

pub data GainsAll (f : Digest → BlockList)
    : List (List Digest) → List Master → List Master → Type 0 where
  nil : GainsAll f [] [] []
  cons :
      {ds : List Digest} {dss : List (List Digest)} {t t' : Master} {ts ts' : List Master}
      → Gains f ds t t'
      → GainsAll f dss ts ts'
      → GainsAll f (ds ∷ dss) (t ∷ ts) (t' ∷ ts')

-- The places that one block of the image, with digest `key`, gives a master block with digest `d`.
pub place : Digest → ℕ → Digest → BlockList
place key n d = if equal key d then n ∷ [] else []

pub Knows-Extends :
    {b b' : Bloom} (t : Master) (ds : List Digest)
    → Knows ds b t.md5map
    → Extends b b'
    → Knows ds b' t.md5map
Knows-Extends t ds k e = record {
  ready = e.ready;
  proper = k.proper;
  keys = k.keys;
  places = k.places;
  seen = seen-Extends ds k.ready e k.seen;
}

pub TracksAll-Extends :
    {b b' : Bloom} {ts : List Master} {dss : List (List Digest)}
    → TracksAll b ts dss
    → Extends b b'
    → TracksAll b' ts dss
TracksAll-Extends nil e = nil
TracksAll-Extends (cons {t = t} {ds = ds} h hs) e =
    cons (record { knows = Knows-Extends t ds h.knows e; room = h.room }) (TracksAll-Extends hs e)

module _ (b : Bloom) (key : Digest) (n : ℕ) (q : IsDigest key) where
  record_block-suc :
      (t : Master) (ts ts' : List Master) (fm : FileMap) (added : ℕ)
      → push_all (at_key key t.md5map) n t.filemap ≡ done fm
      → record_block key n ts ≡ done (ts', added)
      → record_block key n (t ∷ ts)
        ≡ done (
          record t { md5map = touch key t.md5map; filemap = fm } ∷ ts',
          length (at_key key t.md5map) + added,
        )
  unfolding record_block
  record_block-suc t ts ts' fm added e h = bind-done _ e (bind-done _ h refl)

  -- A block that is looked up is recorded at exactly the master blocks with its digest.
  pub record_block-Gains :
      {ts : List Master} {dss : List (List Digest)}
      → TracksAll b ts dss
      → Returns (record_block key n ts) λ r. TracksAll b r.0 dss × GainsAll (place key n) dss ts r.0
  unfolding place
  record_block-Gains nil = (([], 0), unfold record_block in refl, (nil, nil))
  record_block-Gains (cons {t = t} {ts = ts} {ds = ds} h hs) =
      let (fm, run, (l, entries)) = push_all-positions ds key n t.filemap h.room in
      let (r, run', (tracks, gains)) = record_block-Gains hs in
      (
        (
          record t { md5map = touch key t.md5map; filemap = fm } ∷ r.0,
          length (at_key key t.md5map) + r.1,
        ),
        record_block-suc t ts r.0 fm r.1 (rw (h.knows.places key q) run) run',
        (
          cons
              (record {
                knows = record {
                  ready = h.knows.ready;
                  proper = h.knows.proper;
                  keys = HasDigests-touch key t.md5map q h.knows.keys;
                  places = λ k kq. at_key-touch k key t.md5map ∙ h.knows.places k kq;
                  seen = h.knows.seen;
                };
                room = rw l h.room;
              })
              tracks,
          cons (record { same_file = refl; same_md5 = refl; same_length = l; entries = entries })
              gains,
        ),
      )

  nowhere :
      (ds : List Digest)
      → present b key ≡ false
      → All (λ d. present b d ≡ true) ds
      → (j : ℕ) → j < length ds
      → place key n (get_or ds j []) ≡ []
  unfolding place
  nowhere [] absent seen j p = absurd (omega arith)
  nowhere (d ∷ ds) absent seen zero p = elim (Bool-cases (equal key d)) [
    | inl s ↦ cc ((equal_iff key d).0 s, seen.0)
    | inr s ↦ rw s refl
  ]
  nowhere (d ∷ ds) absent seen (suc j) p = nowhere ds absent seen.1 j (omega arith)

  -- A digest that the filter does not have is at no master block.
  pub absent-Gains :
      {ts : List Master} {dss : List (List Digest)}
      → present b key ≡ false
      → TracksAll b ts dss
      → GainsAll (place key n) dss ts ts
  absent-Gains e nil = nil
  absent-Gains e (cons {t = t} {ds = ds} h hs) =
      cons {ds = ds} {t = t}
        (record {
          same_file = refl;
          same_md5 = refl;
          same_length = refl;
          entries =
              λ j p. rw (nowhere ds e h.knows.seen j p) (sym (append-nil (get_or t.filemap j [])));
        })
        (absent-Gains e hs)

Gains-trans :
    {f g : Digest → BlockList} {ds : List Digest} {t u v : Master}
    → Gains f ds t u
    → Gains g ds u v
    → Gains (λ d. f d ++ g d) ds t v
Gains-trans {f} {g} {ds} {t} a b = record {
  same_file = b.same_file ∙ a.same_file;
  same_md5 = b.same_md5 ∙ a.same_md5;
  same_length = b.same_length ∙ a.same_length;
  entries = λ j p.
      b.entries j p
      ∙ (ap (λ (l : BlockList). l ++ g (get_or ds j [])) (a.entries j p)
          ∙ append_assoc (get_or t.filemap j []) (f (get_or ds j [])) (g (get_or ds j [])));
}

pub GainsAll-trans :
    {f g : Digest → BlockList} {dss : List (List Digest)} {ts us vs : List Master}
    → GainsAll f dss ts us
    → GainsAll g dss us vs
    → GainsAll (λ d. f d ++ g d) dss ts vs
GainsAll-trans nil nil = nil
GainsAll-trans (cons a as') (cons b bs) = cons (Gains-trans a b) (GainsAll-trans as' bs)

pub nothing-GainsAll :
    {b : Bloom} {ts : List Master} {dss : List (List Digest)}
    → TracksAll b ts dss
    → GainsAll (λ d. []) dss ts ts
nothing-GainsAll nil = nil
nothing-GainsAll (cons {t = t} h hs) =
    cons {t = t}
      (record {
        same_file = refl;
        same_md5 = refl;
        same_length = refl;
        entries = λ j p. sym (append-nil (get_or t.filemap j []));
      })
      (nothing-GainsAll hs)
