-- ===== src/Rds/File/Lines.antt =====
-- `nextline` reads the lines of the file one by one.
use frag_find.Common.{
  ℕ, zero, suc, ◌+◌, ◌-◌, ◌<◌, ◌≤◌, ◌≡◌, refl, sym, ◌∙◌, ap, true, false, ◌&&◌, ◌⊎◌, inl, inr, List,
  ◌∷◌, ◌++◌, Returns, length, length-append, length-take, length-drop, get_or, take, drop,
  take-append_within, min, ltb, leb, le→ltb, if◌then◌else◌, Bool-cases, arith,
}
use frag_find.Bloom.Create.Files.{drop-drop}
use frag_find.Rds.File.{RdsFile, is_end, has_end, fetch, load_buffer, start_of_line}
use frag_find.Rds.File.Slices.{
  take-take_within, drop-take, get_or-take, get_or-drop, IsLine, has_end-take,
}

-- The buffer holds a piece of the file.
pub record IsLoaded (r : RdsFile) : Type 0 where
  pub sized : r.len ≡ length r.contents
  pub inside : r.buf0 + r.buflen ≤ r.len
  pub held : take r.buflen r.buf ≡ take r.buflen (drop r.buf0 r.contents)

-- The buffer holds a line, whose end is in it too.
pub record Covers (o n : ℕ) (r r' : RdsFile) : Type 0 where
  pub loaded : IsLoaded r'
  pub same : r'.contents ≡ r.contents
  pub low : r'.buf0 ≤ o
  pub high : o + n < r'.buf0 + r'.buflen

-- The line at `o`, and its end.
abbrev pub IsLineAt : List ℕ → ℕ → List ℕ → List ℕ → Type 0
IsLineAt contents o line post = drop o contents ≡ line ++ 10 ∷ post

pub line-inside :
    (contents : List ℕ) (o : ℕ) (line post : List ℕ)
    → IsLineAt contents o line post
    → o + length line < length contents
line-inside contents o line post e =
    omega (arith, sym (length-drop o contents) ∙ ap length e, length-append line (10 ∷ post))

-- The rest of the buffer from a place on is a piece of the file from there on.
window :
    (r : RdsFile) (o : ℕ)
    → IsLoaded r
    → r.buf0 ≤ o
    → o ≤ r.buf0 + r.buflen
    → drop (o - r.buf0) (take r.buflen r.buf) ≡ take (r.buf0 + r.buflen - o) (drop o r.contents)
window r o h low high =
    let k = o - r.buf0 in
    let e : r.buf0 + k ≡ o = omega arith in
    let m : r.buflen - k ≡ r.buf0 + r.buflen - o = omega arith in
    ap (λ (b : List ℕ). drop k b) h.held
    ∙ drop-take k r.buflen (drop r.buf0 r.contents) (omega arith)
    ∙ rw (drop-drop r.buf0 k r.contents, e, m) refl

pub line-window :
    (r : RdsFile) (o : ℕ) (line post : List ℕ)
    → IsLoaded r
    → IsLineAt r.contents o line post
    → r.buf0 ≤ o
    → o ≤ r.buf0 + r.buflen
    → drop (o - r.buf0) (take r.buflen r.buf) ≡ take (r.buf0 + r.buflen - o) (line ++ 10 ∷ post)
line-window r o line post h at low high =
    window r o h low high ∙ ap (λ (s : List ℕ). take (r.buf0 + r.buflen - o) s) at

fetch-Covers :
    (r : RdsFile) (o n : ℕ)
    → IsLoaded r
    → o + n < length r.contents
    → n ≤ 510
    → Returns (fetch r o) (Covers o n r)
unfolding fetch
fetch-Covers r o n h inside short =
    let b = if ltb 512 o then o - 512 else 0 in
    let low : (b ≤ o) × (o ≤ b + 512) = ground arith in
    let z : ltb r.len b ≡ false = le→ltb r.len b (omega (arith, low, h.sized)) in
    let count = min 1024 (r.len - b) in
    let room : count ≤ length (drop b r.contents) =
      omega (arith, length-drop b r.contents, h.sized) in
    let full : count ≤ length (take count (drop b r.contents)) =
      omega (arith, length-take count (drop b r.contents), room) in
    (
      record r {
        buf = take count (drop b r.contents) ++ drop count r.buf;
        buf0 = b;
        buflen = count;
      },
      rw z refl,
      record {
        loaded = record {
          sized = h.sized;
          inside = omega (arith, low, h.sized);
          held =
              take-append_within count (take count (drop b r.contents)) (drop count r.buf) full
              ∙ take-take_within count count (drop b r.contents) (omega arith);
        };
        same = refl;
        low = low.0;
        high = omega (arith, low, h.sized);
      },
    )

pub load_buffer-Covers :
    (r : RdsFile) (o : ℕ) (line post : List ℕ)
    → IsLoaded r
    → IsLineAt r.contents o line post
    → IsLine line
    → length line ≤ 510
    → Returns (load_buffer r o) (Covers o (length line) r)
unfolding load_buffer
load_buffer-Covers r o line post h at plain short =
    let there = fetch-Covers r o (length line) h (line-inside r.contents o line post at) short in
    elim (Bool-cases (leb r.buf0 o && ltb o (r.buf0 + r.buflen))) [
      | inr e ↦ rw e there
      | inl e ↦
          let low : r.buf0 ≤ o = ground arith in
          let high : o < r.buf0 + r.buflen = ground arith in
          let piece = line-window r o line post h at low (omega arith) in
          elim (Bool-cases (has_end (drop (o - r.buf0) (take r.buflen r.buf)))) [
            | inr q ↦ rw (e, q) there
            | inl q ↦ (
              r,
              rw (e, q) refl,
              record {
                loaded = h;
                same = refl;
                low = low;
                high = omega (
                  arith,
                  has_end-take (r.buf0 + r.buflen - o) line post plain
                      (sym (ap (λ (s : List ℕ). has_end s) piece) ∙ q),
                );
              },
            )
          ]
    ]

-- The line starts at the start of the file or after a line end.
abbrev pub IsStart : List ℕ → ℕ → Type 0
IsStart contents o = (o ≡ 0) ⊎ (is_end (get_or contents (o - 1) 0) ≡ true)

start_of_line-stays :
    (buf : List ℕ) (k : ℕ)
    → (k ≤ 1) ⊎ (is_end (get_or buf (k - 1) 0) ≡ true)
    → start_of_line buf k ≡ k
unfolding start_of_line
start_of_line-stays buf zero h = refl
start_of_line-stays buf (suc k) (inl h) = let z : ltb 1 (suc k) ≡ false = ground arith in rw z refl
start_of_line-stays buf (suc k) (inr h) = elim (Bool-cases (ltb 1 (suc k))) [
  | inl e ↦
      let q : is_end (get_or buf k 0) ≡ true = (λ i. is_end (get_or buf (before k i) 0)) ∙ h in
      rw (e, q) refl
  | inr e ↦ rw e refl
]
  where
    before : (j : ℕ) → j ≡ suc j - 1
    before j = omega arith

-- The character before the line is in the buffer, or the line starts the buffer.
pub start-in_buffer :
    (r : RdsFile) (o : ℕ)
    → IsLoaded r
    → r.buf0 ≤ o
    → o < r.buf0 + r.buflen
    → IsStart r.contents o
    → start_of_line r.buf (o - r.buf0) ≡ o - r.buf0
start-in_buffer r o h low high (inl e) = start_of_line-stays r.buf (o - r.buf0) (inl (omega arith))
start-in_buffer r o h low high (inr e) = elim (Bool-cases (ltb 1 (o - r.buf0))) [
  | inr q ↦ start_of_line-stays r.buf (o - r.buf0) (inl (ground arith))
  | inl q ↦
      let i = o - r.buf0 - 1 in
      let less : i < r.buflen = ground arith in
      let where_it_is : r.buf0 + i ≡ o - 1 = ground arith in
      let same : get_or r.buf i 0 ≡ get_or r.contents (o - 1) 0 =
        sym (get_or-take i r.buflen r.buf less)
        ∙ ap (λ (b : List ℕ). get_or b i 0) h.held
        ∙ get_or-take i r.buflen (drop r.buf0 r.contents) less
        ∙ get_or-drop r.buf0 i r.contents
        ∙ ap (λ (j : ℕ). get_or r.contents j 0) where_it_is in
      start_of_line-stays r.buf (o - r.buf0) (inr (ap is_end same ∙ e))
]
