-- ===== src/Bloom/Create/Files.antt =====
-- What `nsrl_bloom_write` puts into the file.
use mathlib.Core.List.{append-nil, append_assoc}
use frag_find.Common.{
  ℕ, zero, suc, ◌+◌, ◌-◌, ◌*◌, ◌/◌, ◌≤◌, ◌<◌, ◌≡◌, refl, sym, ◌∙◌, ap, true, false, List, [], ◌∷◌,
  ◌++◌, some, done, Returns, bind-done, length, take, drop, replicate, length-append, length-take,
  length-replicate, min, ltb, ◌==◌, le→ltb, Bool-cases, inl, inr, arith,
}
use frag_find.Bloom.Types.{Bloom, Env}
use frag_find.Bloom.Header.{info_text, info, page_of, info_update, vector_start}
use frag_find.Bloom.Create.{written, chunk, write_vector, write_body, write}

take-drop : (n : ℕ) (xs : List ℕ) → take n xs ++ drop n xs ≡ xs
take-drop zero xs = refl
take-drop (suc n) [] = refl
take-drop (suc n) (x ∷ xs) = ap (λ (t : List ℕ). x ∷ t) (take-drop n xs)

drop-nil : (n : ℕ) → drop {A = ℕ} n [] ≡ []
drop-nil zero = refl
drop-nil (suc n) = refl

pub drop-drop : (m n : ℕ) (xs : List ℕ) → drop n (drop m xs) ≡ drop (m + n) xs
drop-drop zero n xs = let e : 0 + n ≡ n = omega arith in rw e refl
drop-drop (suc m) n [] = let e : suc m + n ≡ suc (m + n) = omega arith in rw e (drop-nil n)
drop-drop (suc m) n (x ∷ xs) =
    let e : suc m + n ≡ suc (m + n) = omega arith in rw e (drop-drop m n xs)

pub drop-all : (n : ℕ) (xs : List ℕ) → length xs ≤ n → drop n xs ≡ []
drop-all zero [] h = refl
drop-all zero (x ∷ xs) h = absurd (omega arith)
drop-all (suc n) [] h = refl
drop-all (suc n) (x ∷ xs) h = drop-all n xs (omega arith)

-- What one write leaves to write.
chunk-bounds :
    (left : ℕ) → 0 < left → (chunk left ≤ left) × (left - chunk left ≤ left - min left 1048576)
chunk-bounds left pos = (ground arith, ground arith)

pub length-page_of : (text : List ℕ) → length (page_of text) ≡ 4096
unfolding page_of
length-page_of text = omega (
  arith,
  length-append (take (vector_start - 1) text)
      (replicate (vector_start - min (vector_start - 1) (length text)) 0),
  length-take (vector_start - 1) text,
  length-replicate {A = ℕ} (vector_start - min (vector_start - 1) (length text)) 0,
)

module _ (env : Env) (fd : ℕ) (writes : (n : ℕ) → env.write_ok fd n ≡ true) where
  write_vector-all :
      (fuel : ℕ) (vector : List ℕ) (at : ℕ) (out : List ℕ)
      → at ≤ length vector
      → length vector - at ≤ fuel * 1048576
      → write_vector env fuel fd vector (length vector) at out ≡ done (some (out ++ drop at vector))
  unfolding write_vector
  write_vector-all zero vector at out below enough =
      rw (drop-all at vector (omega arith), append-nil out) refl
  write_vector-all (suc fuel) vector at out below enough =
      elim (Bool-cases (ltb at (length vector))) [
        | inr e ↦
            let ended : length vector ≤ at = ground arith in
            rw (e, drop-all at vector ended, append-nil out) refl
        | inl e ↦
            let n = chunk (length vector - at) in
            let more : at < length vector = ground arith in
            let (short, fewer) = chunk-bounds (length vector - at) (omega arith) in
            let inside : ltb (length vector) (at + n) ≡ false =
              le→ltb (length vector) (at + n) (omega arith) in
            rw (e, inside, writes n)
              (write_vector-all fuel vector (at + n) (out ++ take n (drop at vector)) (omega arith)
                  (omega arith)
                ∙ ap (λ (t : List ℕ). done (some t))
                    (append_assoc out (take n (drop at vector)) (drop (at + n) vector)
                      ∙ ap (λ (t : List ℕ). out ++ t)
                          (ap (λ (t : List ℕ). take n (drop at vector) ++ t)
                              (sym (drop-drop at n vector))
                            ∙ take-drop n (drop at vector))))
      ]

  page_padded :
      (text v : List ℕ)
      → page_of text ++ replicate (vector_start - length (page_of text)) 0 ++ v ≡ page_of text ++ v
  page_padded text v = rw (length-page_of text) (append_assoc (page_of text) [] v)

  -- `b` with a comment, a vector, and the page of a file that has just been opened.
  filed : Bloom → List ℕ → List ℕ → List ℕ → Bloom
  filed b vector comment page = record b {
    vector = some vector;
    vector_bytes = length vector;
    comment = some comment;
    fd = fd;
    page = page;
  }

  write_body-written :
      (b : Bloom) (vector comment text : List ℕ)
      → write_body env (filed b vector comment (page_of text))
        ≡ done (filed b vector comment (page_of text), written (page_of text ++ vector))
  unfolding write_body filed
  write_body-written b vector comment text =
      bind-done _
        (write_vector-all (length vector / 1048576 + 1) vector 0 [] (omega arith) (omega arith))
        (ap (λ (t : List ℕ). done (filed b vector comment (page_of text), written t))
          (page_padded text vector))

  info_update-filed :
      (b : Bloom) (vector comment : List ℕ)
      → 0 < fd
      → env.lseek_ok fd 0 ≡ true
      → info_update env (filed b vector comment [])
        ≡ done (filed b vector comment (page_of (info_text b comment)), true)
  unfolding info_update info info_text filed
  info_update-filed b vector comment pos seeks =
      let e : (fd == 0) ≡ false = ground arith in rw (e, seeks, writes vector_start) refl

  -- When the file opens on a descriptor above 0 and no seek to its start and no write fails,
  -- writing a filter that holds a vector of its size and a comment returns, and the file is the
  -- header page of the filter with the whole vector after it.
  pub write-written :
      (b : Bloom) (fname vector comment : List ℕ)
      → 0 < fd
      → env.open_new fname ≡ some fd
      → env.lseek_ok fd 0 ≡ true
      → b.vector ≡ some vector
      → b.vector_bytes ≡ length vector
      → b.comment ≡ some comment
      → Returns (write env b fname) λ r. r.1 ≡ written (page_of (info_text b comment) ++ vector)
  unfolding filed write page_of
  write-written b fname vector comment pos opens seeks held sized commented =
      let text = info_text b comment in
      (
        (filed b vector comment (page_of text), written (page_of text ++ vector)),
        ap (λ (c : Bloom). write env c fname)
              (λ i. record b { vector = held i; vector_bytes = sized i; comment = commented i })
            ∙ rw (opens, write)
                (bind-done _ (info_update-filed b vector comment pos seeks)
                  (write_body-written b vector comment text)),
        refl,
      )
