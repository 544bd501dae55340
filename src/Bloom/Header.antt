-- ===== src/Bloom/Header.antt =====
-- The header page of a filter's file: `nsrl_bloom_info` and `nsrl_bloom_info_update` of bloom.c.
use frag_find.Common.{
  ap, Option, ◌≡◌, refl, some, Bool-cases, inl, inr, Returns, ℕ, ◌-◌, ◌*◌, ◌%◌, ◌^◌, Bool, true,
  false, List, ◌++◌, Run, done, ◌>>=◌, length, take, replicate, ◌==◌, if◌then◌else◌, min,
}
use frag_find.Common.Text.{codes, print_u64}
use frag_find.Bloom.Types.{Bloom, Env, deref}

-- BLOOM_VECTOR_OFFSET
abbrev pub vector_start : ℕ
vector_start = 4096

-- The text that `nsrl_bloom_info` formats, before `snprintf` cuts it to its buffer.
unfoldable pub info_text : Bloom → List ℕ → List ℕ
info_text b comment =
    codes "nsrl_bf_version:2\nhash_bits:"
    ++ (print_u64 (b.hash_bytes * 8 % 2 ^ 32)
        ++ (codes "\nbloom_bits:"
            ++ (print_u64 b.m
                ++ (codes "\nk:"
                    ++ (print_u64 b.k
                        ++ (codes "\nadded_items:"
                            ++ (print_u64 b.added_items
                                ++ (codes "\nunique_added_items:"
                                    ++ (print_u64 b.unique_added_items
                                        ++ (codes "\naliased_adds:"
                                            ++ (print_u64 b.aliased_adds
                                                ++ (codes "\ncomment:"
                                                    ++ (comment ++ codes "\n")))))))))))))

unfoldable pub info : Bloom → Run (List ℕ)
info b = deref b.comment >>= λ comment. done (info_text b comment)

-- `snprintf` into a buffer of zeros that is one page long: at most 4095 bytes of the text.
unfoldable pub page_of : List ℕ → List ℕ
page_of text =
    take (vector_start - 1) text
    ++ replicate (vector_start - min (vector_start - 1) (length text)) 0

info-done :
    (b : Bloom) (note : List ℕ) → b.comment ≡ some note → (text : List ℕ) × (info b ≡ done text)
unfolding info
info-done b note e = (
  info_text b note,
  ap (λ (c : Option (List ℕ)). deref c >>= λ comment. done (info_text b comment)) e,
)

module _ (env : Env) where
  -- The result is whether the C function returns 0.
  unfoldable pub info_update : Bloom → Run (Bloom × Bool)
  info_update b =
      if b.fd == 0
      then done (b, true)
      else (info b >>= λ text.
          if env.lseek_ok b.fd 0
          then (if env.write_ok b.fd vector_start
              then done (record b { page = page_of text }, true)
              else done (b, false))
          else done (b, false))

  -- Only the page changes, and a filter with a comment has no fault.
  pub info_update-page :
      (b : Bloom) (note : List ℕ)
      → b.comment ≡ some note
      → Returns (info_update b) λ r. (p : List ℕ) × (r.0 ≡ record b { page = p })
  unfolding info_update
  info_update-page b note e =
      let (text, run) = info-done b note e in
      elim (Bool-cases (b.fd == 0)) [
        | inl closed ↦ ((b, true), rw closed, (b.page, refl))
        | inr opened ↦
            rw (opened, run)
              (elim (Bool-cases (env.lseek_ok b.fd 0)) [
                | inr q ↦ ((b, false), rw q, (b.page, refl))
                | inl q ↦ rw q (elim (Bool-cases (env.write_ok b.fd vector_start)) [
                  | inl w ↦ ((record b { page = page_of text }, true), rw w, (page_of text, refl))
                  | inr w ↦ ((b, false), rw w, (b.page, refl))
                ])
              ])
      ]
