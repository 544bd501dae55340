-- ===== src/Tests/Filters.antt =====
-- Examples for the filter.
use frag_find.Common.{
  ℕ, ◌+◌, ◌%◌, ◌^◌, ◌≤◌, ◌≡◌, refl, true, ◌||◌, inl, [], ◌∷◌, ◌++◌, none, done, ◌>>=◌, Returns,
  arith, length, length-replicate,
}
use frag_find.Bloom.Types.{blank}
use frag_find.Bloom.Header.{info_text, page_of}
use frag_find.Bloom.Create.{create, write, written}
use frag_find.Bloom.Create.Files.{write-written}
use frag_find.Bloom.Create.Memory.{IsNew, create-IsNew}
use frag_find.Bloom.Filter.{add, query}
use frag_find.Bloom.Filter.Laws.{Adds, present, view, add-Adds, query_lem}
use frag_find.Bloom.Filter.Sequence.{
  add_all, some_bit, Follows, AreLong, add_all-bits, add_all-query,
}
use frag_find.Bloom.Usage.{nsrl_calc_histogram, bitcount, nsrl_bloom_utilization}
use frag_find.Bloom.Usage.Counts.{nsrl_calc_histogram-nsrl_bloom_utilization}
use frag_find.Tests.Data.{env, filter, filter-IsValid, first_hash, second_hash}

long_hash : 16 ≡ length first_hash
long_hash = omega (arith, length-replicate {A = ℕ} 14 0)

first_hash-IsLong : 16 ≤ length first_hash
first_hash-IsLong = omega (arith, length-replicate {A = ℕ} 14 0)

both-AreLong : AreLong 16 (second_hash ∷ first_hash ∷ [])
both-AreLong = (
  omega (arith, length-replicate {A = ℕ} 14 0),
  (omega (arith, length-replicate {A = ℕ} 14 0), tt),
)

add_all-query_example :
    Returns
      (add_all env filter ((second_hash ∷ []) ++ first_hash ∷ []) >>= λ b. query env b first_hash)
      λ r. r.1 ≡ true
add_all-query_example =
    add_all-query env (second_hash ∷ []) first_hash [] filter filter-IsValid refl both-AreLong
      (omega (arith, length-replicate {A = ℕ} 14 0))

add_all-bits_example : Returns (add_all env filter (second_hash ∷ first_hash ∷ [])) λ b.
    Follows filter b
    × ((v : ℕ) → view b v ≡ (view filter v || some_bit filter (second_hash ∷ first_hash ∷ []) v))
add_all-bits_example =
    add_all-bits env (second_hash ∷ first_hash ∷ []) filter filter-IsValid refl both-AreLong

add-Adds_example : Returns (add env filter first_hash) (Adds filter first_hash)
add-Adds_example = add-Adds env filter first_hash filter-IsValid refl first_hash-IsLong

query_lem_example :
    query env filter first_hash
    ≡ done (
      record filter { hits = (filter.hits + 1) % 2 ^ 64; lookups = filter.lookups + 1 },
      present filter first_hash,
    )
query_lem_example = query_lem env filter first_hash filter-IsValid refl first_hash-IsLong

create-IsNew_example :
    Returns (create env blank none 128 10 4 (105 ∷ [])) λ r. (r.1 ≡ true) × IsNew 10 4 128 r.0
create-IsNew_example =
    create-IsNew 128 10 4 (105 ∷ []) (inl refl) (omega arith) (omega arith) env (omega arith) refl

write-written_example :
    Returns
      (write env filter (98 ∷ []))
      λ r. r.1 ≡ written (page_of (info_text filter []) ++ 0 ∷ [])
write-written_example =
    write-written env 3 (λ n. refl) filter (98 ∷ []) (0 ∷ []) [] (omega arith) refl refl refl refl
      refl

nsrl_calc_histogram-nsrl_bloom_utilization_example :
    (nsrl_calc_histogram filter >>= λ counts. done (bitcount counts))
    ≡ (nsrl_bloom_utilization filter >>= λ used. done used.0)
nsrl_calc_histogram-nsrl_bloom_utilization_example =
    nsrl_calc_histogram-nsrl_bloom_utilization filter filter-IsValid (omega arith)
