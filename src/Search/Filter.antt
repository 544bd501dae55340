-- ===== src/Search/Filter.antt =====
-- The bloom filter as its client frag_find sees it: one that grows, with no key, for MD5 digests.
use frag_find.Common.{
  ℕ, ◌+◌, ◌%◌, ◌^◌, ◌≤◌, ◌≡◌, refl, sym, ◌∙◌, true, List, none, Returns, length, arith,
}
use frag_find.Bloom.Types.{Bloom, Env}
use frag_find.Bloom.Filter.{add, query}
use frag_find.Bloom.Filter.Laws.{IsValid, view, present, add-Adds, query_lem, present_iff}
use frag_find.Bloom.Filter.Sequence.{bit_of-Follows}

-- A valid filter with no key that splits at most the 16 bytes of an MD5 digest.
pub record IsReady (b : Bloom) : Type 0 where
  pub valid : IsValid b
  pub keyless : b.key ≡ none
  pub short : b.hash_bytes ≤ 16

-- `b'` is ready and has every bit of `b`.
pub record Extends (b b' : Bloom) : Type 0 where
  pub ready : IsReady b'
  pub same_m : b'.m ≡ b.m
  pub same_k : b'.k ≡ b.k
  pub keeps : (v : ℕ) → view b v ≡ true → view b' v ≡ true

pub Extends-refl : {b : Bloom} → IsReady b → Extends b b
Extends-refl r = record { ready = r; same_m = refl; same_k = refl; keeps = λ v h. h }

pub Extends-trans : {a b c : Bloom} → Extends a b → Extends b c → Extends a c
Extends-trans p q = record {
  ready = q.ready;
  same_m = q.same_m ∙ p.same_m;
  same_k = q.same_k ∙ p.same_k;
  keeps = λ v h. q.keeps v (p.keeps v h);
}

-- What is present stays present.
pub present-Extends :
    {b b' : Bloom} (h : List ℕ)
    → IsReady b
    → Extends b b'
    → present b h ≡ true
    → present b' h ≡ true
present-Extends {b} {b'} h r e p = (present_iff b' h e.ready.valid).1 λ v q.
    e.keeps v
      ((present_iff b h r.valid).0 p v (sym (bit_of-Follows b b' h v e.same_m e.same_k) ∙ q))

module _ (env : Env) (b : Bloom) (h : List ℕ) (r : IsReady b) (long : length h ≡ 16) where
  enough : b.hash_bytes ≤ length h
  enough = omega (arith, r.short)

  -- A digest is present after it is added, and nothing is lost.
  pub add-Extends : Returns (add env b h) λ b'. Extends b b' × (present b' h ≡ true)
  add-Extends =
      let (b', run, a) = add-Adds env b h r.valid r.keyless enough in
      (
        b',
        run,
        (
          record {
            ready = record {
              valid = a.valid;
              keyless = a.same_key ∙ r.keyless;
              short = rw a.same_hash_bytes r.short;
            };
            same_m = a.same_m;
            same_k = a.same_k;
            keeps = λ v q. a.bits v ∙ rw q refl;
          },
          (present_iff b' h a.valid).1 (λ v q.
              a.bits v ∙ rw (sym (bit_of-Follows b b' h v a.same_m a.same_k) ∙ q) (ground arith)),
        ),
      )

  -- A query answers whether the digest is present, and loses nothing.
  pub query-Extends : Returns (query env b h) λ c. Extends b c.0 × (c.1 ≡ present b h)
  unfolding view
  query-Extends = (
    (record b { hits = (b.hits + 1) % 2 ^ 64; lookups = b.lookups + 1 }, present b h),
    query_lem env b h r.valid r.keyless enough,
    (
      record {
        ready = record {
          valid = record {
            bits = r.valid.bits;
            note = r.valid.note;
            held = r.valid.held;
            commented = r.valid.commented;
            room = r.valid.room;
            sized = r.valid.sized;
            bytes = r.valid.bytes;
            wide = r.valid.wide;
            reads = r.valid.reads;
            word = r.valid.word;
          };
          keyless = r.keyless;
          short = r.short;
        };
        same_m = refl;
        same_k = refl;
        keeps = λ v q. q;
      },
      refl,
    ),
  )
