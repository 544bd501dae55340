-- ===== src/Bloom/Open/Header.antt =====
-- The header page that is written is read back line by line.
use mathlib.Core.Path.{subst}
use frag_find.Common.{
  ℕ, zero, suc, ◌-◌, ◌*◌, ◌/◌, ◌%◌, ◌^◌, ◌≤◌, ◌<◌, ◌≡◌, ◌≢◌, refl, sym, ◌∙◌, ap, false, List, [],
  ◌∷◌, ◌++◌, some, done, bind-done, length, take, replicate, min, All, All-append, ◌==◌, arith,
}
use frag_find.Common.Text.{codes, decimal, print_u64}
use frag_find.Common.Strings.{text_eq}
use frag_find.Common.Decimal.{atoi, atoi-print_u64, decimal-IsDigit, IsDigit}
use frag_find.Bloom.Types.{Bloom}
use frag_find.Bloom.Header.{info_text, page_of, vector_start}
use frag_find.Bloom.Open.{c_string, strsep, split_colon, set_field, read_fields, read_header}

-- A character of a line.
abbrev pub IsPlain : ℕ → Type 0
IsPlain c = (c ≢ 0) × (c ≢ 10)

join : List (List ℕ) → List ℕ
join [] = []
join (l ∷ ls) = l ++ 10 ∷ join ls

all_lines : List ℕ → List (List ℕ)
all_lines s = (strsep s).0 ∷ (strsep s).1

all_lines-line : (l rest : List ℕ) → All IsPlain l → all_lines (l ++ 10 ∷ rest) ≡ l ∷ all_lines rest
unfolding all_lines strsep
all_lines-line [] rest h = refl
all_lines-line (c ∷ l) rest h =
    let ih = all_lines-line l rest h.1 in
    let e : (c == 10) ≡ false = ground arith in
    rw e (ap (λ (ls : List (List ℕ)). push_first c ls) ih)
  where
    push_first : ℕ → List (List ℕ) → List (List ℕ)
    push_first d [] = []
    push_first d (m ∷ ms) = (d ∷ m) ∷ ms

all_lines-join :
    (ls : List (List ℕ)) → All (λ l. All IsPlain l) ls → all_lines (join ls) ≡ ls ++ [] ∷ []
unfolding join
all_lines-join [] h = unfold all_lines strsep in refl
all_lines-join (l ∷ ls) h =
    all_lines-line l (join ls) h.0 ∙ ap (λ (ms : List (List ℕ)). l ∷ ms) (all_lines-join ls h.1)

abbrev pub NoNul : List ℕ → Type 0
NoNul s = All (λ c. c ≢ 0) s

pub c_string-NoNul : (s rest : List ℕ) → NoNul s → c_string (s ++ 0 ∷ rest) ≡ done s
unfolding c_string
c_string-NoNul [] rest h = refl
c_string-NoNul (c ∷ s) rest h =
    let e : (c == 0) ≡ false = ground arith in
    rw (e, c_string) (bind-done _ (c_string-NoNul s rest h.1) refl)

plain-NoNul : (s : List ℕ) → All IsPlain s → NoNul s
plain-NoNul [] h = tt
plain-NoNul (c ∷ s) h = (h.0.0, plain-NoNul s h.1)

join-NoNul : (ls : List (List ℕ)) → All (λ l. All IsPlain l) ls → NoNul (join ls)
unfolding join
join-NoNul [] h = tt
join-NoNul (l ∷ ls) h =
    All-append (λ c. c ≢ 0) l (10 ∷ join ls) (plain-NoNul l h.0) (omega arith, join-NoNul ls h.1)

-- The lines of a filter's header.
header_lines : Bloom → List ℕ → List (List ℕ)
header_lines c comment =
    codes "nsrl_bf_version:2"
    ∷ (codes "hash_bits:" ++ print_u64 (c.hash_bytes * 8 % 2 ^ 32))
    ∷ (codes "bloom_bits:" ++ print_u64 c.m)
    ∷ (codes "k:" ++ print_u64 c.k)
    ∷ (codes "added_items:" ++ print_u64 c.added_items)
    ∷ (codes "unique_added_items:" ++ print_u64 c.unique_added_items)
    ∷ (codes "aliased_adds:" ++ print_u64 c.aliased_adds)
    ∷ (codes "comment:" ++ comment)
    ∷ []

info_text-join :
    (c : Bloom) (comment : List ℕ) → info_text c comment ≡ join (header_lines c comment)
unfolding info_text join header_lines
info_text-join c comment = refl

digits-IsPlain : (s : List ℕ) → All IsDigit s → All IsPlain s
digits-IsPlain [] h = tt
digits-IsPlain (c ∷ s) h = ((omega (arith, h.0), omega (arith, h.0)), digits-IsPlain s h.1)

print_u64-IsPlain : (n : ℕ) → All IsPlain (print_u64 n)
unfolding print_u64
print_u64-IsPlain n = digits-IsPlain (decimal 20 n) (decimal-IsDigit 20 n)

field-IsPlain : (key : List ℕ) (n : ℕ) → All IsPlain key → All IsPlain (key ++ print_u64 n)
field-IsPlain key n h = All-append IsPlain key (print_u64 n) h (print_u64-IsPlain n)

header_lines-IsPlain :
    (c : Bloom) (comment : List ℕ)
    → All IsPlain comment
    → All (λ l. All IsPlain l) (header_lines c comment)
unfolding header_lines
header_lines-IsPlain c comment h = (
  omega arith,
  (
    field-IsPlain (codes "hash_bits:") (c.hash_bytes * 8 % 2 ^ 32) (omega arith),
    (
      field-IsPlain (codes "bloom_bits:") c.m (omega arith),
      (
        field-IsPlain (codes "k:") c.k (omega arith),
        (
          field-IsPlain (codes "added_items:") c.added_items (omega arith),
          (
            field-IsPlain (codes "unique_added_items:") c.unique_added_items (omega arith),
            (
              field-IsPlain (codes "aliased_adds:") c.aliased_adds (omega arith),
              (All-append IsPlain (codes "comment:") comment (omega arith) h, tt),
            ),
          ),
        ),
      ),
    ),
  ),
)

pub take-all : (n : ℕ) (xs : List ℕ) → length xs ≤ n → take n xs ≡ xs
take-all zero [] h = refl
take-all zero (x ∷ xs) h = absurd (omega arith)
take-all (suc n) [] h = refl
take-all (suc n) (x ∷ xs) h = ap (λ (t : List ℕ). x ∷ t) (take-all n xs (omega arith))

-- A page is its text, a NUL, and more of them.
page_of-text :
    (text : List ℕ)
    → length text ≤ 4095
    → page_of text ≡ text ++ 0 ∷ replicate (4095 - length text) 0
unfolding page_of
page_of-text text h =
    let e : vector_start - min (vector_start - 1) (length text) ≡ suc (4095 - length text) =
      omega arith in
    rw (e, take-all 4095 text h) refl

-- The C string of the page of a filter is its header.
pub c_string-page_of :
    (c : Bloom) (comment : List ℕ)
    → All IsPlain comment
    → length (info_text c comment) ≤ 4095
    → c_string (page_of (info_text c comment)) ≡ done (info_text c comment)
c_string-page_of c comment plain short =
    ap c_string (page_of-text (info_text c comment) short)
    ∙ c_string-NoNul (info_text c comment) _ (
        subst NoNul (sym (info_text-join c comment))
          (join-NoNul (header_lines c comment) (header_lines-IsPlain c comment plain)))

-- The fields that a header sets.
abbrev pub with_fields : Bloom → List ℕ → Bloom → Bloom
with_fields c comment o = record o {
  hash_bytes = c.hash_bytes;
  m = c.m;
  k = c.k;
  added_items = c.added_items;
  unique_added_items = c.unique_added_items;
  aliased_adds = c.aliased_adds;
  comment = some comment;
}

-- The numbers of a filter that `atoi` reads.
pub record FitsHeader (c : Bloom) : Type 0 where
  pub hash : c.hash_bytes * 8 < 2 ^ 32
  pub m : c.m < 2 ^ 32
  pub k : c.k < 2 ^ 32
  pub added : c.added_items < 2 ^ 32
  pub unique : c.unique_added_items < 2 ^ 32
  pub aliased : c.aliased_adds < 2 ^ 32

read_fields-header :
    (c o : Bloom) (comment : List ℕ)
    → read_fields (header_lines c comment ++ [] ∷ []) (o, 0) ≡ (
      record o {
        hash_bytes = atoi (print_u64 (c.hash_bytes * 8 % 2 ^ 32)) / 8;
        m = atoi (print_u64 c.m);
        k = atoi (print_u64 c.k);
        added_items = atoi (print_u64 c.added_items);
        unique_added_items = atoi (print_u64 c.unique_added_items);
        aliased_adds = atoi (print_u64 c.aliased_adds);
        comment = some comment;
      },
      2,
    )
unfolding header_lines read_fields split_colon set_field text_eq atoi
read_fields-header c o comment = refl

-- The header of a filter sets the fields of the filter.
pub read_header-info_text :
    (c o : Bloom) (comment : List ℕ)
    → FitsHeader c
    → All IsPlain comment
    → read_header (info_text c comment) o ≡ (with_fields c comment o, 2)
unfolding read_header all_lines
read_header-info_text c o comment fits plain =
    ap (λ (ls : List (List ℕ)). read_fields ls (o, 0))
      (ap all_lines (info_text-join c comment)
        ∙ all_lines-join (header_lines c comment) (header_lines-IsPlain c comment plain))
    ∙ read_fields-header c o comment
    ∙ rw
        (
          atoi-print_u64 (c.hash_bytes * 8 % 2 ^ 32) (omega arith),
          atoi-print_u64 c.m fits.m,
          atoi-print_u64 c.k fits.k,
          atoi-print_u64 c.added_items fits.added,
          atoi-print_u64 c.unique_added_items fits.unique,
          atoi-print_u64 c.aliased_adds fits.aliased,
        )
        (let e : c.hash_bytes * 8 % 2 ^ 32 / 8 ≡ c.hash_bytes = omega (arith, fits.hash) in
          rw e refl)
