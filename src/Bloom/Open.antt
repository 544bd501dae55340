-- ===== src/Bloom/Open.antt =====
-- `nsrl_bloom_open` of bloom.c. The mode of the file is left out: the vector can be read and written.
pub mod Header
pub mod Trip
use frag_find.Common.{
  ℕ, ◌+◌, ◌-◌, ◌*◌, ◌/◌, ◌%◌, ◌^◌, Bool, true, false, ◌||◌, not, List, [], ◌∷◌, Option, none, some,
  Run, done, exited, fault, out_of_bounds, bad_shift, ◌>>=◌, length, take, drop, ltb, leb, ◌==◌,
  if◌then◌else◌,
}
use frag_find.Common.Text.{codes}
use frag_find.Common.Strings.{text_eq}
use frag_find.Common.Decimal.{atoi}
use frag_find.Bloom.Types.{Bloom, Env}
use frag_find.Bloom.Header.{vector_start}
use frag_find.Bloom.Create.{Written, written, set_params}

-- The C string at the start of a buffer, which runs on past a buffer with no NUL.
unfoldable pub c_string : List ℕ → Run (List ℕ)
c_string [] = fault out_of_bounds
c_string (c ∷ s) =
    let rest = c_string s >>= λ t. done (c ∷ t) in elim (c == 0) [ true ↦ done [] | false ↦ rest ]

-- The lines that `strsep` gives.
unfoldable pub strsep : List ℕ → List ℕ × List (List ℕ)
strsep [] = ([], [])
strsep (c ∷ s) =
    let (line, rest) = strsep s in if c == 10 then ([], line ∷ rest) else (c ∷ line, rest)

-- What stands before and after the first colon.
unfoldable pub split_colon : List ℕ → Option (List ℕ × List ℕ)
split_colon [] = none
split_colon (c ∷ s) =
    if c == b':'
    then some ([], s)
    else elim (split_colon s) [ none ↦ none | some (key, rest) ↦ some (c ∷ key, rest) ]

-- The fields that a line sets, with the version that has been read.
unfoldable pub set_field : List ℕ → List ℕ → Bloom × ℕ → Bloom × ℕ
set_field key after (b, version) =
    if text_eq key (codes "nsrl_bf_version")
    then (b, atoi after)
    else (if text_eq key (codes "hash_bits")
        then (record b { hash_bytes = atoi after / 8 }, version)
        else (if text_eq key (codes "bloom_bits")
            then (record b { m = atoi after }, version)
            else (if text_eq key (codes "k")
                then (record b { k = atoi after }, version)
                else (if text_eq key (codes "added_items")
                    then (record b { added_items = atoi after }, version)
                    else (if text_eq key (codes "unique_added_items")
                        then (record b { unique_added_items = atoi after }, version)
                        else (if text_eq key (codes "aliased_adds")
                            then (record b { aliased_adds = atoi after }, version)
                            else (if text_eq key (codes "comment")
                                then (record b { comment = some after }, version)
                                else (b, version))))))))

unfoldable pub read_fields : List (List ℕ) → Bloom × ℕ → Bloom × ℕ
read_fields [] s = s
read_fields (line ∷ lines) s =
    read_fields lines
      (elim (split_colon line) [ none ↦ s | some (key, after) ↦ set_field key after s ])

unfoldable pub read_header : List ℕ → Bloom → Bloom × ℕ
read_header text b = let (line, rest) = strsep text in read_fields (line ∷ rest) (b, 0)

-- From the checks of the header on. The file is at least as long as the vector, or reading the rest of
-- the vector is out of bounds.
unfoldable pub open_vector : Env → Bloom → ℕ → List ℕ → Run (Bloom × Bool)
open_vector env b version contents =
    if not (version == 2)
    then done (b, false)
    else (if b.hash_bytes == 0 || b.m == 0 || b.k == 0
        then done (b, false)
        else (let n = (b.m + 2 ^ 32 - 3) % 2 ^ 32 in
            if leb 64 n
            then fault bad_shift
            else (if env.mmap_ok (2 ^ n)
                then done (
                  record b {
                    vector_bytes = 2 ^ n;
                    vector = some (take (2 ^ n) (drop vector_start contents));
                    memmapped = true;
                  },
                  true,
                )
                else done (record b { vector_bytes = 2 ^ n; vector = none }, false))))

-- The file is what `open` gives: a descriptor and the contents. The Boolean is whether the C function
-- returns 0.
unfoldable pub open_filter : Env → Bloom → Option (ℕ × List ℕ) → Run (Bloom × Bool)
open_filter env b file = elim file [
  | none ↦ done (record b { fd = 2 ^ 32 - 1 }, false)
  | some (fd, contents) ↦
      let opened = record b { fd = fd; page = take vector_start contents } in
      if ltb (length contents) vector_start then done (opened, false) else (do
        text ← c_string (take vector_start contents)
        let (read, version) = read_header text opened
        b' ← set_params read
        open_vector env b' version contents)
]

-- Opening a file that `nsrl_bloom_write` left.
unfoldable pub reopen : Env → ℕ → Bloom → Written → Run (Bloom × Bool)
unfolding open_filter
reopen env fd b (written contents) = open_filter env b (some (fd, contents))
reopen env fd b _ = open_filter env b none
