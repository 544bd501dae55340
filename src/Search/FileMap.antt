-- ===== src/Search/FileMap.antt =====
-- `blocklist_t` and `filemap_t` of frag_find.cpp.
-- A block number is the 64-bit pattern that `int64_t` and `uint64_t` share.
pub mod Clean
pub mod Runs
use frag_find.Common.{
  ℕ, zero, suc, ◌+◌, ◌-◌, ◌%◌, ◌^◌, Bool, true, false, ◌&&◌, ◌||◌, List, [], ◌∷◌, ltb, ◌==◌,
  if◌then◌else◌, length, drop,
}

abbrev pub BlockList : Type 0
BlockList = List ℕ

abbrev pub FileMap : Type 0
FileMap = List BlockList

unfoldable pub contains : BlockList → ℕ → Bool
contains [] block = false
contains (i ∷ is) block = i == block || contains is block

-- The test and the body of the first loop of `clean`: `prev` is the element at `b-1`, `cur` that at
-- `b`.
unfoldable pub align_next : BlockList → BlockList → BlockList
align_next (p ∷ []) (c₀ ∷ c₁ ∷ cs) =
    let predicted = (p + 1) % 2 ^ 64 in
    if contains (c₀ ∷ c₁ ∷ cs) predicted then predicted ∷ [] else c₀ ∷ c₁ ∷ cs
align_next prev cur = cur

-- `for(b=1;b<size;b++)`, in place: `prev` is what the loop left at `b-1`.
unfoldable pub clean_forward_from : BlockList → FileMap → FileMap
clean_forward_from prev [] = []
clean_forward_from prev (cur ∷ rest) =
    let cur' = align_next prev cur in cur' ∷ clean_forward_from cur' rest

unfoldable pub clean_forward : FileMap → FileMap
unfolding clean_forward_from align_next
clean_forward [] = []
clean_forward (first ∷ rest) = first ∷ clean_forward_from first rest

-- The body of the second loop: `next` is the element at `b+1`.
unfoldable pub align_previous : BlockList → BlockList → BlockList
align_previous (p ∷ []) (c₀ ∷ c₁ ∷ cs) =
    let predicted = (p + 2 ^ 64 - 1) % 2 ^ 64 in
    if contains (c₀ ∷ c₁ ∷ cs) predicted then predicted ∷ [] else c₀ ∷ c₁ ∷ cs
align_previous next cur = cur

align_before : FileMap → BlockList → BlockList
align_before [] cur = cur
align_before (next ∷ rest) cur = align_previous next cur

-- `for(b=size-2;b>=0;b--)`, in place: the tail is done before the head.
unfoldable pub clean_backward : FileMap → FileMap
unfolding align_previous align_before
clean_backward [] = []
clean_backward (cur ∷ rest) = let done = clean_backward rest in align_before done cur ∷ done

unfoldable pub clean : FileMap → FileMap
unfolding clean_forward clean_backward
clean map = clean_backward (clean_forward map)

-- The elements from `master_block + len` on, as long as each contains its block of the image.
unfoldable pub runlen_from : FileMap → ℕ → ℕ → ℕ
runlen_from [] image_block len = len
runlen_from (cur ∷ rest) image_block len =
    let further = runlen_from rest image_block (len + 1) in
    if contains cur ((image_block + len) % 2 ^ 64) then further else len

unfoldable pub runlen : FileMap → ℕ → ℕ → ℕ
unfolding runlen_from
runlen map master_block image_block = runlen_from (drop (suc master_block) map) image_block 1

unfoldable pub found_count : FileMap → ℕ
found_count [] = 0
found_count ([] ∷ rest) = found_count rest
found_count ((i ∷ is) ∷ rest) = found_count rest + 1
