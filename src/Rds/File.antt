-- ===== src/Rds/File.antt =====
-- `RDSFile`, for a file that opens on a descriptor above 0. Its reads and seeks do not fail.
pub mod Slices
pub mod Lines
pub mod Sequence
use frag_find.Common.{
  ℕ, zero, suc, ◌+◌, ◌-◌, ◌*◌, Bool, true, false, not, ◌&&◌, ◌||◌, List, [], ◌∷◌, ◌++◌, Run, done,
  fault, out_of_bounds, ◌>>=◌, length, get_or, take, drop, min, ltb, leb, ◌==◌, if◌then◌else◌,
}

-- `contents` is what the descriptor reads, and `len` its length.
pub record RdsFile : Type 0 where
  pub contents : List ℕ
  pub buf : List ℕ
  pub buf0 : ℕ
  pub buflen : ℕ
  pub next_line : ℕ
  pub len : ℕ

-- With the memory of `buf`, of 1024 characters.
unfoldable pub open_rds : List ℕ → List ℕ → RdsFile
open_rds contents memory = record {
  contents = contents;
  buf = memory;
  buf0 = 0;
  buflen = 0;
  next_line = 0;
  len = length contents;
}

unfoldable pub is_end : ℕ → Bool
is_end c = c == 10 || c == 13

unfoldable pub has_end : List ℕ → Bool
unfolding is_end
has_end [] = false
has_end (c ∷ s) = is_end c || has_end s

-- Reading a page; a start past the end of the file would ask for a negative number of bytes.
unfoldable pub fetch : RdsFile → ℕ → Run RdsFile
fetch r offset =
    let buf0 = if ltb 512 offset then offset - 512 else 0 in
    let buflen = min 1024 (r.len - buf0) in
    if ltb r.len buf0
    then fault out_of_bounds
    else done (record r {
      buf = take buflen (drop buf0 r.contents) ++ drop buflen r.buf;
      buf0 = buf0;
      buflen = buflen;
    })

unfoldable pub load_buffer : RdsFile → ℕ → Run RdsFile
unfolding fetch has_end
load_buffer r offset =
    if leb r.buf0 offset
      && ltb offset (r.buf0 + r.buflen)
      && has_end (drop (offset - r.buf0) (take r.buflen r.buf))
    then done r
    else fetch r offset

-- `while(line_start>1 && ...) line_start--`
unfoldable pub start_of_line : List ℕ → ℕ → ℕ
unfolding is_end
start_of_line buf zero = zero
start_of_line buf (suc k) =
    let before = start_of_line buf k in
    if ltb 1 (suc k) && not (is_end (get_or buf k 0)) then before else suc k

-- The line up to its end, or that of the buffer: what stands at its place.
unfoldable pub line_of : List ℕ → List ℕ
unfolding is_end
line_of [] = []
line_of (c ∷ s) = let rest = line_of s in if is_end c then [] else c ∷ rest

-- How many characters end the line.
unfoldable pub ends_of_line : List ℕ → ℕ
unfolding is_end
ends_of_line [] = 0
ends_of_line (c ∷ s) = let rest = ends_of_line s in if is_end c then suc rest else 0

-- `getline`, with the line that contains the offset.
unfoldable pub getline : RdsFile → ℕ → Run (RdsFile × List ℕ)
unfolding load_buffer start_of_line line_of ends_of_line
getline r offset = do
  r ← load_buffer r offset
  let line_start = start_of_line r.buf (offset - r.buf0)
  let after = line_of (drop (offset - r.buf0) (take r.buflen r.buf))
  let line_end = offset - r.buf0 + length after
  let next_line = line_end + r.buf0 + ends_of_line (drop line_end (take r.buflen r.buf))
  done (record r { next_line = next_line }, take (line_end - line_start) (drop line_start r.buf))

unfoldable pub nextline : RdsFile → Run (RdsFile × List ℕ)
unfolding getline
nextline r = getline r r.next_line

-- The loop of `main` over the lines.
unfoldable pub nextlines : ℕ → RdsFile → Run (RdsFile × List (List ℕ))
unfolding nextline
nextlines zero r = done (r, [])
nextlines (suc n) r = do (r, line) ← nextline r; (r, lines) ← nextlines n r; done (r, line ∷ lines)
