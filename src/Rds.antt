-- ===== src/Rds.antt =====
-- src/nsrl_bloom_creator.cpp: the lines of the NIST RDS file, and its reading through a buffer. The
-- library of regular expressions is the parameter `engine`. What is printed is left out.
pub mod File
use frag_find.Common.{
  ℕ, zero, suc, ◌-◌, List, [], ◌∷◌, Option, none, some, Run, done, exited, fault, out_of_bounds,
  ◌>>=◌, take, drop, bit_or, if◌then◌else◌,
}
use frag_find.Common.Text.{codes}
use frag_find.Common.Decimal.{atoi}
use frag_find.Rds.File.{RdsFile, open_rds, getline, nextline}
use frag_find.Regex.{Group, unset, span, matched, failed, Engine, group_at}

-- `RDS_File_Entry`; the numbers are patterns of an `int`.
pub record RdsFileEntry : Type 0 where
  pub sha1_hex : List ℕ
  pub md5_hex : List ℕ
  pub crc32_hex : List ℕ
  pub file_name : List ℕ
  pub file_size : ℕ
  pub product_code : ℕ
  pub op_system_code : List ℕ
  pub special_code : List ℕ

abbrev pub rds_pattern : List ℕ
rds_pattern =
    codes
      "^\"([0-9A-F]{40})\",\"([0-9A-F]{32})\",\"([0-9A-F]{8})\",\"([^\"]+)\",([0-9]+),([0-9]+),\"([^\"]+)\",\"(^\")*\""

-- `string(linebuf+rm_so,rm_eo-rm_so)`; a group that is not set has the address before the line.
unfoldable pub group_text : List ℕ → Group → Run (List ℕ)
group_text line unset = fault out_of_bounds
group_text line (span so eo) = done (take (eo - so) (drop so line))

-- `atoi(linebuf+rm_so)`
unfoldable pub group_number : List ℕ → Group → Run ℕ
group_number line unset = fault out_of_bounds
group_number line (span so eo) = done (atoi (drop so line))

module _ (engine : Engine) where
  -- The constructor, with the numbers that are in its memory; they stay if the line does not match.
  unfoldable pub parse_line : ℕ → ℕ → List ℕ → Run RdsFileEntry
  unfolding group_text group_number
  parse_line file_size product_code line =
      if engine.compiles rds_pattern 1
      then elim (engine.regexec rds_pattern 1 line) [
        | failed code ↦ done (record {
          sha1_hex = [];
          md5_hex = [];
          crc32_hex = [];
          file_name = [];
          file_size = file_size;
          product_code = product_code;
          op_system_code = [];
          special_code = [];
        })
        | matched groups ↦ do
          sha1_hex ← group_text line (group_at groups 1)
          md5_hex ← group_text line (group_at groups 2)
          crc32_hex ← group_text line (group_at groups 3)
          file_name ← group_text line (group_at groups 4)
          size ← group_number line (group_at groups 5)
          code ← group_number line (group_at groups 6)
          op_system_code ← group_text line (group_at groups 7)
          special_code ← group_text line (group_at groups 8)
          done (record {
            sha1_hex = sha1_hex;
            md5_hex = md5_hex;
            crc32_hex = crc32_hex;
            file_name = file_name;
            file_size = size;
            product_code = code;
            op_system_code = op_system_code;
            special_code = special_code;
          })
      ]
      else exited 1

  -- The loop of `main`.
  unfoldable pub parse_lines : ℕ → ℕ → ℕ → RdsFile → Run (List RdsFileEntry)
  unfolding parse_line
  parse_lines zero file_size product_code r = done []
  parse_lines (suc n) file_size product_code r = do
    (r, line) ← nextline r
    entry ← parse_line file_size product_code line
    entries ← parse_lines n file_size product_code r
    done (entry ∷ entries)

  -- `main`, with the memory of the buffer and of the numbers, and the second argument.
  unfoldable pub print_entries : List ℕ → List ℕ → ℕ → ℕ → List ℕ → Run (List RdsFileEntry)
  unfolding parse_lines
  print_entries contents memory file_size product_code argument = do
    (r, line) ← getline (open_rds contents memory) (atoi argument)
    entry ← parse_line file_size product_code line
    entries ← parse_lines 10000 file_size product_code r
    done (entry ∷ entries)
