-- ===== src/Search/Program/Options.antt =====
-- The command line of frag_find. `getopt` is left out: what it gives is a list of options with their
-- arguments. `read_u64` is `atoi64`.
pub mod Kept
use frag_find.Common.{
  ℕ, ◌+◌, Bool, true, false, List, [], ◌∷◌, Option, none, some, Run, done, exited, ◌>>=◌, ◌==◌,
  if◌then◌else◌,
}
use frag_find.Common.Decimal.{atoi}
use frag_find.Xml.Writer.{Xml, open_xml}

-- The variables that the options set. `xml` is the object of `-x`.
pub record Settings : Type 0 where
  pub opt_start : ℕ
  pub opt_end : ℕ
  pub opt_stats : ℕ
  pub use_bloom : Bool
  pub use_prefilter : Bool
  pub opt_raw : Bool
  pub opt_m : ℕ
  pub blocksize : ℕ
  pub opt_md5 : List ℕ
  pub xml : Option Xml

abbrev pub defaults : Settings
defaults = record {
  opt_start = 0;
  opt_end = 0;
  opt_stats = 0;
  use_bloom = true;
  use_prefilter = false;
  opt_raw = false;
  opt_m = 32;
  blocksize = 512;
  opt_md5 = [];
  xml = none;
}

module _ (read_u64 : List ℕ → ℕ) (opens : List ℕ → Bool) where
  -- `-X`
  unfoldable pub exclude : Settings → ℕ → Run Settings
  exclude s n =
      if n == 1
      then done (record s { use_bloom = false })
      else (if n == 2 then done (record s { use_prefilter = false }) else exited 1)

  -- One option; `opens` says whether the file of `-x` can be written.
  unfoldable pub set_option : Settings → ℕ → List ℕ → Run Settings
  unfolding exclude
  set_option s ch optarg =
      if ch == b's'
      then done (record s { opt_start = read_u64 optarg })
      else (if ch == b'e'
          then done (record s { opt_end = read_u64 optarg })
          else (if ch == b'r'
              then done (record s { opt_raw = true })
              else (if ch == b'b'
                  then done (record s { blocksize = atoi optarg })
                  else (if ch == b'S'
                      then done (record s { opt_stats = s.opt_stats + 1 })
                      else (if ch == b'M'
                          then done (record s { opt_m = atoi optarg })
                          else (if ch == b'm'
                              then done (record s { opt_md5 = optarg })
                              else (if ch == b'X'
                                  then exclude s (atoi optarg)
                                  else (if ch == b'x'
                                      then (open_xml (opens optarg) true >>= λ x.
                                          done (record s { xml = some x }))
                                      else exited 1))))))))

  unfoldable pub set_options : Settings → List (ℕ × List ℕ) → Run Settings
  unfolding set_option
  set_options s [] = done s
  set_options s ((ch, optarg) ∷ options) = set_option s ch optarg >>= λ s'. set_options s' options
