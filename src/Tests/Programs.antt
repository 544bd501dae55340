-- ===== src/Tests/Programs.antt =====
-- Examples for whole runs of the program, and for its input from md5deep.
use frag_find.Common.{
  ℕ, ◌≡◌, refl, true, false, List, [], ◌∷◌, ◌++◌, Option, none, some, done, exited, Returns, arith,
  length, ◌==◌, if◌then◌else◌, inl,
}
use frag_find.Common.Text.{codes}
use frag_find.Common.Decimal.{atoi}
use frag_find.Regex.{Group, Outcome, Engine, Regex, search_groups, substrs, myregex, compile}
use frag_find.Xml.Close.{split_lines}
use frag_find.Regex.Patterns.{check, no_hit}
use frag_find.Regex.Earliest.{hits_of, Finds, check-Finds}
use frag_find.Xml.Writer.{new_xml, open_xml}
use frag_find.Xml.Writer.Sequence.{new_xml-IsDocument}
use frag_find.Xml.Writer.Effects.{IsAt, IsDocument-IsAt, Leaves}
use frag_find.Xml.Environment.Built.{Build}
use frag_find.Xml.Environment.Hosted.{Host, Names, add_dfxml_creator}
use frag_find.Xml.Environment.Nested.{IsKnown, IsPlainBuild, add_dfxml_creator-Leaves}
use frag_find.Search.BlockFile.{File}
use frag_find.Search.Md5deep.{md5deep_parse, read_pieces, Piece, new_reg, read_md5deep}
use frag_find.Search.Md5deep.Lines.{join_between, IsLine, read_md5deep-join_between}
use frag_find.Search.Program.{World, main, read_pieces_if}
use frag_find.Search.Program.Options.{Settings, set_options}
use frag_find.Search.Program.Whole.{IsReadable, IsReported, main-IsReported}
use frag_find.Tests.Data.{
  program, program-GivesDigests, image_file, image_file-IsRegular, master_file,
  master_file-IsRegular,
}

-- A library that matches the one line below, or, for the pattern `e`, the letter at its place.
abbrev engine : Engine
engine = record {
  compiles = λ pat flags. true;
  regexec = λ pat flags text.
      if length text == 48
      then Outcome.matched (
          Group.span 0 48
          ∷ Group.span 0 32
          ∷ Group.span 34 35
          ∷ Group.span 43 44
          ∷ Group.span 45 48
          ∷ [])
      else (if length text == length pat
          then Outcome.matched (Group.span 0 2 ∷ Group.span 1 2 ∷ [])
          else Outcome.failed 1);
}

abbrev line : List ℕ
line = codes "8cfc37aee1b2fcb6843dafa982cc5567  b offset 0-511"

abbrev reg : Regex
reg = record {
  pat = codes "([0-9a-f]{32})  (.*) offset ([0-9]+)-([0-9]+)";
  flags = 1;
  compiled = true;
}

abbrev piece : Piece
piece = record {
  md5hex = codes "8cfc37aee1b2fcb6843dafa982cc5567";
  fname = codes "b";
  start = 0;
  len = 511;
}

line-IsLine : IsLine line
line-IsLine = omega arith

read_md5deep-join_between_example :
    (read_md5deep engine atoi reg (some (join_between line (line ∷ [])))
      ≡ done (piece ∷ piece ∷ []))
    × (read_md5deep engine atoi reg (some (join_between line (line ∷ []) ++ 10 ∷ [])) ≡ exited 1)
unfolding md5deep_parse search_groups substrs atoi
read_md5deep-join_between_example =
    read_md5deep-join_between engine atoi reg 1 line (line ∷ []) (piece ∷ piece ∷ []) refl
      (line-IsLine, (line-IsLine, tt)) (refl, (refl, tt))

abbrev first : Regex
first = record { pat = codes "abc"; flags = 1; compiled = true }

check-Finds_example :
    Finds
      (hits_of engine (reg ∷ first ∷ []) (codes "xyz"))
      no_hit
      (check engine (reg ∷ first ∷ []) (codes "xyz") no_hit)
check-Finds_example = check-Finds engine (reg ∷ first ∷ []) (codes "xyz") no_hit

abbrev build : Build
build = record {
  gnuc = some (4, 2);
  cppflags = none;
  cflags = some (codes "-O3");
  cxxflags = none;
  ldflags = none;
  libs = none;
  compiled = none;
  boost = none;
  tsk = some (codes "4.0");
  afflib = none;
  libewf = none;
  exiv2 = none;
  tre = none;
}

abbrev host : Host
host = record {
  cpuid = none;
  names = Names.utsname none;
  uid = some 1000;
  username = none;
  start_time = codes "2011-01-01T00:00:00Z";
}

build-IsPlainBuild : IsPlainBuild build
build-IsPlainBuild = record {
  tsk = (refl, (refl, (refl, tt)));
  afflib = tt;
  libewf = tt;
  exiv2 = tt;
  tre = tt;
}

host-IsKnown : IsKnown host
host-IsKnown = (tt, λ e. cc)

new_xml-IsAt : IsAt [] new_xml
new_xml-IsAt = IsDocument-IsAt [] new_xml new_xml-IsDocument refl

add_dfxml_creator-Leaves_example :
    Leaves [] (add_dfxml_creator new_xml build host (codes "a") (codes "1") [] (codes "a b"))
add_dfxml_creator-Leaves_example =
    add_dfxml_creator-Leaves [] new_xml build host (codes "a") (codes "1") [] (codes "a b")
      new_xml-IsAt build-IsPlainBuild host-IsKnown

-- Files that start with `i` are the image, and the others the master file.
abbrev open_file : List ℕ → Option File
open_file [] = none
open_file (c ∷ name) = if c == b'i' then some image_file else some master_file

abbrev world : World
world = record {
  engine = engine;
  read_u64 = atoi;
  opens = λ name. true;
  read_text = λ name. some line;
  open_file = open_file;
  about = record {
    version = codes "1.0";
    build = build;
    host = host;
    command_line = codes "frag_find -b4 -M5 -xo -mp i m";
  };
}

abbrev arguments : List (ℕ × List ℕ)
arguments = (b'b', codes "4") ∷ (b'M', codes "5") ∷ (b'x', codes "o") ∷ (b'm', codes "p") ∷ []

abbrev settings : Settings
settings = record {
  opt_start = 0;
  opt_end = 0;
  opt_stats = 0;
  use_bloom = true;
  use_prefilter = false;
  opt_raw = false;
  opt_m = 5;
  blocksize = 4;
  opt_md5 = codes "p";
  xml = some new_xml;
}

world-IsReadable : IsReadable program world settings image_file (master_file ∷ [])
world-IsReadable = record {
  allowed = record {
    lo = omega arith;
    hi = omega arith;
    wide = omega arith;
    word = omega arith;
    memory = refl;
    room = refl;
    off = refl;
  };
  regular = image_file-IsRegular;
  large = omega arith;
  narrow = omega arith;
  masters = (
    record {
      regular = master_file-IsRegular;
      fits = omega arith;
      few = omega arith;
      again = refl;
      maps = refl;
    },
    tt,
  );
  covered = (inl refl, tt);
  plain = build-IsPlainBuild;
  known = host-IsKnown;
}

main-IsReported_example :
    Returns
      (main program world arguments (codes "i" ∷ codes "m" ∷ []))
      (IsReported program world settings image_file (master_file ∷ []))
unfolding new_reg myregex compile set_options open_xml atoi read_pieces_if read_md5deep read_pieces
    search_groups split_lines substrs
main-IsReported_example =
    main-IsReported program world program-GivesDigests arguments settings (codes "i") (codes "m") []
      image_file master_file [] reg (piece ∷ []) refl refl refl refl refl world-IsReadable
