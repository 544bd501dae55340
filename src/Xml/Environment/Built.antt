-- ===== src/Xml/Environment/Built.antt =====
-- `xml::add_DFXML_build_environment`, which describes the program.
use frag_find.Common.{ℕ, false, List, [], ◌∷◌, ◌++◌, Option, some, Run, ◌>>=◌}
use frag_find.Common.Text.{codes, print_u64}
use frag_find.Xml.Writer.{Xml, push, pop, xmlout, xmlprintf}
use frag_find.Xml.Environment.{optional, xmlout_text}

-- `__GNUC__` and `__GNUC_MINOR__`, the flags, the date of `strptime` with `__TIME__`, and the versions of
-- the libraries.
pub record Build : Type 0 where
  pub gnuc : Option (ℕ × ℕ)
  pub cppflags : Option (List ℕ)
  pub cflags : Option (List ℕ)
  pub cxxflags : Option (List ℕ)
  pub ldflags : Option (List ℕ)
  pub libs : Option (List ℕ)
  pub compiled : Option (List ℕ)
  pub boost : Option ℕ
  pub tsk : Option (List ℕ)
  pub afflib : Option (List ℕ)
  pub libewf : Option (List ℕ)
  pub exiv2 : Option (List ℕ)
  pub tre : Option (List ℕ)

-- `name="NAME" version="VERSION"`
unfoldable pub library_attribute : List ℕ → List ℕ → List ℕ
library_attribute name version =
    codes "name=\"" ++ (name ++ (codes "\" version=\"" ++ (version ++ codes "\"")))

unfoldable pub write_library : Xml → List ℕ → List ℕ → List ℕ → Run Xml
write_library x tag name version = xmlout x tag [] (library_attribute name version) false

unfoldable pub add_dfxml_build_environment : Xml → Build → Run Xml
add_dfxml_build_environment x b = do
  x ← push x (codes "build_environment") []
  x ←
      optional b.gnuc
        (λ v.
          xmlprintf x (codes "compiler") []
            (some (codes "GCC " ++ (print_u64 v.0 ++ (b'.' ∷ print_u64 v.1)))))
        x
  x ← optional b.cppflags (λ v. xmlout_text x (codes "CPPFLAGS") v) x
  x ← optional b.cflags (λ v. xmlout_text x (codes "CFLAGS") v) x
  x ← optional b.cxxflags (λ v. xmlout_text x (codes "CXXFLAGS") v) x
  x ← optional b.ldflags (λ v. xmlout_text x (codes "LDFLAGS") v) x
  x ← optional b.libs (λ v. xmlout_text x (codes "LIBS") v) x
  x ← optional b.compiled (λ v. xmlout_text x (codes "compilation_date") v) x
  x ← optional b.boost (λ v. write_library x (codes "library") (codes "boost") (print_u64 v)) x
  x ← optional b.tsk (λ v. write_library x (codes "library") (codes "tsk") v) x
  x ← optional b.afflib (λ v. write_library x (codes "library") (codes "afflib") v) x
  x ← optional b.libewf (λ v. write_library x (codes "library") (codes "libewf") v) x
  x ← optional b.exiv2 (λ v. write_library x (codes "library") (codes "exiv2") v) x
  x ← optional b.tre (λ v. write_library x (codes "tre") (codes "tre") v) x
  pop x
