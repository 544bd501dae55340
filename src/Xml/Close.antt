-- ===== src/Xml/Close.antt =====
-- `xml::close` and `xml::write_dtd`.
use frag_find.Common.{
  ℕ, Bool, List, [], ◌∷◌, ◌++◌, Option, none, some, Run, done, exited, ◌==◌, if◌then◌else◌,
}
use frag_find.Common.Text.{codes}
use frag_find.Xml.Writer.{Xml}

unfoldable pub dtd_elements : List (List ℕ) → List ℕ
dtd_elements [] = []
dtd_elements (t ∷ ts) = codes "<!ELEMENT " ++ (t ++ (codes "ANY >\n" ++ dtd_elements ts))

unfoldable pub dtd : List (List ℕ) → List ℕ
unfolding dtd_elements
dtd tags =
    codes "<!DOCTYPE fiwalk\n[\n"
    ++ (dtd_elements tags
        ++ codes
            "<!ATTLIST volume startsector CDATA #IMPLIED>\n<!ATTLIST run start CDATA #IMPLIED>\n<!ATTLIST run len CDATA #IMPLIED>\n]>\n")

-- The first line, and the lines that follow it until the end of the file is seen.
unfoldable pub split_lines : List ℕ → List ℕ × List (List ℕ)
split_lines [] = ([], [])
split_lines (c ∷ s) =
    let (line, rest) = split_lines s in if c == 10 then ([], line ∷ rest) else (c ∷ line, rest)

unfoldable pub join_lines : List (List ℕ) → List ℕ
join_lines [] = []
join_lines (l ∷ ls) = l ++ 10 ∷ join_lines ls

-- With what opening the temporary file gives, and whether the output file opens. The stream is the
-- contents of the output file, which is written again when there is a DTD to make.
unfoldable pub close : Xml → Option (List ℕ) → Bool → Run Xml
unfolding dtd split_lines join_lines
close x temporary opens =
    if x.make_dtd
    then elim temporary [
      | none ↦ exited 1
      | some text ↦
          let (line, rest) = split_lines text in
          if opens
          then done (record x { out = line ++ (dtd x.tags ++ join_lines rest) })
          else exited 1
    ]
    else done x
