-- ===== src/Dfxml/Elements.antt =====
-- The events of an XML parser for an element `fileobject`, each text in one event and without the texts
-- between the tags, and what reading it gives.
use frag_find.Common.{ℕ, ◌≡◌, List, [], ◌∷◌, ◌++◌, none, some, map}
use frag_find.Common.Text.{codes}
use frag_find.Common.Strings.{find}
use frag_find.Dfxml.{Event, opened, closed, characters, ByteRun, FileObject, Reader, new_run, md5}
use frag_find.Hex.{fromhex}

-- The attributes of an element `run`.
pub record RunText : Type 0 where
  pub file_offset : List ℕ
  pub img_offset : List ℕ
  pub len : List ℕ

unfoldable pub run_events : RunText → List Event
run_events run =
    opened (codes "run") (
      (codes "file_offset", run.file_offset)
      ∷ (codes "img_offset", run.img_offset)
      ∷ (codes "len", run.len)
      ∷ [])
    ∷ closed (codes "run")
    ∷ []

unfoldable pub all_events : List RunText → List Event
all_events [] = []
all_events (run ∷ runs) = run_events run ++ all_events runs

-- A tag with a value.
unfoldable pub value_events : List ℕ → List (List ℕ × List ℕ) → List ℕ → List Event
value_events tag attrs value = opened tag attrs ∷ characters value ∷ closed tag ∷ []

-- An element with the parts that `main` of frag_find.cpp writes for a master file.
unfoldable pub object_events : List ℕ → List ℕ → List ℕ → List ℕ → List RunText → List Event
unfolding value_events all_events
object_events filename blocks filesize md5hex runs =
    opened (codes "fileobject") []
    ∷ (value_events (codes "filename") [] filename
        ++ (value_events (codes "blocks") [] blocks
            ++ (value_events (codes "filesize") [] filesize
                ++ (value_events (codes "hashdigest") ((codes "type", codes "md5") ∷ []) md5hex
                    ++ (all_events runs ++ closed (codes "fileobject") ∷ [])))))

-- The run that is read from the attributes.
abbrev pub run_of_text : (List ℕ → ℕ) → RunText → ByteRun
run_of_text read_u64 run = record new_run {
  file_offset = read_u64 run.file_offset;
  img_offset = read_u64 run.img_offset;
  len = read_u64 run.len;
}

-- The reader `r'` is `r` after the callback for the file object of those parts.
pub record Delivers (read_u64 : List ℕ → ℕ) (filename md5hex : List ℕ) (runs : List RunText)
    (r r' : Reader) : Type 0 where
  pub object : FileObject
  pub called : r'.called ≡ r.called ++ object ∷ []
  pub same_runs : object.byte_runs ≡ map (run_of_text read_u64) runs
  pub named : find (codes "filename") object.tags ≡ some filename
  pub digested : md5 object ≡ some (fromhex md5hex)
  pub closed_again : (r'.tagstack ≡ r.tagstack) × (r'.fileobject ≡ none)
