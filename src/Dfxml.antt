-- ===== src/Dfxml.antt =====
-- The reader of DFXML files: src/dfxml.cpp and src/dfxml.h. The XML parser expat is left out: what it
-- reports is a list of events. `read_u64` is `ss >> val` for a `uint64_t`. Of a volume only the block size
-- is kept, in a store, as file objects and the reader share it.
pub mod Elements
pub mod Tags
pub mod Trip
use frag_find.Common.{
  ℕ, ◌+◌, ◌-◌, ◌^◌, Bool, true, false, not, ◌&&◌, ◌||◌, List, [], ◌∷◌, ◌++◌, Option, none, some,
  Run, done, exited, fault, out_of_bounds, null_pointer, ◌>>=◌, length, ltb, ◌==◌, if◌then◌else◌,
  set,
}
use frag_find.Common.Text.{codes}
use frag_find.Common.Strings.{text_eq, put, find}
use frag_find.Common.Decimal.{atoi}
use frag_find.Hex.{fromhex}
use frag_find.Xml.Text.{to_lower}

-- What expat calls: a start tag with its attributes, an end tag, character data.
pub data Event : Type 0 where
  opened : List ℕ → List (List ℕ × List ℕ) → Event
  closed : List ℕ → Event
  characters : List ℕ → Event

abbrev pub StringMap : Type 0
StringMap = List (List ℕ × List ℕ)

pub record ByteRun : Type 0 where
  pub hashdigest : StringMap
  pub img_offset : ℕ
  pub file_offset : ℕ
  pub len : ℕ
  pub sector_size : ℕ

pub record FileObject : Type 0 where
  pub hashdigest : StringMap
  pub tags : StringMap
  pub volumeobject : Option ℕ
  pub byte_runs : List ByteRun

-- The top of the stack stands first. `volumes` are the block sizes of the volumes, `called` the objects
-- that the callback was given.
pub record Reader : Type 0 where
  pub tagstack : List (List ℕ)
  pub cdata : List ℕ
  pub volumes : List ℕ
  pub volumeobject : Option ℕ
  pub fileobject : Option FileObject
  pub hashdigest_type : List ℕ
  pub called : List FileObject

abbrev pub new_reader : Reader
new_reader = record {
  tagstack = [];
  cdata = [];
  volumes = [];
  volumeobject = none;
  fileobject = none;
  hashdigest_type = [];
  called = [];
}

abbrev pub new_run : ByteRun
new_run = record { hashdigest = []; img_offset = 0; file_offset = 0; len = 0; sector_size = 0 }

unfoldable pub getattrs : List (List ℕ × List ℕ) → List ℕ → List ℕ
getattrs [] name = []
getattrs ((k, v) ∷ attrs) name = if text_eq name k then v else getattrs attrs name

-- A list that is not empty, with its last component changed.
unfoldable pub change_last {ℓ} : {A : Type ℓ} → (A → A) → List A → Option (List A)
change_last f [] = none
change_last f (x ∷ []) = some (f x ∷ [])
change_last f (x ∷ y ∷ xs) = elim (change_last f (y ∷ xs)) [ none ↦ none | some ys ↦ some (x ∷ ys) ]

unfoldable pub lower : List ℕ → List ℕ
lower [] = []
lower (c ∷ s) = to_lower c ∷ lower s

module _ (read_u64 : List ℕ → ℕ) where
  unfoldable pub getattri : List (List ℕ × List ℕ) → List ℕ → ℕ
  getattri [] name = 0
  getattri ((k, v) ∷ attrs) name = if text_eq name k then read_u64 v else getattri attrs name

  -- One attribute of a run: a number that is already there stays.
  unfoldable pub set_attribute : ByteRun → List ℕ → List ℕ → ByteRun
  set_attribute run key value =
      if run.img_offset == 0 && text_eq key (codes "img_offset")
      then record run { img_offset = read_u64 value }
      else (if run.file_offset == 0 && text_eq key (codes "file_offset")
          then record run { file_offset = read_u64 value }
          else (if run.len == 0 && text_eq key (codes "len")
              then record run { len = read_u64 value }
              else (if run.sector_size == 0 && text_eq key (codes "sector_size")
                  then record run { sector_size = read_u64 value }
                  else run)))

  unfoldable pub run_of : ByteRun → List (List ℕ × List ℕ) → ByteRun
  run_of run [] = run
  run_of run ((k, v) ∷ attrs) = run_of (set_attribute run k v) attrs

  -- A `run` or `byte_run` in a file object.
  unfoldable pub start_run : Reader → List ℕ → List (List ℕ × List ℕ) → Reader
  unfolding run_of
  start_run r name attrs = elim r.fileobject [
    | none ↦ r
    | some f ↦
        if text_eq name (codes "run") || text_eq name (codes "byte_run")
        then record r {
          fileobject = some (record f { byte_runs = f.byte_runs ++ run_of new_run attrs ∷ [] });
        }
        else r
  ]

  unfoldable pub start_element : Reader → List ℕ → List (List ℕ × List ℕ) → Reader
  unfolding getattrs start_run
  start_element r name attrs =
      let r₁ = record r { cdata = []; tagstack = name ∷ r.tagstack } in
      let r₂ =
        if text_eq name (codes "volume")
        then record r₁ { volumeobject = some (length r.volumes); volumes = r.volumes ++ 512 ∷ [] }
        else r₁ in
      let object : FileObject = record {
        hashdigest = [];
        tags = [];
        volumeobject = r₂.volumeobject;
        byte_runs = [];
      } in
      if text_eq name (codes "fileobject")
      then record r₂ { fileobject = some object }
      else (if text_eq name (codes "hashdigest")
          then record r₂ { hashdigest_type = getattrs attrs (codes "type") }
          else start_run r₂ name attrs)

-- `self.volumeobject->block_size = atoi(cdata)`, with the sign of the `int`.
unfoldable pub set_block_size : Reader → List ℕ → Run Reader
set_block_size r cdata = elim r.volumeobject [
  | none ↦ fault null_pointer
  | some v ↦
      let n = atoi cdata in
      done (record r {
        volumes = set r.volumes v (if ltb n (2 ^ 31) then n else n + (2 ^ 64 - 2 ^ 32));
      })
]

-- A digest of the last run, or of the file.
unfoldable pub end_hashdigest : Reader → List ℕ → List ℕ → Run Reader
unfolding change_last lower
end_hashdigest r top cdata =
    let alg = lower r.hashdigest_type in
    if text_eq top (codes "byte_run")
    then elim r.fileobject [
      | none ↦ fault null_pointer
      | some f ↦
          elim (change_last
            (λ (run : ByteRun). record run { hashdigest = put alg cdata run.hashdigest })
            f.byte_runs) [
              | none ↦ fault out_of_bounds
              | some runs ↦ done (record r { fileobject = some (record f { byte_runs = runs }) })
            ]
    ]
    else (if text_eq top (codes "fileobject")
        then elim r.fileobject [
          | none ↦ fault null_pointer
          | some f ↦ done (record r {
            fileobject = some (record f { hashdigest = put alg cdata f.hashdigest });
          })
        ]
        else done r)

-- A tag of the file object.
unfoldable pub end_tag : Reader → List ℕ → List ℕ → Reader
end_tag r name cdata = elim r.fileobject [
  | none ↦ r
  | some f ↦ record r { fileobject = some (record f { tags = put name cdata f.tags }) }
]

-- What an end tag does after its name has left the stack.
unfoldable pub end_matched : Reader → List ℕ → List ℕ → Run Reader
unfolding set_block_size end_hashdigest end_tag
end_matched r name cdata =
    if text_eq name (codes "volume")
    then done (record r { volumeobject = none })
    else (if text_eq name (codes "block_size") && ltb 1 (length r.tagstack)
        then elim r.tagstack [
          | [] ↦ done r
          | top ∷ rest ↦ if text_eq top (codes "volume") then set_block_size r cdata else done r
        ]
        else (if text_eq name (codes "fileobject")
            then elim r.fileobject [
              | none ↦ fault null_pointer
              | some f ↦ done (record r { called = r.called ++ f ∷ []; fileobject = none })
            ]
            else (if text_eq name (codes "hashdigest") && ltb 0 (length r.tagstack)
                then elim r.tagstack [ [] ↦ done r | top ∷ rest ↦ end_hashdigest r top cdata ]
                else done (end_tag r name cdata))))

unfoldable pub end_element : Reader → List ℕ → Run Reader
unfolding end_matched
end_element r name = elim r.tagstack [
  | [] ↦ fault out_of_bounds
  | top ∷ rest ↦
      if not (text_eq top name)
      then exited 1
      else end_matched (record r { tagstack = rest; cdata = [] }) name r.cdata
]

unfoldable pub character_data : Reader → List ℕ → Reader
character_data r s = record r { cdata = r.cdata ++ s }

-- `file_object::md5`, or `none` where it throws.
unfoldable pub md5 : FileObject → Option (List ℕ)
md5 f = elim (find (codes "md5") f.hashdigest) [ none ↦ none | some hex ↦ some (fromhex hex) ]

unfoldable pub handle : (List ℕ → ℕ) → Reader → Event → Run Reader
unfolding start_element end_element character_data
handle read_u64 r (opened name attrs) = done (start_element read_u64 r name attrs)
handle read_u64 r (closed name) = end_element r name
handle read_u64 r (characters s) = done (character_data r s)

unfoldable pub handle_all : (List ℕ → ℕ) → Reader → List Event → Run Reader
handle_all read_u64 r [] = done r
handle_all read_u64 r (e ∷ es) = handle read_u64 r e >>= λ r'. handle_all read_u64 r' es

-- Each line with the events that expat reports for it, and whether it accepts the line; and the events
-- at the end.
unfoldable pub parse_lines :
    (List ℕ → ℕ) → Reader → List (List Event × Bool) → List Event → Run Reader
unfolding handle_all
parse_lines read_u64 r [] at_end = handle_all read_u64 r at_end
parse_lines read_u64 r ((events, accepted) ∷ lines) at_end = handle_all read_u64 r events >>= λ r'.
    if accepted then parse_lines read_u64 r' lines at_end else done r'

-- The result is what the callback was given; `none` is a file that does not open.
unfoldable pub read_dfxml :
    (List ℕ → ℕ) → Option (List (List Event × Bool) × List Event) → Run (List FileObject)
unfolding parse_lines
read_dfxml read_u64 file = elim file [
  | none ↦ exited 1
  | some (lines, at_end) ↦ parse_lines read_u64 new_reader lines at_end >>= λ r. done r.called
]
