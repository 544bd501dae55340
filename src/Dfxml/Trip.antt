-- ===== src/Dfxml/Trip.antt =====
-- The element `fileobject` is what the reader gives to the callback.
use mathlib.Core.List.{append_assoc, append-nil}
use frag_find.Common.{
  ℕ, ◌≡◌, refl, sym, ◌∙◌, Bool, true, false, List, [], ◌∷◌, ◌++◌, none, some, Run, done, ◌&&◌, ◌==◌,
  ltb, suc, length, arith, ◌>>=◌, bind-done, Returns, map,
}
use frag_find.Common.Text.{codes}
use frag_find.Common.Strings.{text_eq, put, find, find-put_self, find-put_ne}
use frag_find.Dfxml.{
  Event, opened, closed, StringMap, FileObject, Reader, new_run, handle, handle_all, start_element,
  start_run, run_of, set_attribute, end_element, end_matched, end_tag, character_data,
  end_hashdigest, lower, md5,
}
use frag_find.Xml.Text.{to_lower}
use frag_find.Dfxml.Elements.{
  run_events, all_events, value_events, object_events, RunText, run_of_text, Delivers,
}

and-false : (b : Bool) → (b && false) ≡ false
and-false true = refl
and-false false = refl

ltb_pos : (n : ℕ) → ltb 0 (suc n) ≡ true
ltb_pos n = ground arith

module _ (read_u64 : List ℕ → ℕ) where
  run_of-read :
      (run : RunText)
      → run_of read_u64 new_run (
          (codes "file_offset", run.file_offset)
          ∷ (codes "img_offset", run.img_offset)
          ∷ (codes "len", run.len)
          ∷ [])
        ≡ run_of_text read_u64 run
  unfolding run_of set_attribute text_eq
  run_of-read run =
      rw (and-false (read_u64 run.img_offset == 0), and-false (read_u64 run.file_offset == 0)) refl

  run_events-read :
      (r : Reader) (f : FileObject) (run : RunText) (cdata : List ℕ)
      → handle_all read_u64 (record r { fileobject = some f; cdata = cdata }) (run_events run)
        ≡ done (record r {
          fileobject = some (record f {
            byte_runs = f.byte_runs ++ run_of_text read_u64 run ∷ [];
            tags = put (codes "run") [] f.tags;
          });
          cdata = [];
        })
  unfolding handle_all run_events start_element start_run end_element end_matched end_tag
      character_data text_eq handle
  run_events-read r f run cdata = rw (run_of-read run) refl

  handle_all-append :
      (r : Reader) (xs ys : List Event)
      → handle_all read_u64 r (xs ++ ys)
        ≡ (handle_all read_u64 r xs >>= λ r'. handle_all read_u64 r' ys)
  unfolding handle_all
  handle_all-append r [] ys = refl
  handle_all-append r (x ∷ xs) ys = through (handle read_u64 r x) (λ r'. handle_all-append r' xs ys)
    where
      through :
          (m : Run Reader)
          → ((r' : Reader)
              → handle_all read_u64 r' (xs ++ ys)
                ≡ (handle_all read_u64 r' xs >>= λ q. handle_all read_u64 q ys))
          → (m >>= λ r'. handle_all read_u64 r' (xs ++ ys))
            ≡ ((m >>= λ r'. handle_all read_u64 r' xs) >>= λ q. handle_all read_u64 q ys)
      through (Run.done r') h = h r'
      through (Run.fault c) h = refl
      through (Run.exited n) h = refl

  -- `f'` is `f` with these runs after its own.
  record Extends (f f' : FileObject) (runs : List RunText) : Type 0 where
    longer : f'.byte_runs ≡ f.byte_runs ++ map (run_of_text read_u64) runs
    same_digests : f'.hashdigest ≡ f.hashdigest
    same_name : find (codes "filename") f'.tags ≡ find (codes "filename") f.tags

  all_events-read :
      (r : Reader) (f : FileObject) (runs : List RunText) (cdata : List ℕ)
      → (f' : FileObject) × (cdata' : List ℕ) × (handle_all read_u64
            (record r { fileobject = some f; cdata = cdata })
            (all_events runs)
          ≡ done (record r { fileobject = some f'; cdata = cdata' }))
        × Extends f f' runs
  unfolding all_events
  all_events-read r f [] cdata = (
    f,
    cdata,
    unfold handle_all in refl,
    record { longer = sym (append-nil f.byte_runs); same_digests = refl; same_name = refl },
  )
  all_events-read r f (run ∷ runs) cdata =
      let next : FileObject = record f {
        byte_runs = f.byte_runs ++ run_of_text read_u64 run ∷ [];
        tags = put (codes "run") [] f.tags;
      } in
      let (f', cdata', e, x) = all_events-read r next runs [] in
      (
        f',
        cdata',
        handle_all-append (record r { fileobject = some f; cdata = cdata }) (run_events run)
              (all_events runs)
            ∙ bind-done _ (run_events-read r f run cdata) e,
        record {
          longer =
              x.longer
              ∙ append_assoc f.byte_runs (run_of_text read_u64 run ∷ [])
                  (map (run_of_text read_u64) runs);
          same_digests = x.same_digests;
          same_name =
              x.same_name
              ∙ find-put_ne (codes "filename") (codes "run") [] f.tags (unfold text_eq in refl);
        },
      )

  header_read :
      (r : Reader) (filename blocks filesize md5hex : List ℕ) (rest : List Event)
      → handle_all read_u64 r (
          opened (codes "fileobject") []
          ∷ (value_events (codes "filename") [] filename
              ++ (value_events (codes "blocks") [] blocks
                  ++ (value_events (codes "filesize") [] filesize
                      ++ (value_events
                            (codes "hashdigest")
                            ((codes "type", codes "md5") ∷ [])
                            md5hex
                          ++ rest)))))
        ≡ handle_all read_u64
            (record r {
              tagstack = codes "fileobject" ∷ r.tagstack;
              cdata = [];
              hashdigest_type = codes "md5";
              fileobject = some (record {
                hashdigest = put (codes "md5") md5hex [];
                tags =
                    put
                      (codes "filesize")
                      filesize
                      (put (codes "blocks") blocks (put (codes "filename") filename []));
                volumeobject = r.volumeobject;
                byte_runs = [];
              });
            })
            rest
  unfolding handle_all value_events start_element start_run run_of set_attribute end_element
      end_matched end_tag character_data text_eq handle end_hashdigest lower to_lower
  header_read r filename blocks filesize md5hex rest = rw (ltb_pos (length r.tagstack)) refl

  -- On the events of an element fileobject with a filename, blocks, filesize, a hashdigest of
  -- type md5 and any number of elements run, each text given in one event and no text between the
  -- tags, the reader, in any state, returns and gives its callback, after the objects before, one
  -- file object with the text of the filename as its name, the digest that fromhex makes of the
  -- text of the hashdigest, and one byte run for each element run, in order, with the numbers
  -- that the parameter reads from its three attributes; its stack of tags is then as before, and
  -- no object is open.
  pub object_events-Delivers :
      (r : Reader) (filename blocks filesize md5hex : List ℕ) (runs : List RunText)
      → Returns
          (handle_all read_u64 r (object_events filename blocks filesize md5hex runs))
          (Delivers read_u64 filename md5hex runs r)
  unfolding object_events md5
  object_events-Delivers r filename blocks filesize md5hex runs =
      let tags : StringMap =
        put (codes "filesize") filesize
          (put (codes "blocks") blocks (put (codes "filename") filename [])) in
      let f : FileObject = record {
        hashdigest = put (codes "md5") md5hex [];
        tags = tags;
        volumeobject = r.volumeobject;
        byte_runs = [];
      } in
      let r₁ : Reader = record r {
        tagstack = codes "fileobject" ∷ r.tagstack;
        hashdigest_type = codes "md5";
      } in
      let (f', cdata', e, x) = all_events-read r₁ f runs [] in
      (
        record r₁ {
          tagstack = r.tagstack;
          cdata = [];
          fileobject = none;
          called = r.called ++ f' ∷ [];
        },
        header_read r filename blocks filesize md5hex
              (all_events runs ++ closed (codes "fileobject") ∷ [])
            ∙ handle_all-append (record r₁ { fileobject = some f; cdata = [] }) (all_events runs)
                (closed (codes "fileobject") ∷ [])
            ∙ bind-done _ e (unfold handle_all handle end_element end_matched text_eq in refl),
        record {
          object = f';
          called = refl;
          same_runs = x.longer;
          named =
              x.same_name
              ∙ find-put_ne (codes "filename") (codes "filesize") filesize _
                  (unfold text_eq in refl)
              ∙ find-put_ne (codes "filename") (codes "blocks") blocks _ (unfold text_eq in refl)
              ∙ find-put_self (codes "filename") filename [];
          digested = rw (md5, x.same_digests, find-put_self (codes "md5") md5hex []) refl;
          closed_again = (refl, refl);
        },
      )
