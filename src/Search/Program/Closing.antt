-- ===== src/Search/Program/Closing.antt =====
-- The end of a run: the XML file is closed with every tag.
use frag_find.Common.{
  ◌∙◌, ℕ, ◌≡◌, ◌<◌, ◌≤◌, ◌^◌, refl, Bool, true, List, [], ◌∷◌, Option, none, some, done, bind-done,
  Returns, map,
}
use frag_find.Xml.Writer.{Xml}
use frag_find.Xml.Close.{close}
use frag_find.Xml.Writer.Effects.{IsAt, pop-Leaves}
use frag_find.Xml.Environment.Nested.{IsKnown, IsPlainBuild}
use frag_find.Search.BlockFile.{BlockFile}
use frag_find.Search.Master.{Master}
use frag_find.Search.Program.Finish.{About, end_xml, finish}
use frag_find.Search.Program.Reports.{
  IsOpen, StaysOpen, ReportableAll, table_of, report_masters-IsOpen, start_xml-IsOpen,
}

close-done : (open_tags : List (List ℕ)) (x : Xml) → IsAt open_tags x → close x none true ≡ done x
unfolding close
close-done open_tags x at = rw at.document.no_dtd refl

end_xml-IsOpen :
    (outer inner : List ℕ) (x : Option Xml)
    → IsOpen (inner ∷ outer ∷ []) x
    → Returns (end_xml x) (StaysOpen [] x)
unfolding end_xml
end_xml-IsOpen outer inner none at = (none, refl, (tt, refl))
end_xml-IsOpen outer inner (some x) at =
    let (x₁, run₁, at₁) = pop-Leaves (outer ∷ []) x inner at in
    let (x₂, run₂, at₂) = pop-Leaves [] x₁ outer at₁ in
    (
      some x₂,
      bind-done _ run₁ (bind-done _ run₂ (bind-done _ (close-done [] x₂ at₂) refl)),
      (at₂, refl),
    )

-- The end of a run returns, with the tables of all masters and the XML closed.
pub finish-IsOpen :
    (opt_raw : Bool) (a : About) (image_name : List ℕ) (image : BlockFile) (blocksize : ℕ)
    (x : Option Xml) (m : List ℕ × Master) (masters : List (List ℕ × Master))
    → 0 < blocksize
    → blocksize ≤ 2 ^ 31
    → IsOpen [] x
    → IsPlainBuild a.build
    → IsKnown a.host
    → ReportableAll blocksize (m ∷ masters)
    → Returns
        (finish opt_raw a image_name image blocksize x (m ∷ masters))
        λ r. StaysOpen [] x r.0 × (r.1 ≡ map (λ (n : List ℕ × Master). table_of n.1) (m ∷ masters))
unfolding finish
finish-IsOpen opt_raw a image_name image bs x (filename, t) masters pos narrow at plain known all =
    let (x₁, run₁, (at₁, same₁)) =
      start_xml-IsOpen x a image_name image t.file.blocksize at plain known in
    let (r, run₂, ((at₂, same₂), e)) =
      report_masters-IsOpen opt_raw image.file bs _ x₁ ((filename, t) ∷ masters) pos narrow at₁
        all in
    let (x₃, run₃, (at₃, same₃)) = end_xml-IsOpen _ _ r.0 at₂ in
    (
      (x₃, r.1),
      bind-done _ run₁ (bind-done _ run₂ (bind-done _ run₃ refl)),
      ((at₃, same₃ ∙ same₂ ∙ same₁), e),
    )
