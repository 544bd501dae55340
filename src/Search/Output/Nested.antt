-- ===== src/Search/Output/Nested.antt =====
-- The element of a master file is well nested in the document.
use frag_find.Common.{
  ℕ, ◌≡◌, ◌-◌, ◌^◌, ◌++◌, All, Bool, Bool-cases, ltb, arith, refl, sym, ◌∙◌, true, false, inl, inr,
  List, [], ◌∷◌, Run, done, ◌>>=◌, Returns,
}
use frag_find.Common.Text.{codes, print_u64}
use frag_find.Xml.Writer.{Xml, has_blank, tag_name}
use frag_find.Common.Decimal.{IsDigit, decimal-IsDigit}
use frag_find.Xml.Writer.Attributes.{
  is_attribute, is_attribute_from, IsValue, is_attribute_from-value,
}
use frag_find.Xml.Writer.Tokens.{
  Call, push_tag, pop_tag, out_value, out_printf, call, call_all, IsName,
}
use frag_find.Xml.Writer.Balance.{IsDocument}
use frag_find.Xml.Writer.Sequence.{
  IsTagless, AllowedAll, open_after, open_after_all, call_all-IsDocument,
}
use frag_find.Search.Report.{ByteRun}
use frag_find.Xml.Writer.Effects.{print_u64-IsTagless, is_name-IsName}
use frag_find.Search.Output.{print_i64, run_attribute, write_runs, write_fileobject}

-- The calls that write the runs and the end tag.
unfoldable pub run_calls : List ByteRun → List Call
run_calls [] = pop_tag ∷ []
run_calls (r ∷ rs) = out_value (codes "run") [] (run_attribute r) false ∷ run_calls rs

unfoldable pub file_calls : List ℕ → ℕ → ℕ → List ℕ → List ByteRun → List Call
unfolding run_calls
file_calls filename blocks filesize md5hex runs =
    push_tag (codes "fileobject") []
    ∷ out_value (codes "filename") filename [] true
    ∷ out_printf (codes "blocks") [] (print_u64 blocks)
    ∷ out_printf (codes "filesize") [] (print_u64 filesize)
    ∷ out_value (codes "hashdigest") md5hex (codes "type='md5'") false
    ∷ run_calls runs

bind_assoc : (m : Run Xml) (f g : Xml → Run Xml) → (m >>= f >>= g) ≡ (m >>= λ x. f x >>= g)
bind_assoc (Run.done x) f g = refl
bind_assoc (Run.fault c) f g = refl
bind_assoc (Run.exited n) f g = refl

bind_done : (m : Run Xml) → (m >>= λ x. done x) ≡ m
bind_done (Run.done x) = refl
bind_done (Run.fault c) = refl
bind_done (Run.exited n) = refl

write_runs-call_all :
    (x : Xml) (runs : List ByteRun)
    → call_all x (run_calls runs) ≡ (write_runs x runs >>= λ x'. call x' pop_tag)
unfolding write_runs call_all call run_calls
write_runs-call_all x [] = bind_done _
write_runs-call_all x (r ∷ rs) =
    (λ i. call x (out_value (codes "run") [] (run_attribute r) false) >>= λ x'.
    write_runs-call_all x' rs i)
    ∙ sym (
        bind_assoc (call x (out_value (codes "run") [] (run_attribute r) false))
          (λ x'. write_runs x' rs) (λ x'. call x' pop_tag))

write_fileobject-call_all :
    (x : Xml) (filename : List ℕ) (blocks filesize : ℕ) (md5hex : List ℕ) (runs : List ByteRun)
    → call_all x (file_calls filename blocks filesize md5hex runs)
      ≡ write_fileobject x filename blocks filesize md5hex runs
unfolding write_fileobject call_all call file_calls
write_fileobject-call_all x filename blocks filesize md5hex runs = λ i.
    call x (push_tag (codes "fileobject") []) >>= λ x₁.
    call x₁ (out_value (codes "filename") filename [] true) >>= λ x₂.
    call x₂ (out_printf (codes "blocks") [] (print_u64 blocks)) >>= λ x₃.
    call x₃ (out_printf (codes "filesize") [] (print_u64 filesize)) >>= λ x₄.
    call x₄ (out_value (codes "hashdigest") md5hex (codes "type='md5'") false) >>= λ x₅.
    write_runs-call_all x₅ runs i

digits-IsValue : (s : List ℕ) → All IsDigit s → IsValue 39 s
digits-IsValue [] h = tt
digits-IsValue (c ∷ s) (d, h) = (ground arith, digits-IsValue s h)

print_i64-IsValue : (n : ℕ) → IsValue 39 (print_i64 n)
unfolding print_i64 print_u64
print_i64-IsValue n = elim (Bool-cases (ltb n (2 ^ 63))) [
  | inl e ↦ rw e (digits-IsValue (print_u64 n) (decimal-IsDigit 20 n))
  | inr e ↦ rw e (refl, digits-IsValue (print_u64 (2 ^ 64 - n)) (decimal-IsDigit 20 (2 ^ 64 - n)))
]

-- A number between quotation marks is passed over.
after_number :
    (n : ℕ) (slash : Bool) (rest : List ℕ)
    → is_attribute_from 39 slash (print_i64 n ++ 39 ∷ rest) ≡ is_attribute_from 39 false (39 ∷ rest)
after_number n slash rest =
    is_attribute_from-value 39 slash (print_i64 n) 39 rest refl (print_i64-IsValue n)

run_attribute-IsAttribute : (r : ByteRun) → is_attribute (run_attribute r) ≡ true
unfolding run_attribute
run_attribute-IsAttribute r =
    after_number r.file_offset false _
    ∙ after_number r.img_offset false _
    ∙ after_number r.len false []

run-IsName : IsName (codes "run")
unfolding has_blank tag_name
run-IsName = is_name-IsName (codes "run") refl

run_calls-AllowedAll :
    (runs : List ByteRun) (t : List ℕ) (open_tags : List (List ℕ))
    → AllowedAll (t ∷ open_tags) (run_calls runs)
unfolding run_calls open_after
run_calls-AllowedAll [] t open_tags = (tt, tt)
run_calls-AllowedAll (r ∷ rs) t open_tags =
    ((run-IsName, run_attribute-IsAttribute r, inr tt), run_calls-AllowedAll rs t open_tags)

run_calls-open :
    (runs : List ByteRun) (t : List ℕ) (open_tags : List (List ℕ))
    → open_after_all (run_calls runs) (t ∷ open_tags) ≡ open_tags
unfolding run_calls open_after open_after_all
run_calls-open [] t open_tags = refl
run_calls-open (r ∷ rs) t open_tags = run_calls-open rs t open_tags

file_calls-AllowedAll :
    (filename : List ℕ) (blocks filesize : ℕ) (md5hex : List ℕ) (runs : List ByteRun)
    (open_tags : List (List ℕ))
    → IsTagless md5hex
    → AllowedAll open_tags (file_calls filename blocks filesize md5hex runs)
unfolding file_calls open_after has_blank tag_name
file_calls-AllowedAll filename blocks filesize md5hex runs open_tags quiet = (
  (is_name-IsName (codes "fileobject") refl, refl),
  (
    (is_name-IsName (codes "filename") refl, refl, inl refl),
    (
      (is_name-IsName (codes "blocks") refl, refl, print_u64-IsTagless blocks),
      (
        (is_name-IsName (codes "filesize") refl, refl, print_u64-IsTagless filesize),
        (
          (is_name-IsName (codes "hashdigest") refl, refl, inr quiet),
          run_calls-AllowedAll runs (codes "fileobject") open_tags,
        ),
      ),
    ),
  ),
)

-- From a state whose output is a document with properly nested tags, writing the element of a
-- master file, with a digest that has no opening bracket and any runs, returns, keeps the
-- document so, and leaves the open tags as they were.
pub write_fileobject-IsDocument :
    (x : Xml) (filename : List ℕ) (blocks filesize : ℕ) (md5hex : List ℕ) (runs : List ByteRun)
    → IsDocument x
    → IsTagless md5hex
    → Returns
        (write_fileobject x filename blocks filesize md5hex runs)
        λ x'. IsDocument x' × (x'.tag_stack ≡ x.tag_stack)
unfolding file_calls open_after open_after_all
write_fileobject-IsDocument x filename blocks filesize md5hex runs d quiet =
    let (x', run, (d', e)) =
      call_all-IsDocument x (file_calls filename blocks filesize md5hex runs) d
        (file_calls-AllowedAll filename blocks filesize md5hex runs x.tag_stack quiet) in
    (
      x',
      sym (write_fileobject-call_all x filename blocks filesize md5hex runs) ∙ run,
      (d', e ∙ run_calls-open runs (codes "fileobject") x.tag_stack),
    )
