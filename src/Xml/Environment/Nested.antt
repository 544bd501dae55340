-- ===== src/Xml/Environment/Nested.antt =====
-- What describes the program and the host is well nested in the document.
use frag_find.Common.{
  ℕ, ◌-◌, ◌%◌, ◌^◌, ◌≢◌, ◌≡◌, All, refl, true, false, inl, inr, List, [], ◌∷◌, ◌++◌, Option, none,
  some, Run, All-append, All-replicate, ltb, Bool-cases, length, replicate, arith,
}
use frag_find.Common.Text.{codes, print_u64}
use frag_find.Xml.Writer.{Xml, has_blank}
use frag_find.Xml.Writer.Attributes.{
  is_attribute, is_attribute_from, IsValue, is_attribute_from-value,
}
use frag_find.Common.Decimal.{IsDigit, decimal-IsDigit}
use frag_find.Xml.Writer.Tokens.{IsName}
use frag_find.Xml.Writer.Sequence.{IsTagless}
use frag_find.Xml.Writer.Effects.{
  IsAt, Leaves, Leaves-done, Leaves-bind, push-Leaves, pop-Leaves, xmlout-Leaves, xmlprintf-Leaves,
  print_u64-IsTagless, is_name-IsName,
}
use frag_find.Xml.Environment.{
  optional, print_signed, six_digits, xmlout_text, xmlout_i64, Timeval, xmlout_time,
}
use frag_find.Xml.Environment.Built.{
  Build, library_attribute, write_library, add_dfxml_build_environment,
}
use frag_find.Xml.Environment.Hosted.{
  Registers, add_cpuid, Names, utsname, unames, Host, write_names, write_username, write_user,
  add_dfxml_execution_environment, write_svn, add_dfxml_creator,
}
use frag_find.Xml.Environment.Usage.{Rusage, add_rusage}

append-IsTagless : (s t : List ℕ) → IsTagless s → IsTagless t → IsTagless (s ++ t)
append-IsTagless s t = All-append (λ c. c ≢ b'<') s t

pub print_signed-IsTagless : (w n : ℕ) → IsTagless (print_signed w n)
unfolding print_signed
print_signed-IsTagless w n = elim (Bool-cases (ltb n (2 ^ (w - 1)))) [
  | inl e ↦ rw e (print_u64-IsTagless n)
  | inr e ↦ rw e (omega arith, print_u64-IsTagless (2 ^ w - n))
]

six_digits-IsTagless : (n : ℕ) → IsTagless (six_digits n)
unfolding six_digits
six_digits-IsTagless n =
    append-IsTagless (replicate (6 - length (print_u64 n)) b'0') (print_u64 n)
      (All-replicate (λ c. c ≢ b'<') (6 - length (print_u64 n)) b'0' (omega arith))
      (print_u64-IsTagless n)

-- The version of a library has no bracket and no quotation mark.
abbrev pub IsPlain : Option (List ℕ) → Type 0
IsPlain none = Unit
IsPlain (some v) = IsValue b'"' v

-- The versions of the libraries of a build keep to their attributes.
pub record IsPlainBuild (b : Build) : Type 0 where
  pub tsk : IsPlain b.tsk
  pub afflib : IsPlain b.afflib
  pub libewf : IsPlain b.libewf
  pub exiv2 : IsPlain b.exiv2
  pub tre : IsPlain b.tre

-- The end of the attributes of a library.
version-IsAttribute :
    (v : List ℕ) → IsValue b'"' v → is_attribute_from b'"' false (v ++ b'"' ∷ []) ≡ true
version-IsAttribute v h = is_attribute_from-value b'"' false v b'"' [] refl h

digits-IsValue : (s : List ℕ) → All IsDigit s → IsValue b'"' s
digits-IsValue [] h = tt
digits-IsValue (c ∷ s) (d, h) = (ground arith, digits-IsValue s h)

print_u64-IsValue : (n : ℕ) → IsValue b'"' (print_u64 n)
unfolding print_u64
print_u64-IsValue n = digits-IsValue (print_u64 n) (decimal-IsDigit 20 n)

module _ (open_tags : List (List ℕ)) (x : Xml) (at : IsAt open_tags x) where
  pub optional-Leaves {ℓ} :
      {A : Type ℓ} (a : Option A) (write : A → Run Xml)
      → ((v : A) → Leaves open_tags (write v))
      → Leaves open_tags (optional a write x)
  unfolding optional
  optional-Leaves none write h = Leaves-done open_tags x at
  optional-Leaves (some a) write h = h a

  pub xmlout_text-Leaves :
      (tag value : List ℕ) → IsName tag → Leaves open_tags (xmlout_text x tag value)
  unfolding xmlout_text
  xmlout_text-Leaves tag value n = xmlout-Leaves open_tags x tag value [] true at n refl (inl refl)

  xmlout_i64-Leaves :
      (tag : List ℕ) (value : ℕ) → IsName tag → Leaves open_tags (xmlout_i64 x tag value)
  unfolding xmlout_i64
  xmlout_i64-Leaves tag value n =
      xmlprintf-Leaves open_tags x tag [] _ at n refl (print_signed-IsTagless 64 value)

  xmlout_time-Leaves :
      (tag : List ℕ) (ts : Timeval) → IsName tag → Leaves open_tags (xmlout_time x tag ts)
  unfolding xmlout_time
  xmlout_time-Leaves tag ts n = xmlprintf-Leaves open_tags x tag [] _ at n refl (
      append-IsTagless (print_signed 32 (ts.tv_sec % 2 ^ 32)) (b'.' ∷ six_digits ts.tv_usec)
        (print_signed-IsTagless 32 (ts.tv_sec % 2 ^ 32))
        (omega arith, six_digits-IsTagless ts.tv_usec))

  write_library-Leaves :
      (tag name version : List ℕ)
      → IsName tag
      → is_attribute (library_attribute name version) ≡ true
      → Leaves open_tags (write_library x tag name version)
  unfolding write_library
  write_library-Leaves tag name version n a =
      xmlout-Leaves open_tags x tag [] _ false at n a (inr tt)

  -- The versions of libraries stand between quotation marks.
  optional_value-Leaves :
      (a : Option (List ℕ)) (write : List ℕ → Run Xml)
      → IsPlain a
      → ((v : List ℕ) → IsValue b'"' v → Leaves open_tags (write v))
      → Leaves open_tags (optional a write x)
  unfolding optional
  optional_value-Leaves none write plain h = Leaves-done open_tags x at
  optional_value-Leaves (some a) write plain h = h a plain

-- The element about the build leaves the tags around it open.
pub add_dfxml_build_environment-Leaves :
    (open_tags : List (List ℕ)) (x : Xml) (b : Build)
    → IsAt open_tags x
    → IsPlainBuild b
    → Leaves open_tags (add_dfxml_build_environment x b)
unfolding add_dfxml_build_environment has_blank library_attribute
add_dfxml_build_environment-Leaves open_tags x b at plain =
    Leaves-bind _ _ _ _ (push-Leaves open_tags x _ _ at (is_name-IsName _ refl) refl) λ x at.
      Leaves-bind _ _ _ _
        (optional-Leaves _ x at _ _ (λ (v : ℕ × ℕ).
          xmlprintf-Leaves _ x _ [] _ at (is_name-IsName _ refl) refl (
            append-IsTagless (codes "GCC ") (print_u64 v.0 ++ (b'.' ∷ print_u64 v.1))
              (omega arith, (omega arith, (omega arith, (omega arith, tt))))
              (append-IsTagless (print_u64 v.0) (b'.' ∷ print_u64 v.1) (print_u64-IsTagless v.0)
                (omega arith, print_u64-IsTagless v.1)))))
        λ x at.
          Leaves-bind _ _ _ _
            (optional-Leaves _ x at _ _
              (λ v. xmlout_text-Leaves _ x at _ _ (is_name-IsName _ refl)))
            λ x at.
              Leaves-bind _ _ _ _
                (optional-Leaves _ x at _ _
                  (λ v. xmlout_text-Leaves _ x at _ _ (is_name-IsName _ refl)))
                λ x at.
                  Leaves-bind _ _ _ _
                    (optional-Leaves _ x at _ _
                      (λ v. xmlout_text-Leaves _ x at _ _ (is_name-IsName _ refl)))
                    λ x at.
                      Leaves-bind _ _ _ _
                        (optional-Leaves _ x at _ _
                          (λ v. xmlout_text-Leaves _ x at _ _ (is_name-IsName _ refl)))
                        λ x at.
                          Leaves-bind _ _ _ _
                            (optional-Leaves _ x at _ _
                              (λ v. xmlout_text-Leaves _ x at _ _ (is_name-IsName _ refl)))
                            λ x at.
                              Leaves-bind _ _ _ _
                                (optional-Leaves _ x at _ _
                                  (λ v. xmlout_text-Leaves _ x at _ _ (is_name-IsName _ refl)))
                                λ x at.
                                  Leaves-bind _ _ _ _
                                    (optional-Leaves _ x at _ _ (λ v.
                                      write_library-Leaves _ x at _ _ _ (is_name-IsName _ refl)
                                        (version-IsAttribute _ (print_u64-IsValue v))))
                                    λ x at.
                                      Leaves-bind _ _ _ _
                                        (optional_value-Leaves _ x at _ _ plain.tsk (λ v h.
                                          write_library-Leaves _ x at _ _ _ (is_name-IsName _ refl)
                                            (version-IsAttribute v h)))
                                        λ x at.
                                          Leaves-bind _ _ _ _
                                            (optional_value-Leaves _ x at _ _ plain.afflib (λ v h.
                                              write_library-Leaves _ x at _ _ _
                                                (is_name-IsName _ refl) (version-IsAttribute v h)))
                                            λ x at.
                                              Leaves-bind _ _ _ _
                                                (optional_value-Leaves _ x at _ _ plain.libewf
                                                  (λ v h.
                                                    write_library-Leaves _ x at _ _ _
                                                      (is_name-IsName _ refl)
                                                      (version-IsAttribute v h)))
                                                λ x at.
                                                  Leaves-bind _ _ _ _
                                                    (optional_value-Leaves _ x at _ _ plain.exiv2
                                                      (λ v h.
                                                        write_library-Leaves _ x at _ _ _
                                                          (is_name-IsName _ refl)
                                                          (version-IsAttribute v h)))
                                                    λ x at.
                                                      Leaves-bind _ _ _ _
                                                        (optional_value-Leaves _ x at _ _ plain.tre
                                                          (λ v h.
                                                            write_library-Leaves _ x at _ _ _
                                                            (is_name-IsName _ refl)
                                                            (version-IsAttribute v h)))
                                                        λ x at. pop-Leaves open_tags x _ at

add_cpuid-Leaves :
    (open_tags : List (List ℕ)) (x : Xml) (cpuid : ℕ → Registers)
    → IsAt open_tags x
    → Leaves open_tags (add_cpuid x cpuid)
unfolding add_cpuid has_blank
add_cpuid-Leaves open_tags x cpuid at =
    Leaves-bind _ _ _ _ (push-Leaves open_tags x _ _ at (is_name-IsName _ refl) refl) λ x at.
      Leaves-bind _ _ _ _ (xmlout_text-Leaves _ x at _ _ (is_name-IsName _ refl)) λ x at.
        Leaves-bind _ _ _ _ (xmlout_i64-Leaves _ x at _ _ (is_name-IsName _ refl)) λ x at.
          Leaves-bind _ _ _ _ (xmlout_i64-Leaves _ x at _ _ (is_name-IsName _ refl)) λ x at.
            Leaves-bind _ _ _ _ (xmlout_i64-Leaves _ x at _ _ (is_name-IsName _ refl)) λ x at.
              Leaves-bind _ _ _ _ (xmlout_i64-Leaves _ x at _ _ (is_name-IsName _ refl)) λ x at.
                Leaves-bind _ _ _ _ (xmlout_i64-Leaves _ x at _ _ (is_name-IsName _ refl)) λ x at.
                  Leaves-bind _ _ _ _ (xmlout_i64-Leaves _ x at _ _ (is_name-IsName _ refl)) λ x at.
                    Leaves-bind _ _ _ _ (xmlout_i64-Leaves _ x at _ _ (is_name-IsName _ refl))
                      λ x at.
                        Leaves-bind _ _ _ _ (xmlout_i64-Leaves _ x at _ _ (is_name-IsName _ refl))
                          λ x at.
                            Leaves-bind _ _ _ _
                              (xmlout_i64-Leaves _ x at _ _ (is_name-IsName _ refl))
                              λ x at.
                                Leaves-bind _ _ _ _
                                  (xmlout_i64-Leaves _ x at _ _ (is_name-IsName _ refl))
                                  λ x at. pop-Leaves open_tags x _ at

-- `UNAMES` is written as it is, so that it may start no tag.
abbrev pub IsQuietNames : Names → Type 0
IsQuietNames (unames (some sysname) hostname) = IsTagless sysname
IsQuietNames _ = Unit

write_names-Leaves :
    (open_tags : List (List ℕ)) (x : Xml) (names : Names)
    → IsAt open_tags x
    → IsQuietNames names
    → Leaves open_tags (write_names x names)
unfolding write_names has_blank optional
write_names-Leaves open_tags x (utsname none) at q = Leaves-done open_tags x at
write_names-Leaves open_tags x (utsname (some name)) at q =
    Leaves-bind _ _ _ _ (xmlout_text-Leaves _ x at _ _ (is_name-IsName _ refl)) λ x at.
      Leaves-bind _ _ _ _ (xmlout_text-Leaves _ x at _ _ (is_name-IsName _ refl)) λ x at.
        Leaves-bind _ _ _ _ (xmlout_text-Leaves _ x at _ _ (is_name-IsName _ refl)) λ x at.
          Leaves-bind _ _ _ _ (xmlout_text-Leaves _ x at _ _ (is_name-IsName _ refl))
            λ x at. xmlout_text-Leaves _ x at _ _ (is_name-IsName _ refl)
write_names-Leaves open_tags x (unames none hostname) at q =
    optional-Leaves _ x at _ _ λ v. xmlout_text-Leaves _ x at _ _ (is_name-IsName _ refl)
write_names-Leaves open_tags x (unames (some sysname) hostname) at q =
    Leaves-bind _ _ _ _ (xmlout-Leaves _ x _ _ [] false at (is_name-IsName _ refl) refl (inr q))
      λ x at. optional-Leaves _ x at _ _ λ v. xmlout_text-Leaves _ x at _ _ (is_name-IsName _ refl)

-- A user that `getpwuid` does not find is a null pointer.
abbrev pub IsKnown : Host → Type 0
IsKnown h = IsQuietNames h.names × (h.username ≢ some none)

write_username-Leaves :
    (open_tags : List (List ℕ)) (x : Xml) (h : Host) (uid : ℕ)
    → IsAt open_tags x
    → h.username ≢ some none
    → Leaves open_tags (write_user x h uid)
unfolding write_user optional write_username has_blank
write_username-Leaves open_tags x h uid at known =
    Leaves-bind _ _ _ _
      (xmlprintf-Leaves _ x _ [] _ at (is_name-IsName _ refl) refl (print_signed-IsTagless 32 uid))
      λ x at. found x at h.username known
  where
    found :
        (x : Xml)
        → IsAt open_tags x
        → (name : Option (Option (List ℕ))) → name ≢ some none
        → Leaves open_tags (optional name (λ found. write_username x found) x)
    found x at none known = Leaves-done open_tags x at
    found x at (some none) known = absurd (known refl)
    found x at (some (some name)) known = xmlout_text-Leaves _ x at _ _ (is_name-IsName _ refl)

-- So does that about the host, where the user is found.
pub add_dfxml_execution_environment-Leaves :
    (open_tags : List (List ℕ)) (x : Xml) (h : Host) (command_line : List ℕ)
    → IsAt open_tags x
    → IsKnown h
    → Leaves open_tags (add_dfxml_execution_environment x h command_line)
unfolding add_dfxml_execution_environment has_blank
add_dfxml_execution_environment-Leaves open_tags x h command_line at known =
    Leaves-bind _ _ _ _ (push-Leaves open_tags x _ _ at (is_name-IsName _ refl) refl) λ x at.
      Leaves-bind _ _ _ _ (optional-Leaves _ x at _ _ (λ c. add_cpuid-Leaves _ x c at)) λ x at.
        Leaves-bind _ _ _ _ (write_names-Leaves _ x h.names at known.0) λ x at.
          Leaves-bind _ _ _ _ (xmlout_text-Leaves _ x at _ _ (is_name-IsName _ refl)) λ x at.
            Leaves-bind _ _ _ _
              (optional-Leaves _ x at _ _ (λ uid. write_username-Leaves _ x h uid at known.1))
              λ x at.
                Leaves-bind _ _ _ _ (xmlout_text-Leaves _ x at _ _ (is_name-IsName _ refl))
                  λ x at. pop-Leaves open_tags x _ at

write_svn-Leaves :
    (open_tags : List (List ℕ)) (x : Xml) (svn_r : List ℕ)
    → IsAt open_tags x
    → Leaves open_tags (write_svn x svn_r)
unfolding write_svn has_blank
write_svn-Leaves open_tags x [] at = Leaves-done open_tags x at
write_svn-Leaves open_tags x (c ∷ svn_r) at = xmlout_text-Leaves _ x at _ _ (is_name-IsName _ refl)

-- From a document with properly nested tags, with library versions without brackets and double
-- quotation marks, on a host whose names start no tag and whose user, if it is looked up, is
-- found, writing the creator element with the build and execution environments returns a document
-- with properly nested tags and the same open tags, which a reader that follows only the
-- characters of the stream finds open.
pub add_dfxml_creator-Leaves :
    (open_tags : List (List ℕ)) (x : Xml) (b : Build) (h : Host)
    (program version svn_r command_line : List ℕ)
    → IsAt open_tags x
    → IsPlainBuild b
    → IsKnown h
    → Leaves open_tags (add_dfxml_creator x b h program version svn_r command_line)
unfolding add_dfxml_creator has_blank
add_dfxml_creator-Leaves open_tags x b h program version svn_r command_line at plain known =
    Leaves-bind _ _ _ _ (push-Leaves open_tags x _ _ at (is_name-IsName _ refl) refl) λ x at.
      Leaves-bind _ _ _ _ (xmlout_text-Leaves _ x at _ _ (is_name-IsName _ refl)) λ x at.
        Leaves-bind _ _ _ _ (xmlout_text-Leaves _ x at _ _ (is_name-IsName _ refl)) λ x at.
          Leaves-bind _ _ _ _ (write_svn-Leaves _ x svn_r at) λ x at.
            Leaves-bind _ _ _ _ (add_dfxml_build_environment-Leaves _ x b at plain) λ x at.
              Leaves-bind _ _ _ _
                (add_dfxml_execution_environment-Leaves _ x h command_line at known)
                λ x at. pop-Leaves open_tags x _ at

pub add_rusage-Leaves :
    (open_tags : List (List ℕ)) (x : Xml) (ru : Option Rusage) (t0 t1 : Timeval)
    → IsAt open_tags x
    → Leaves open_tags (add_rusage x ru t0 t1)
unfolding add_rusage has_blank
add_rusage-Leaves open_tags x none t0 t1 at = Leaves-done open_tags x at
add_rusage-Leaves open_tags x (some ru) t0 t1 at =
    Leaves-bind _ _ _ _ (push-Leaves open_tags x _ _ at (is_name-IsName _ refl) refl) λ x at.
      Leaves-bind _ _ _ _ (xmlout_time-Leaves _ x at _ _ (is_name-IsName _ refl)) λ x at.
        Leaves-bind _ _ _ _ (xmlout_time-Leaves _ x at _ _ (is_name-IsName _ refl)) λ x at.
          Leaves-bind _ _ _ _ (xmlout_i64-Leaves _ x at _ _ (is_name-IsName _ refl)) λ x at.
            Leaves-bind _ _ _ _ (xmlout_i64-Leaves _ x at _ _ (is_name-IsName _ refl)) λ x at.
              Leaves-bind _ _ _ _ (xmlout_i64-Leaves _ x at _ _ (is_name-IsName _ refl)) λ x at.
                Leaves-bind _ _ _ _ (xmlout_i64-Leaves _ x at _ _ (is_name-IsName _ refl)) λ x at.
                  Leaves-bind _ _ _ _ (xmlout_i64-Leaves _ x at _ _ (is_name-IsName _ refl)) λ x at.
                    Leaves-bind _ _ _ _ (xmlout_i64-Leaves _ x at _ _ (is_name-IsName _ refl))
                      λ x at.
                        Leaves-bind _ _ _ _ (xmlout_time-Leaves _ x at _ _ (is_name-IsName _ refl))
                          λ x at. pop-Leaves open_tags x _ at
