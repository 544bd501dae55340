-- ===== src/Xml/Environment.antt =====
-- The parts of class `xml` that describe the program and the host. What the build defines and what the
-- system says are parameters: a missing `#define` or a failing call is `none`.
pub mod Built
pub mod Hosted
pub mod Usage
pub mod Nested
pub mod Values
use frag_find.Common.{
  ℕ, zero, suc, ◌+◌, ◌-◌, ◌*◌, ◌/◌, ◌%◌, ◌^◌, Bool, true, false, List, [], ◌∷◌, ◌++◌, Option, none,
  some, Run, done, fault, null_pointer, ◌>>=◌, ltb, ◌==◌, if◌then◌else◌, length, replicate,
}
use frag_find.Common.Text.{codes, print_u64}
use frag_find.Xml.Writer.{Xml, push, pop, xmlout, xmlprintf}

-- Something that is written only if it is there.
unfoldable pub optional {ℓ} : {A : Type ℓ} → Option A → (A → Run Xml) → Xml → Run Xml
optional none write x = done x
optional (some a) write x = write a

-- `%d` of the pattern of an `int`, and `%ld` of the pattern of a `long`.
unfoldable pub print_signed : ℕ → ℕ → List ℕ
print_signed w n = if ltb n (2 ^ (w - 1)) then print_u64 n else b'-' ∷ print_u64 (2 ^ w - n)

-- `%06d` of a number that is not negative.
unfoldable pub six_digits : ℕ → List ℕ
six_digits n = replicate (6 - length (print_u64 n)) b'0' ++ print_u64 n

-- `xmlout(tag,value)`
unfoldable pub xmlout_text : Xml → List ℕ → List ℕ → Run Xml
xmlout_text x tag value = xmlout x tag value [] true

-- `xmlout` of an `int64_t`, and `xmloutl`.
unfoldable pub xmlout_i64 : Xml → List ℕ → ℕ → Run Xml
xmlout_i64 x tag value = xmlprintf x tag [] (some (print_signed 64 value))

pub record Timeval : Type 0 where
  pub tv_sec : ℕ
  pub tv_usec : ℕ

-- `xmlout` of a `struct timeval`: `"%d.%06d"`
unfoldable pub xmlout_time : Xml → List ℕ → Timeval → Run Xml
xmlout_time x tag ts =
    xmlprintf x tag []
      (some (print_signed 32 (ts.tv_sec % 2 ^ 32) ++ (b'.' ∷ six_digits ts.tv_usec)))

-- `to8601`, with the text that `strftime` makes.
unfoldable pub to8601 : List ℕ → ℕ → List ℕ
to8601 text tv_usec =
    if ltb 0 tv_usec then text ++ (b'.' ∷ (six_digits tv_usec ++ codes "Z")) else text ++ codes "Z"
