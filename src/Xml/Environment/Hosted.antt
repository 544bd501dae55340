-- ===== src/Xml/Environment/Hosted.antt =====
-- `xml::add_cpuid`, `add_DFXML_execution_environment` and `add_DFXML_creator`, which describe the host.
use frag_find.Common.{
  ℕ, zero, suc, ◌+◌, ◌-◌, ◌*◌, ◌/◌, ◌%◌, ◌^◌, false, List, [], ◌∷◌, ◌++◌, Option, none, some, Run,
  done, fault, null_pointer, ◌>>=◌, ◌==◌, if◌then◌else◌,
}
use frag_find.Common.Text.{codes}
use frag_find.Xml.Writer.{Xml, push, pop, xmlout, xmlprintf}
use frag_find.Xml.Environment.{optional, print_signed, xmlout_text, xmlout_i64}
use frag_find.Xml.Environment.Built.{Build, add_dfxml_build_environment}

-- The registers that `cpuid` fills, as numbers of 32 bits.
pub record Registers : Type 0 where
  pub eax : ℕ
  pub ebx : ℕ
  pub ecx : ℕ
  pub edx : ℕ

-- The macro `b` for a word of 32 bits.
unfoldable pub bit_range : ℕ → ℕ → ℕ → ℕ
bit_range val base last = val * 2 ^ (32 - last - 1) % 2 ^ 32 / 2 ^ (32 - last + base - 1)

-- `%.4s` of the bytes of a word: at most four, up to a NUL.
unfoldable pub word_text : ℕ → ℕ → List ℕ
word_text zero w = []
word_text (suc left) w =
    let rest = word_text left (w / 256) in if w % 256 == 0 then [] else (w % 256) ∷ rest

unfoldable pub add_cpuid : Xml → (ℕ → Registers) → Run Xml
add_cpuid x cpuid = do
  let r = cpuid 0
  x ← push x (codes "cpuid") []
  x ←
      xmlout_text x (codes "identification")
        (word_text 4 r.ebx ++ (word_text 4 r.edx ++ word_text 4 r.ecx))
  let r₁ = cpuid 1
  x ← xmlout_i64 x (codes "family") (bit_range r₁.eax 8 11)
  x ← xmlout_i64 x (codes "model") (bit_range r₁.eax 4 7)
  x ← xmlout_i64 x (codes "stepping") (bit_range r₁.eax 0 3)
  x ← xmlout_i64 x (codes "efamily") (bit_range r₁.eax 20 27)
  x ← xmlout_i64 x (codes "emodel") (bit_range r₁.eax 16 19)
  x ← xmlout_i64 x (codes "brand") (bit_range r₁.ebx 0 7)
  x ← xmlout_i64 x (codes "clflush_size") (bit_range r₁.ebx 8 15 * 8)
  x ← xmlout_i64 x (codes "nproc") (bit_range r₁.ebx 16 23)
  x ← xmlout_i64 x (codes "apicid") (bit_range r₁.ebx 24 31)
  let r₂ = cpuid 0x80000006
  x ← xmlout_i64 x (codes "L1_cache_size") (bit_range r₂.ecx 16 31 * 1024)
  pop x

pub record Utsname : Type 0 where
  pub sysname : List ℕ
  pub release : List ℕ
  pub version : List ℕ
  pub nodename : List ℕ
  pub machine : List ℕ

-- With `<sys/utsname.h>` what `uname` fills, or else `UNAMES` and what `gethostname` gives.
pub data Names : Type 0 where
  utsname : Option Utsname → Names
  unames : Option (List ℕ) → Option (List ℕ) → Names

-- `cpuid` is there with HAVE_ASM_CPUID on i386. With HAVE_GETUID the user, and with HAVE_GETPWUID what
-- `getpwuid` finds.
pub record Host : Type 0 where
  pub cpuid : Option (ℕ → Registers)
  pub names : Names
  pub uid : Option ℕ
  pub username : Option (Option (List ℕ))
  pub start_time : List ℕ

unfoldable pub write_names : Xml → Names → Run Xml
write_names x (utsname none) = done x
write_names x (utsname (some name)) = do
  x ← xmlout_text x (codes "os_sysname") name.sysname
  x ← xmlout_text x (codes "os_release") name.release
  x ← xmlout_text x (codes "os_version") name.version
  x ← xmlout_text x (codes "host") name.nodename
  xmlout_text x (codes "arch") name.machine
write_names x (unames sysname hostname) = do
  x ← optional sysname (λ v. xmlout x (codes "os_sysname") v [] false) x
  optional hostname (λ v. xmlout_text x (codes "host") v) x

-- `getpwuid(getuid())->pw_name`
unfoldable pub write_username : Xml → Option (List ℕ) → Run Xml
write_username x none = fault null_pointer
write_username x (some name) = xmlout_text x (codes "username") name

unfoldable pub write_user : Xml → Host → ℕ → Run Xml
write_user x h uid = do
  x ← xmlprintf x (codes "uid") [] (some (print_signed 32 uid))
  optional h.username (λ found. write_username x found) x

unfoldable pub add_dfxml_execution_environment : Xml → Host → List ℕ → Run Xml
add_dfxml_execution_environment x h command_line = do
  x ← push x (codes "execution_environment") []
  x ← optional h.cpuid (λ c. add_cpuid x c) x
  x ← write_names x h.names
  x ← xmlout_text x (codes "command_line") command_line
  x ← optional h.uid (λ uid. write_user x h uid) x
  x ← xmlout_text x (codes "start_time") h.start_time
  pop x

-- `if(svn_r.size()>0) xmlout("svn_version",svn_r)`
unfoldable pub write_svn : Xml → List ℕ → Run Xml
write_svn x [] = done x
write_svn x (c ∷ svn_r) = xmlout_text x (codes "svn_version") (c ∷ svn_r)

unfoldable pub add_dfxml_creator : Xml → Build → Host → List ℕ → List ℕ → List ℕ → List ℕ → Run Xml
add_dfxml_creator x b h program version svn_r command_line = do
  x ← push x (codes "creator") (codes "version='1.0'")
  x ← xmlout_text x (codes "program") program
  x ← xmlout_text x (codes "version") version
  x ← write_svn x svn_r
  x ← add_dfxml_build_environment x b
  x ← add_dfxml_execution_environment x h command_line
  pop x
