-- ===== src/Version.antt =====
-- pkg/version/version.go: the build information, which the linker sets.
use xatu_sidecar.Prelude.{String, Bool, true, false, ◌&&◌, str_eq, leb, if◌then◌else◌}
use Prim.Native.String
use Prim.Native.String.{len, slice}

pub record Build : Type 0 where
  pub version : String
  pub commit : String
  pub date : String

abbrev pub short : Build → String
short b = b.version

-- `commit[:7]`; the length is in bytes.
unfoldable pub full : Build → String
full b =
    if negb (str_eq b.commit "unknown") && leb 7 (len b.commit)
    then String.◌++◌ b.version (String.◌++◌ "-" (slice b.commit 0 7))
    else b.version
  where
    negb : Bool → Bool
    negb true = false
    negb false = true
