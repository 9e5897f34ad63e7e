-- ===== src/Rid.antt =====
-- Resource identifiers, src/common/4s-datatypes.h: `fs_rid` is a 64-bit number.
use store.Prelude.{ℕ}

-- FS_RID_NULL, the wildcard and the missing value.
abbrev pub null : ℕ
null = 0x8000000000000000

-- FS_RID_GONE, the mark of a removed entry.
abbrev pub gone : ℕ
gone = 0
