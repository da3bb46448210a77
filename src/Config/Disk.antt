-- ===== src/Config/Disk.antt =====
-- The files that the configuration is kept in. A disk maps a path to the content of its file; an
-- operation of the package os either fails or changes one or two files. What is written to a file lies
-- in memory until the file is synced.
use dns_box.Prelude.{Bool, false, ◌≡◌, Text, Option, none, if◌then◌else◌, text_eq}

abbrev pub Disk : Type 0 → Type 0
Disk Bytes = Text → Option Bytes

-- The paths whose file has content that was written and not synced.
abbrev pub Unsynced : Type 0
Unsynced = Text → Bool

-- The state of a disk between two operations.
pub record Snapshot (Bytes : Type 0) : Type 0 where
  pub disk : Disk Bytes
  pub unsynced : Unsynced

unfoldable pub mark : Text → Bool → Unsynced → Unsynced
mark path flag u q = if text_eq path q then flag else u q

-- The flag of a file goes with the file.
unfoldable pub rename_flag : Text → Text → Unsynced → Unsynced
unfolding mark
rename_flag from to u = mark from false (mark to (u from) u)

module _ {Bytes : Type 0} where
  unfoldable pub write : Disk Bytes → Text → Option Bytes → Disk Bytes
  write d path content q = if text_eq path q then content else d q

  -- os.Rename: the target is replaced in one step.
  unfoldable pub rename : Disk Bytes → Text → Text → Disk Bytes
  unfolding write
  rename d from to = write (write d to (d from)) from none

  -- What a failure of the power can leave: the synced files as they were, and anything in the others.
  abbrev pub IsAfterCrash : Snapshot Bytes → Disk Bytes → Type 0
  IsAfterCrash s d = (q : Text) → s.unsynced q ≡ false → d q ≡ s.disk q
