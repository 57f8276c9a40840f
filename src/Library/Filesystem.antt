-- ===== src/Library/Filesystem.antt =====
-- backend/lorex/library/filesystem.py. The files are a dictionary from their paths; the directories
-- exist, and `fsync` does not raise.
pub mod Kept
mod Tests
use lore_x.Prelude.{ℕ, Bool, true, false, Option, none, some, length, list_eq, nat_eq}
use lore_x.Result.{Result, ok, err, Error, value_error}
use lore_x.Process.{Work}
use lore_x.Dict.{Dict, get, put, remove}
use lore_x.Text.{Text}
use lore_x.Nntp.Stream.{Bytes}

abbrev pub Files : Type 0
Files = Dict Text Bytes

-- What `os.replace` does from the source to the destination; across devices it raises EXDEV.
pub data Rename : Type 0 where
  renamed other_device : Rename
  refused : Error → Rename

-- What the operating system and the verifier answer: `copy` gives what has reached the new file, and
-- `hidden` the name of the temporary file.
pub record Disk : Type 0 where
  pub rename : Rename
  pub copy : Bytes → Bytes × Result (Unit {0})
  pub verifier : Text → Files → Result Bool
  pub hidden : Text → Text
  -- FileNotFoundError
  pub not_found : Error

-- The file stands at its destination; one that fails is moved back.
unfoldable pub checked_in_place : Text → Text → Bytes → Files → Result Bool → Work Files ℕ
checked_in_place source destination content files (err e) = (files, err e)
checked_in_place source destination content files (ok false) = (
  put source content (remove destination files),
  err (value_error "promoted file failed verification"),
)
checked_in_place source destination content files (ok true) = (files, ok (length content))

-- The copy stands under its hidden name; one that fails is deleted.
unfoldable pub checked_copy :
    Text → Text → Text → Bytes → Bytes → Files → Result Bool → Work Files ℕ
checked_copy source destination temporary content copied files (err e) = (files, err e)
checked_copy source destination temporary content copied files (ok false) =
    (remove temporary files, err (value_error "promoted file failed verification"))
checked_copy source destination temporary content copied files (ok true) =
    (remove source (put destination copied (remove temporary files)), ok (length content))

unfoldable pub copied_file :
    Disk → Text → Text → Bytes → Files → (Bytes × Result (Unit {0})) → Work Files ℕ
copied_file disk source destination content files (written, err e) =
    (put (disk.hidden destination) written files, err e)
copied_file disk source destination content files (written, ok _) =
    let files' = put (disk.hidden destination) written files in
    checked_copy source destination (disk.hidden destination) content written files'
      (disk.verifier (disk.hidden destination) files')

unfoldable pub promote_content : Disk → Text → Text → Bytes → Files → Rename → Work Files ℕ
promote_content disk source destination content files (refused e) = (files, err e)
promote_content disk source destination content files renamed =
    let files' = put destination content (remove source files) in
    checked_in_place source destination content files' (disk.verifier destination files')
promote_content disk source destination content files other_device =
    copied_file disk source destination content (remove (disk.hidden destination) files)
      (disk.copy content)

abbrev pub promote_found : Disk → Text → Text → Files → Option Bytes → Work Files ℕ
promote_found disk source destination files none = (files, err disk.not_found)
promote_found disk source destination files (some content) =
    promote_content disk source destination content files disk.rename

unfoldable pub promote_verified_file : Disk → Text → Text → Files → Work Files ℕ
promote_verified_file disk source destination files =
    promote_found disk source destination files (get source files)
