-- ===== src/Library/Filesystem/Kept.antt =====
-- No file is lost when it is promoted (library/filesystem.py).
use lore_x.Prelude.{
  ℕ, ◌≡◌, ◌≢◌, ◌⊎◌, inl, inr, refl, sym, ap, ◌∙◌, Bool, true, false, none, some, length, list_eq,
  nat_eq,
}
use lore_x.Result.{Result, ok, err}
use lore_x.Process.{Work}
use lore_x.Dict.{get, put, remove, get-put_self, get-put_ne, get-remove_self, get-remove_ne}
use lore_x.Text.{Text}
use lore_x.Nntp.Stream.{Bytes}
use lore_x.Library.Filesystem.{
  Files, Rename, renamed, other_device, refused, Disk, checked_in_place, checked_copy, copied_file,
  promote_content, promote_verified_file,
}

module _ (source destination : Text) (content : Bytes) where
  -- The file is at its destination only, or, after an exception, somewhere still.
  abbrev pub IsKept : Work Files ℕ → Type 0
  IsKept (files, ok size) =
      (get destination files ≡ some content) × (get source files ≡ none) × (size ≡ length content)
  IsKept (files, err e) = (get source files ≡ some content) ⊎ (get destination files ≡ some content)

  checked_in_place-IsKept :
      (files : Files) (answer : Result Bool)
      → get destination files ≡ some content
      → get source files ≡ none
      → IsKept (checked_in_place source destination content files answer)
  unfolding checked_in_place
  checked_in_place-IsKept files (err e) there gone = inr there
  checked_in_place-IsKept files (ok false) there gone =
      inl (get-put_self source content (remove destination files))
  checked_in_place-IsKept files (ok true) there gone = (there, gone, refl)

  checked_copy-IsKept :
      (temporary : Text) (copied : Bytes) (files : Files) (answer : Result Bool)
      → source ≢ destination
      → temporary ≢ source
      → copied ≡ content
      → get source files ≡ some content
      → IsKept (checked_copy source destination temporary content copied files answer)
  unfolding checked_copy
  checked_copy-IsKept temporary copied files (err e) apart other whole here = inl here
  checked_copy-IsKept temporary copied files (ok false) apart other whole here =
      inl (get-remove_ne temporary source files other ∙ here)
  checked_copy-IsKept temporary copied files (ok true) apart other whole here = (
    get-remove_ne source destination (put destination copied (remove temporary files)) apart
        ∙ get-put_self destination copied (remove temporary files)
        ∙ ap some whole,
    get-remove_self source (put destination copied (remove temporary files)),
    refl,
  )

  module _ (disk : Disk) where
    copied_file-IsKept :
        (files : Files) (answer : Bytes × Result (Unit {0}))
        → source ≢ destination
        → disk.hidden destination ≢ source
        → (answer.1 ≡ ok tt → answer.0 ≡ content)
        → get source files ≡ some content
        → IsKept (copied_file disk source destination content files answer)
    unfolding copied_file
    copied_file-IsKept files (written, err e) apart other whole here =
        inl (get-put_ne (disk.hidden destination) source written files other ∙ here)
    copied_file-IsKept files (written, ok tt) apart other whole here =
        let files' = put (disk.hidden destination) written files in
        checked_copy-IsKept (disk.hidden destination) written files'
          (disk.verifier (disk.hidden destination) files') apart other (whole refl)
          (get-put_ne (disk.hidden destination) source written files other ∙ here)

    promote_content-IsKept :
        (files : Files) (how : Rename)
        → source ≢ destination
        → disk.hidden destination ≢ source
        → ((disk.copy content).1 ≡ ok tt → (disk.copy content).0 ≡ content)
        → get source files ≡ some content
        → IsKept (promote_content disk source destination content files how)
    unfolding promote_content
    promote_content-IsKept files (refused e) apart other whole here = inl here
    promote_content-IsKept files renamed apart other whole here =
        let files' = put destination content (remove source files) in
        checked_in_place-IsKept files' (disk.verifier destination files')
          (get-put_self destination content (remove source files))
          (get-put_ne destination source content (remove source files) (λ same. apart (sym same))
            ∙ get-remove_self source files)
    promote_content-IsKept files other_device apart other whole here =
        copied_file-IsKept (remove (disk.hidden destination) files) (disk.copy content) apart other
          whole (get-remove_ne (disk.hidden destination) source files other ∙ here)

-- A file that exists, promoted to another path whose temporary name is not the source's, on a disk
-- where a copy that ends without an exception is whole. If the promotion returns, the content is at
-- the destination and no longer at the source, and the size is the content's. If it raises, whether
-- the renaming, the copying or the verifier does, or the file fails, the content is at one of the two.
pub promote_verified_file-IsKept :
    (disk : Disk) (source destination : Text) (content : Bytes) (files : Files)
    → source ≢ destination
    → disk.hidden destination ≢ source
    → ((disk.copy content).1 ≡ ok tt → (disk.copy content).0 ≡ content)
    → get source files ≡ some content
    → IsKept source destination content (promote_verified_file disk source destination files)
unfolding promote_verified_file
promote_verified_file-IsKept disk source destination content files apart other whole here =
    rw here (
      promote_content-IsKept source destination content disk files disk.rename apart other whole
        here)
