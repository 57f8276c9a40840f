-- ===== src/Library/Filesystem/Tests.antt =====
-- A promotion to another device whose copy fails its verification (library/filesystem.py).
use lore_x.Prelude.{◌≡◌, ◌≢◌, refl, arith, false, some, [], ◌∷◌, list_eq, nat_eq}
use lore_x.Result.{ok, other_error}
use lore_x.Dict.{get}
use lore_x.Text.{codes}
use lore_x.Nntp.Stream.{Bytes}
use lore_x.Library.Filesystem.{Files, other_device, Disk, promote_verified_file}
use lore_x.Library.Filesystem.Kept.{IsKept, promote_verified_file-IsKept}

abbrev disk : Disk
disk = record {
  rename = other_device;
  copy = λ content. (content, ok tt);
  verifier = λ path files. ok false;
  hidden = λ path. 46 ∷ path;
  not_found = other_error 2;
}

abbrev content : Bytes
content = 1 ∷ 2 ∷ []

abbrev files : Files
files = (codes "a", content) ∷ []

found : get (codes "a") files ≡ some content
unfolding get
found = refl

apart : codes "a" ≢ codes "b"
apart h = ground (arith, h)

hidden_apart : disk.hidden (codes "b") ≢ codes "a"
hidden_apart h = ground (arith, h)

promote_verified_file-IsKept_example :
    IsKept
      (codes "a")
      (codes "b")
      content
      (promote_verified_file disk (codes "a") (codes "b") files)
promote_verified_file-IsKept_example =
    promote_verified_file-IsKept disk (codes "a") (codes "b") content files apart hidden_apart
      (λ whole. refl) found
