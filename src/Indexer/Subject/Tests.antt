-- ===== src/Indexer/Subject/Tests.antt =====
-- Runs of the parser at concrete subjects.
use lore_x.Prelude.{◌≡◌, refl, ◌≤◌, arith}
use lore_x.Result.{ok}
use lore_x.Text.{codes, text_functions, rstrip}
use lore_x.Indexer.Subject.{split_part_suffix, numbered, unnumbered}
use lore_x.Indexer.Subject.Bounds.{split_part_suffix-InBounds}
use lore_x.Indexer.Subject.Roundtrip.{IsNumber, bracketed, split_part_suffix-bracketed}

yenc_numbered :
    split_part_suffix (codes "[1/2] \"A - B.m4b\" yEnc (01/123)")
    ≡ ok (numbered (codes "A - B.m4b") 1 123)
unfolding split_part_suffix text_functions
yenc_numbered = refl

yenc_archive :
    split_part_suffix (codes "x \"Name.part01.rar\" yEnc (1/9)")
    ≡ ok (unnumbered (codes "Name.archive"))
unfolding split_part_suffix text_functions
yenc_archive = refl

bracket_form :
    split_part_suffix (codes "A - B - C.m4b [2/3]") ≡ ok (numbered (codes "A - B - C.m4b") 2 3)
unfolding split_part_suffix text_functions
bracket_form = refl

split_part_suffix-InBounds_example : (1 ≤ 2) × (2 ≤ 3)
split_part_suffix-InBounds_example =
    split_part_suffix-InBounds (codes "A - B - C.m4b [2/3]") (numbered (codes "A - B - C.m4b") 2 3)
      bracket_form

two : IsNumber (codes "02") 2
unfolding text_functions
two = record { digits = (refl, (refl, tt)); nonempty = refl; short = omega arith; value = refl }

three : IsNumber (codes "3") 3
unfolding text_functions
three = record { digits = (refl, tt); nonempty = refl; short = omega arith; value = refl }

no_space : rstrip (codes "A - B.m4b") ≡ codes "A - B.m4b"
unfolding text_functions
no_space = refl

split_part_suffix-bracketed_example :
    split_part_suffix (bracketed (codes "A - B.m4b") (codes "02") (codes "3"))
    ≡ ok (numbered (codes "A - B.m4b") 2 3)
split_part_suffix-bracketed_example =
    split_part_suffix-bracketed (codes "A - B.m4b") (codes "02") (codes "3") 2 3 two three
      (omega arith) (omega arith) no_space (omega arith)
