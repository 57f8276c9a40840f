-- ===== src/Nntp/Client/Overview.antt =====
-- `xover` of backend/lorex/nntp/client.py: the rows of a range, read one by one.
use lore_x.Prelude.{
  ℕ, zero, suc, Option, none, some, List, [], ◌∷◌, ◌==◌, if◌then◌else◌, ◌=?◌, nat_eq, list_eq,
}
use lore_x.Result.{Result, ok, err, protocol_error, temporary_error}
use lore_x.Text.{Text, codes}
use lore_x.Text.Number.{int_of}
use lore_x.Nntp.Models.{OverviewRecord}
use lore_x.Nntp.Stream.{Bytes}
use lore_x.Nntp.Client.{Connection, read_raw_line, unstuffed}

-- `text.split("\t")`
unfoldable pub split_tabs : Text → Text × List Text
split_tabs [] = ([], [])
split_tabs (c ∷ s) =
    let rest = split_tabs s in if c == 9 then ([], rest.0 ∷ rest.1) else (c ∷ rest.0, rest.1)

-- Seven fields at least: the number, the subject, three that are not read, and the size.
unfoldable pub overview_fields : List Text → Option OverviewRecord
overview_fields (number ∷ subject ∷ author ∷ date ∷ message_id ∷ references ∷ bytes ∷ more) =
    elim (int_of 10 number) [
      | none ↦ none
      | some n ↦ elim (int_of 10 bytes) [
        | none ↦ none
        | some b ↦
            some
              (record { article_number = n; subject = subject; message_id = message_id; bytes = b })
      ]
    ]
overview_fields _ = none

module _ (decode : Bytes → Text) (max_line_length : ℕ) where
  unfoldable pub overview_row : Bytes → Option OverviewRecord
  unfolding split_tabs overview_fields
  overview_row raw = let r = split_tabs (decode (unstuffed raw)) in overview_fields (r.0 ∷ r.1)

  -- `_read_overview_rows`, on fuel for the bytes to come: the rows, the connection, how it ends.
  unfoldable pub overview_rows :
      ℕ → Connection → List OverviewRecord × Connection × Result (Unit {0})
  unfolding overview_row
  overview_rows zero c = ([], c, err (temporary_error "NNTP connection closed unexpectedly"))
  overview_rows (suc fuel) c =
      let r = read_raw_line max_line_length c in
      let later = overview_rows fuel r.0 in
      elim r.1 [
        | err e ↦ ([], r.0, err e)
        | ok raw ↦ if raw =? codes "." then ([], r.0, ok tt) else (elim (overview_row raw) [
          | none ↦ ([], r.0, err (protocol_error "Malformed overview row"))
          | some row ↦ (row ∷ later.0, later.1, later.2)
        ])
      ]
