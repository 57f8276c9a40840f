-- ===== src/Services/Targeted/Windows.antt =====
-- The windows that a search for one book reads (services/targeted_nntp_search.py).
use lore_x.Prelude.{
  ℕ, zero, suc, ◌+◌, ◌≤◌, ◌≡◌, ◌⊎◌, inl, inr, refl, sym, ap, ◌∙◌, Bool, true, false, not, ◌||◌,
  ◌&&◌, List, [], ◌∷◌, ◌++◌, append_assoc, append-nil, map, min, keep, keep-append, map-append,
  length, length-append, arith, Bool-cases, if◌then◌else◌,
}
use mathlib.Core.Path.{subst}
use lore_x.Prelude.Int.{ℤ, pos, ◌+ℤ◌, ◌-ℤ◌, ◌≤ℤ◌, ltb_ℤ, max_ℤ, int_laws, pos_part, neg_part}
use lore_x.Result.{ok, >>=-ok}
use lore_x.Text.{is_empty}
use lore_x.Domain.{ArticleHeader}
use lore_x.Nntp.Models.{GroupInfo, OverviewRecord, ProviderGroup, NntpProvider}
use lore_x.Nntp.Scanner.{ScannerClient, header_of, log_in}
use lore_x.Services.Search.{BookSearchRequest}
use lore_x.Services.Targeted.{
  Found, window_start, window_matches, with_window, scan_windows, nothing_found,
  subject_matches_request, read_windows,
}

module _ (group : ProviderGroup) (client : ScannerClient) (request : BookSearchRequest)
    (info : GroupInfo) where
  -- So many windows from the newest article down, each as long as a batch where the group goes that far.
  abbrev pub windows : ℕ → ℤ → List (ℤ × ℤ)
  windows zero hi = []
  windows (suc n) hi =
      let s = window_start group client request info hi in
      if ltb_ℤ hi info.low then [] else (s, hi) ∷ windows n (s -ℤ pos 1)

  -- The windows follow each other downwards without a gap or an overlap. They end where the group
  -- ends, or where there are as many as allowed.
  abbrev pub TilesDown : ℕ → ℤ → List (ℤ × ℤ) → Type 0
  TilesDown n hi [] = ((hi +ℤ pos 1) ≤ℤ info.low) ⊎ (n ≡ 0)
  TilesDown n hi ((s, e) ∷ ws) =
      (m : ℕ) × (n ≡ suc m)
      × (e ≡ hi)
      × (info.low ≤ℤ s)
      × (s ≤ℤ e)
      × ((e +ℤ pos 1) ≤ℤ (s +ℤ group.scan_batch_size))
      × TilesDown m (s -ℤ pos 1) ws

  below : (a b : ℤ) → ltb_ℤ a b ≡ true → (a +ℤ pos 1) ≤ℤ b
  below a b h =
      let k : suc (pos_part a + neg_part b) ≤ pos_part b + neg_part a = ground (arith, h) in
      omega int_laws

  not_below : (a b : ℤ) → ltb_ℤ a b ≡ false → b ≤ℤ a
  not_below a b h = ground (arith, h)

  window_start_lem :
      (hi : ℤ)
      → pos 1 ≤ℤ group.scan_batch_size
      → info.low ≤ℤ hi
      → (info.low ≤ℤ window_start group client request info hi)
        × (window_start group client request info hi ≤ℤ hi)
        × ((hi +ℤ pos 1) ≤ℤ (window_start group client request info hi +ℤ group.scan_batch_size))
  unfolding max_ℤ
  window_start_lem hi b h =
      elim (Bool-cases (ltb_ℤ info.low ((hi -ℤ group.scan_batch_size) +ℤ pos 1))) [
        | inl more ↦ rw more (
            let k = below info.low ((hi -ℤ group.scan_batch_size) +ℤ pos 1) more in
            (omega int_laws, omega int_laws, omega int_laws))
        | inr less ↦ rw less (
            let k = not_below info.low ((hi -ℤ group.scan_batch_size) +ℤ pos 1) less in
            (omega int_laws, h, omega int_laws))
      ]

  windows-TilesDown :
      (n : ℕ) (hi : ℤ) → pos 1 ≤ℤ group.scan_batch_size → TilesDown n hi (windows n hi)
  windows-TilesDown zero hi b = inr refl
  windows-TilesDown (suc n) hi b = elim (Bool-cases (ltb_ℤ hi info.low)) [
    | inl past ↦ rw past (inl (below hi info.low past))
    | inr there ↦ rw there (
        let (low, up, long) = window_start_lem hi b (not_below hi info.low there) in
        (
          n,
          refl,
          refl,
          low,
          up,
          long,
          windows-TilesDown n (window_start group client request info hi -ℤ pos 1) b,
        ))
  ]

  or_true : (a : Bool) → a || true ≡ true
  or_true true = refl
  or_true false = refl

  if_true : {A : Type 0} (b : Bool) (x y : A) → b ≡ true → (if b then x else y) ≡ x
  if_true b x y h = rw h refl

  if_false : {A : Type 0} (b : Bool) (x y : A) → b ≡ false → (if b then x else y) ≡ y
  if_false b x y h = rw h refl

  scan_zero : (hi : ℤ) (f : Found) → scan_windows group client request 0 info hi f ≡ ok f
  unfolding scan_windows
  scan_zero hi f = refl

  scan_past :
      (n : ℕ) (hi : ℤ) (f : Found)
      → ltb_ℤ hi info.low ≡ true
      → scan_windows group client request (suc n) info hi f ≡ ok f
  unfolding scan_windows
  scan_past n hi f past = rw past refl

  windows_past : (n : ℕ) (hi : ℤ) → ltb_ℤ hi info.low ≡ true → windows (suc n) hi ≡ []
  windows_past n hi past = rw past refl

  windows_more :
      (n : ℕ) (hi : ℤ)
      → ltb_ℤ hi info.low ≡ false
      → windows (suc n) hi
        ≡ (window_start group client request info hi, hi)
          ∷ windows n (window_start group client request info hi -ℤ pos 1)
  windows_more n hi there = rw there refl

  scan_more :
      (n : ℕ) (hi : ℤ) (f : Found) (rs : List OverviewRecord)
      → ltb_ℤ hi info.low ≡ false
      → client.xover (window_start group client request info hi) hi ≡ ok rs
      → scan_windows group client request (suc n) info hi f ≡ (
          if is_empty (window_matches group client request rs)
          then scan_windows group client request n info
              (window_start group client request info hi -ℤ pos 1)
              (with_window group client request rs f)
          else ok (with_window group client request rs f))
  unfolding scan_windows
  scan_more n hi f rs there answer = rw (there, answer, scan_windows) refl

  module _ (rows : ℤ → ℤ → List OverviewRecord) where
    abbrev pub rows_of : ℤ × ℤ → List OverviewRecord
    rows_of (s, e) = rows s e

    abbrev pub all_rows : List (ℤ × ℤ) → List OverviewRecord
    all_rows [] = []
    all_rows (w ∷ ws) = rows_of w ++ all_rows ws

    abbrev pub has_match : List OverviewRecord → Bool
    has_match rs = not (is_empty (window_matches group client request rs))

    -- None but the last window has a match.
    abbrev pub is_quiet : List (ℤ × ℤ) → Bool
    is_quiet [] = true
    is_quiet (w ∷ []) = true
    is_quiet (w ∷ w' ∷ ws) = not (has_match (rows_of w)) && is_quiet (w' ∷ ws)

    -- `g` is what reading some of the first of these windows adds to `f`.
    abbrev pub IsScan : List (ℤ × ℤ) → Found → Found → Type 0
    IsScan ws f g =
        (scanned : List (ℤ × ℤ)) × (rest : List (ℤ × ℤ)) × (ws ≡ scanned ++ rest)
        × (is_quiet scanned ≡ true)
        × (is_empty rest || has_match (all_rows scanned) ≡ true)
        × (g.windows_scanned ≡ f.windows_scanned + length scanned)
        × (g.headers_examined ≡ f.headers_examined + length (all_rows scanned))
        × (g.matching_headers
            ≡ f.matching_headers ++ window_matches group client request (all_rows scanned))

    window_matches-append :
        (xs ys : List OverviewRecord)
        → window_matches group client request (xs ++ ys)
          ≡ window_matches group client request xs ++ window_matches group client request ys
    unfolding window_matches
    window_matches-append xs ys =
        ap (map (header_of group))
          (keep-append (λ row. subject_matches_request row.subject request) xs ys)
        ∙ map-append (header_of group)
            (keep (λ row. subject_matches_request row.subject request) xs) _

    IsScan-none : (f : Found) → IsScan [] f f
    unfolding window_matches
    IsScan-none f =
        ([], [], refl, refl, refl, omega arith, omega arith, sym (append-nil f.matching_headers))

    IsScan-last :
        (w : ℤ × ℤ) (ws : List (ℤ × ℤ)) (f : Found)
        → has_match (rows_of w) ≡ true
        → IsScan (w ∷ ws) f (with_window group client request (rows_of w) f)
    IsScan-last w ws f hit = (
      w ∷ [],
      ws,
      refl,
      refl,
      rw (append-nil (rows_of w), hit) (or_true (is_empty ws)),
      omega arith,
      rw (append-nil (rows_of w)) refl,
      rw (append-nil (rows_of w)) refl,
    )

    quiet_more :
        (w : ℤ × ℤ) (ws : List (ℤ × ℤ))
        → window_matches group client request (rows_of w) ≡ []
        → is_quiet ws ≡ true
        → is_quiet (w ∷ ws) ≡ true
    quiet_more w [] miss quiet = refl
    quiet_more w (v ∷ ws) miss quiet = rw miss quiet

    IsScan-more :
        (w : ℤ × ℤ) (ws : List (ℤ × ℤ)) (f g : Found)
        → window_matches group client request (rows_of w) ≡ []
        → IsScan ws (with_window group client request (rows_of w) f) g
        → IsScan (w ∷ ws) f g
    IsScan-more w ws f g miss (scanned, rest, split, quiet, ends, n, m, found) = (
      w ∷ scanned,
      rest,
      ap (λ l. w ∷ l) split,
      quiet_more w scanned miss quiet,
      rw (window_matches-append (rows_of w) (all_rows scanned), miss) ends,
      omega (arith, n),
      omega (arith, m, length-append (rows_of w) (all_rows scanned)),
      found
          ∙ append_assoc f.matching_headers (window_matches group client request (rows_of w))
              (window_matches group client request (all_rows scanned))
          ∙ ap (λ l. f.matching_headers ++ l)
              (sym (window_matches-append (rows_of w) (all_rows scanned))),
    )

    abbrev Scans : ℕ → ℤ → Found → List (ℤ × ℤ) → Type 0
    Scans n hi f ws =
        (g : Found) × (scan_windows group client request n info hi f ≡ ok g) × IsScan ws f g

    scan_step :
        (n : ℕ) (hi : ℤ) (f : Found) (ms : List ArticleHeader)
        → client.xover (window_start group client request info hi) hi
          ≡ ok (rows (window_start group client request info hi) hi)
        → ltb_ℤ hi info.low ≡ false
        → window_matches group client request (rows (window_start group client request info hi) hi)
          ≡ ms
        → Scans n
            (window_start group client request info hi -ℤ pos 1)
            (with_window group client request
              (rows (window_start group client request info hi) hi)
              f)
            (windows n (window_start group client request info hi -ℤ pos 1))
        → Scans (suc n) hi f (
            (window_start group client request info hi, hi)
            ∷ windows n (window_start group client request info hi -ℤ pos 1))
    scan_step n hi f [] answer there miss (g, done, scan) = (
      g,
      scan_more n hi f _ there answer ∙ if_true _ _ _ (ap is_empty miss) ∙ done,
      IsScan-more (window_start group client request info hi, hi) _ f g miss scan,
    )
    scan_step n hi f (m ∷ ms) answer there hit later = (
      with_window group client request (rows (window_start group client request info hi) hi) f,
      scan_more n hi f _ there answer ∙ if_false _ _ _ (ap is_empty hit),
      IsScan-last (window_start group client request info hi, hi) _ f (rw hit refl),
    )

    scan_windows-IsScan :
        (n : ℕ) (hi : ℤ) (f : Found)
        → ((s e : ℤ) → client.xover s e ≡ ok (rows s e))
        → Scans n hi f (windows n hi)
    scan_windows-IsScan zero hi f answers = (f, scan_zero hi f, IsScan-none f)
    scan_windows-IsScan (suc n) hi f answers = elim (Bool-cases (ltb_ℤ hi info.low)) [
      | inl past ↦
          subst (Scans (suc n) hi f) (sym (windows_past n hi past))
            (f, scan_past n hi f past, IsScan-none f)
      | inr there ↦
          subst (Scans (suc n) hi f) (sym (windows_more n hi there))
            (scan_step n hi f _ (answers _ _) there refl (scan_windows-IsScan n _ _ answers))
    ]

-- Where the server lets the client in, names the group and answers every request for rows, the search
-- in a group reads windows that follow each other downwards from the newest article without a gap or
-- an overlap, none longer than a batch, at most as many as allowed and at most 200. It stops behind
-- the first with a match, and else only where the group or the number ends. It counts the windows
-- and the rows it has read, and returns the matching rows, all of the last window.
pub read_windows-IsScan :
    (provider : NntpProvider) (group : ProviderGroup) (client : ScannerClient)
    (request : BookSearchRequest) (info : GroupInfo) (rows : ℤ → ℤ → List OverviewRecord) (n : ℕ)
    → client.connect ≡ ok tt
    → log_in provider client ≡ ok tt
    → client.group group.group_name ≡ ok info
    → ((s e : ℤ) → client.xover s e ≡ ok (rows s e))
    → pos 1 ≤ℤ group.scan_batch_size
    → (found : Found) × (ws : List (ℤ × ℤ)) × (read_windows provider group client request n
        ≡ ok found)
      × TilesDown group client request info (min n 200) info.high ws
      × IsScan group client request info rows ws nothing_found found
unfolding read_windows
read_windows-IsScan provider group client request info rows n connected entered named answers size =
    let (g, done, scan) =
      scan_windows-IsScan group client request info rows (min n 200) info.high nothing_found
        answers in
    (
      g,
      windows group client request info (min n 200) info.high,
      >>=-ok client.connect tt _ connected
          ∙ >>=-ok (log_in provider client) tt _ entered
          ∙ >>=-ok (client.group group.group_name) info _ named
          ∙ done,
      windows-TilesDown group client request info (min n 200) info.high size,
      scan,
    )
