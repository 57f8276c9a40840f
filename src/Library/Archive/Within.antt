-- ===== src/Library/Archive/Within.antt =====
-- Where a path leads, and the paths that library/archive.py lets pass.
use lore_x.Prelude.{
  ℕ, ◌≡◌, ◌≢◌, refl, sym, ap, ◌∙◌, Bool, true, false, not, ◌||◌, List, [], ◌∷◌, ◌++◌, any, keep,
  All, append_assoc, append-nil, arith, if◌then◌else◌, ◌==◌, ◌=?◌, nat_eq, list_eq, Bool-cases, inl,
  inr, list_beq_iff,
}
use lore_x.Text.{Text, codes, is_empty, starts_with}
use lore_x.Text.Number.{words, split_runs}
use lore_x.Library.Archive.{with_slashes, path_parts, is_absolute, is_safe_path}

-- A directory is the list of the names on the way to it from the root, the innermost first.
abbrev pub Directory : Type 0
Directory = List Text

abbrev pub is_separator : ℕ → Bool
is_separator c = (c == 47) || (c == 92)

-- One part of a path: an empty one and a dot stay, two dots go up, and any other goes down.
unfoldable pub enter : Text → Directory → Directory
enter part [] =
    if is_empty part || (part =? codes ".") || (part =? codes "..") then [] else part ∷ []
enter part (inner ∷ outer) =
    if is_empty part || (part =? codes ".")
    then inner ∷ outer
    else if part =? codes ".."
    then outer
    else part ∷ inner ∷ outer

-- The way on, with the part that has been read so far.
unfoldable pub walk : Directory → Text → Text → Directory
unfolding enter
walk dir part [] = enter part dir
walk dir part (c ∷ s) =
    let within = walk dir (part ++ c ∷ []) s in
    let next = walk (enter part dir) [] s in if is_separator c then next else within

-- Where a path leads from a directory; one that begins with a separator starts at the root.
unfoldable pub resolve : Directory → Text → Directory
unfolding walk
resolve dir [] = dir
resolve dir (c ∷ s) = if is_separator c then walk [] [] (c ∷ s) else walk dir [] (c ∷ s)

-- A path that is not empty and leads from any directory to itself or below it.
abbrev pub IsWithin : Text → Type 0
IsWithin path =
    (path ≢ []) × ((dir : Directory) → (below : Directory) × (resolve dir path ≡ below ++ dir))

abbrev enter_all : List Text → Directory → Directory
enter_all [] dir = dir
enter_all (p ∷ ps) dir = enter_all ps (enter p dir)

enter_nothing : (dir : Directory) → enter [] dir ≡ dir
unfolding enter
enter_nothing [] = refl
enter_nothing (inner ∷ outer) = refl

-- The parts as `words` gives them, without an empty first one.
enter_all-first :
    (w : Text) (ws : List Text) (dir : Directory)
    → enter_all (if is_empty w then ws else w ∷ ws) dir ≡ enter_all (w ∷ ws) dir
enter_all-first [] ws dir = ap (enter_all ws) (sym (enter_nothing dir))
enter_all-first (c ∷ w) ws dir = refl

abbrev is_slash : ℕ → Bool
is_slash c = c == 47

slash_of : (c : ℕ) → is_slash (if c == 92 then 47 else c) ≡ is_separator c
slash_of c = ground arith

same_char : (c : ℕ) → is_separator c ≡ false → (if c == 92 then 47 else c) ≡ c
same_char c h = ground arith

walk_next :
    (c : ℕ) (s part : Text) (dir : Directory)
    → is_separator c ≡ true
    → walk dir part (c ∷ s) ≡ walk (enter part dir) [] s
unfolding walk
walk_next c s part dir h =
    ap (λ b. if b then walk (enter part dir) [] s else walk dir (part ++ c ∷ []) s) h

walk_within :
    (c : ℕ) (s part : Text) (dir : Directory)
    → is_separator c ≡ false
    → walk dir part (c ∷ s) ≡ walk dir (part ++ c ∷ []) s
unfolding walk
walk_within c s part dir h =
    ap (λ b. if b then walk (enter part dir) [] s else walk dir (part ++ c ∷ []) s) h

abbrev runs : Text → Text × List Text
runs s = split_runs is_slash (with_slashes s)

runs_next :
    (c : ℕ) (s : Text)
    → is_separator c ≡ true
    → runs (c ∷ s) ≡ ([], if is_empty (runs s).0 then (runs s).1 else (runs s).0 ∷ (runs s).1)
unfolding split_runs with_slashes
runs_next c s h =
    ap
      (λ b.
        if b
        then ([], (if is_empty (runs s).0 then (runs s).1 else (runs s).0 ∷ (runs s).1))
        else ((if c == 92 then 47 else c) ∷ (runs s).0, (runs s).1))
      (slash_of c ∙ h)

runs_within :
    (c : ℕ) (s : Text) → is_separator c ≡ false → runs (c ∷ s) ≡ (c ∷ (runs s).0, (runs s).1)
unfolding split_runs with_slashes
runs_within c s h =
    ap
      (λ b.
        if b
        then ([], (if is_empty (runs s).0 then (runs s).1 else (runs s).0 ∷ (runs s).1))
        else ((if c == 92 then 47 else c) ∷ (runs s).0, (runs s).1))
      (slash_of c ∙ h)
    ∙ ap (λ d. (d ∷ (runs s).0, (runs s).1)) (same_char c h)

-- Where the parts of a path lead, of which a first one has begun.
abbrev led : Text → Text × List Text → Directory → Directory
led part (w, ws) dir = enter_all ((part ++ w) ∷ ws) dir

walk-runs : (s part : Text) (dir : Directory) → walk dir part s ≡ led part (runs s) dir
walk-runs [] part dir =
    unfold walk split_runs with_slashes in ap (λ p. enter p dir) (sym (append-nil part))
walk-runs (c ∷ s) part dir = elim (Bool-cases (is_separator c)) [
  | inl apart ↦
      walk_next c s part dir apart
      ∙ walk-runs s [] (enter part dir)
      ∙ sym (enter_all-first (runs s).0 (runs s).1 (enter part dir))
      ∙ ap
          (λ p.
            enter_all (if is_empty (runs s).0 then (runs s).1 else (runs s).0 ∷ (runs s).1)
              (enter p dir))
          (sym (append-nil part))
      ∙ ap (λ r. led part r dir) (sym (runs_next c s apart))
  | inr within ↦
      walk_within c s part dir within
      ∙ walk-runs s (part ++ c ∷ []) dir
      ∙ ap (λ p. enter_all (p ∷ (runs s).1) dir) (append_assoc part (c ∷ []) (runs s).0)
      ∙ ap (λ r. led part r dir) (sym (runs_within c s within))
]

stays-below :
    (p : Text) (dir : Directory)
    → (p =? codes "..") ≡ false
    → (below : Directory) × (enter p dir ≡ below ++ dir)
unfolding enter
stays-below p [] h = (enter p [], sym (append-nil (enter p [])))
stays-below p (inner ∷ outer) h = elim (Bool-cases (is_empty p || (p =? codes "."))) [
  | inl stays ↦ ([], rw stays refl)
  | inr goes ↦ (p ∷ [], rw (goes, h) refl)
]

enter_all-below :
    (ps : List Text) (dir : Directory)
    → All (λ p. (p =? codes "..") ≡ false) ps
    → (below : Directory) × (enter_all ps dir ≡ below ++ dir)
enter_all-below [] dir h = ([], refl)
enter_all-below (p ∷ ps) dir h =
    let (first, entered) = stays-below p dir h.0 in
    let (rest, all_entered) = enter_all-below ps (enter p dir) h.1 in
    (rest ++ first, all_entered ∙ ap (λ d. rest ++ d) entered ∙ sym (append_assoc rest first dir))

no_dots :
    (ps : List Text)
    → any (λ p. p =? codes "..") (keep (λ p. not (p =? codes ".")) ps) ≡ false
    → All (λ p. (p =? codes "..") ≡ false) ps
no_dots [] h = tt
no_dots (p ∷ ps) h = elim (Bool-cases (p =? codes ".")) [
  | inl dot ↦
      let same : p ≡ codes "." = (list_beq_iff p (codes ".")).0 dot in
      (rw same refl, no_dots ps (ground (arith, h, dot)))
  | inr other ↦ (ground (arith, h, other), no_dots ps (ground (arith, h, other)))
]

resolve_relative :
    (c : ℕ) (s : Text) (dir : Directory)
    → is_separator c ≡ false
    → resolve dir (c ∷ s) ≡ walk dir [] (c ∷ s)
unfolding resolve
resolve_relative c s dir h = ap (λ b. if b then walk [] [] (c ∷ s) else walk dir [] (c ∷ s)) h

abbrev first_parts : Text × List Text → List Text
first_parts (w, ws) = if is_empty w then ws else w ∷ ws

is_safe_path-parts :
    (c : ℕ) (s : Text)
    → is_safe_path (c ∷ s) ≡ true
    → (is_separator c ≡ false)
      × (any (λ p. p =? codes "..") (keep (λ p. not (p =? codes ".")) (first_parts (runs (c ∷ s))))
          ≡ false)
unfolding is_safe_path path_parts is_absolute starts_with words
is_safe_path-parts c s h = unfold with_slashes in ground (arith, h, slash_of c)

pub is_safe_path-IsWithin : (path : Text) → is_safe_path path ≡ true → IsWithin path
is_safe_path-IsWithin [] h = unfold is_safe_path with_slashes in absurd cc
is_safe_path-IsWithin (c ∷ s) h = (
  λ empty. absurd cc,
  λ dir.
      let (relative, clean) = is_safe_path-parts c s h in
      let (below, entered) = enter_all-below (first_parts (runs (c ∷ s))) dir (no_dots _ clean) in
      (
        below,
        resolve_relative c s dir relative
            ∙ walk-runs (c ∷ s) [] dir
            ∙ sym (enter_all-first (runs (c ∷ s)).0 (runs (c ∷ s)).1 dir)
            ∙ entered,
      ),
)
