-- ===== src/Process.antt =====
-- A procedure that changes a state and may raise: the state it leaves, and whether it returned. An
-- exception leaves the changes that were made before it.
use lore_x.Prelude.{◌≡◌}
use lore_x.Result.{Result, ok, err, Error}

abbrev pub Process : Type 0 → Type 0
Process S = S × Result (Unit {0})

module _ {S : Type 0} where
  abbrev pub returns : S → Process S
  returns s = (s, ok tt)

  abbrev pub raises : Error → S → Process S
  raises e s = (s, err e)

  -- The next statement, which an exception skips.
  abbrev pub next : Process S → (S → Process S) → Process S
  next (s, err e) f = (s, err e)
  next (s, ok _) f = f s

  -- What the first statement establishes and the second keeps holds after both.
  pub next_keeps :
      (P : S → Type 0) (m : Process S) (f : S → Process S)
      → P m.0
      → ((s : S) → P s → P (f s).0)
      → P (next m f).0
  next_keeps P (s, err e) f first later = first
  next_keeps P (s, ok _) f first later = later s first

  -- If both return, the first has returned.
  pub next-returned :
      (m : Process S) (f : S → Process S) {s : S}
      → next m f ≡ returns s
      → (m.1 ≡ ok tt) × (f m.0 ≡ returns s)
  next-returned (s, err e) f h = cc
  next-returned (s, ok tt) f h = (cc, h)

-- The state that an operation leaves, and its result or exception.
abbrev pub Work : Type 0 → Type 0 → Type 0
Work S A = S × Result A

-- What follows an operation, if it returns.
abbrev pub after : {S A B : Type 0} → Work S A → (A → S → Work S B) → Work S B
after (s, err e) f = (s, err e)
after (s, ok a) f = f a s

-- What holds of the state an operation leaves, and of what follows it, holds at the end.
pub after_keeps :
    {S A B : Type 0} (P : S → Type 0) (m : Work S A) (f : A → S → Work S B)
    → P m.0
    → ((a : A) (s : S) → P s → P (f a s).0)
    → P (after m f).0
after_keeps P (s, err e) f first later = first
after_keeps P (s, ok a) f first later = later a s first
