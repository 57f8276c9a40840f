-- ===== src/Nntp/Stream.antt =====
-- A Python generator that is read to its end: the chunks that it yields, and then its return value
-- or the exception that ends it.
use lore_x.Prelude.{ℕ, List, [], ◌∷◌, ◌++◌, Bool, true, false}
use lore_x.Result.{Result, ok, err, Error}

abbrev pub Bytes : Type 0
Bytes = List ℕ

abbrev pub Gen : Type 0 → Type 0
Gen A = List Bytes × Result A

module _ {A : Type 0} where
  abbrev pub pure : A → Gen A
  pure a = ([], ok a)

  abbrev pub raise : Error → Gen A
  raise e = ([], err e)

  abbrev pub lift : Result A → Gen A
  lift r = ([], r)

infixl 5 ◌>>=◌ ◌>>◌
-- `yield from`
abbrev pub ◌>>=◌ : {A B : Type 0} → Gen A → (A → Gen B) → Gen B
(cs, err e) >>= f = (cs, err e)
(cs, ok a) >>= f = let (ds, r) = f a in (cs ++ ds, r)

abbrev pub ◌>>◌ : {B : Type 0} → Gen (Unit {0}) → Gen B → Gen B
m >> k = m >>= λ _. k

abbrev pub raise_if : Bool → Error → Gen (Unit {0})
raise_if true e = raise e
raise_if false e = pure tt

-- The bytes that a consumer has after reading the chunks.
abbrev pub joined : List Bytes → Bytes
joined [] = []
joined (c ∷ cs) = c ++ joined cs
