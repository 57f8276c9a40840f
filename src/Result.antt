-- ===== src/Result.antt =====
-- Python exceptions as values: one constructor for each class that the modelled code raises, with
-- the message where the code tells two raises of one class apart by it.
use lore_x.Prelude.{◌⊎◌, inl, inr, ℕ, ◌≡◌, refl, Bool, if◌then◌else◌}
use Prim.Native.String.{String}

pub data Error : Type 0 where
  value_error type_error runtime_error key_error : String → Error
  -- nntp/errors.py
  protocol_error temporary_error authentication_error article_missing configuration_error :
      String → Error
  -- downloader/provider.py, downloader/engine.py
  article_unavailable provider_temporary download_cancelled : Error
  -- library/archive.py
  archive_safety : String → Error
  -- an exception of code that is not modelled
  other_error : ℕ → Error

pub data Result {κ} (V : Type κ) : Type κ where
  err : Error → Result V
  ok : V → Result V

module _ {κ ι} {V : Type κ} {W : Type ι} where
  infixl 5 ◌>>=◌
  -- The rest of a block, which an exception skips.
  abbrev pub ◌>>=◌ : Result V → (V → Result W) → Result W
  err raised >>= rest = err raised
  ok v >>= rest = rest v

  pub >>=-ok :
      (first : Result V) (v : V) (rest : V → Result W) → first ≡ ok v → (first >>= rest) ≡ rest v
  >>=-ok first v rest h = rw h refl

  -- If a block returns, its first step has returned, and so has the rest.
  pub >>=-eq-ok :
      (first : Result V) (rest : V → Result W) {w : W}
      → (first >>= rest) ≡ ok w
      → (v : V) × (first ≡ ok v) × (rest v ≡ ok w)
  >>=-eq-ok (err raised) rest returned = cc
  >>=-eq-ok (ok v) rest returned = (v, refl, returned)

-- `if not test: raise e`
abbrev pub require : Bool → Error → Result (Unit {0})
require test e = if test then ok tt else err e

infixl 5 ◌>>◌
abbrev pub ◌>>◌ {κ} : {W : Type κ} → Result (Unit {0}) → Result W → Result W
first >> rest = first >>= λ _. rest

pub Result-cases {κ} :
    {V : Type κ} (r : Result V) → ((v : V) × (r ≡ ok v)) ⊎ ((e : Error) × (r ≡ err e))
Result-cases (err e) = inr (e, refl)
Result-cases (ok v) = inl (v, refl)
