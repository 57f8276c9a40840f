-- ===== src/Downloader/Providers/Fallback.antt =====
-- Whose answer `stream_with_fallback` hands on.
use mathlib.Core.Path.{subst}
use lore_x.Prelude.{
  ◌≡◌, refl, sym, arith, ◌⊎◌, inl, inr, true, Bool-cases, All, append_assoc, append-nil, ap, ◌∙◌,
  Option, none, some, List, [], ◌∷◌, ◌++◌, if◌then◌else◌, nat_eq, list_eq,
}
use lore_x.Result.{
  Result, ok, err, Error, article_unavailable, provider_temporary, value_error, type_error,
  runtime_error, key_error, protocol_error, temporary_error, authentication_error, article_missing,
  configuration_error, download_cancelled, archive_safety, other_error,
}
use lore_x.Text.{Text}
use lore_x.Dict.{get}
use lore_x.Nntp.Stream.{Bytes, Gen}
use lore_x.Downloader.Providers.{
  ProviderConfig, ProviderSet, ArticleProvider, falls_back, stream_from, ordered,
  stream_with_fallback,
}

-- The runs of the providers that have a pool, in their order.
abbrev pub runs : List ProviderConfig → Text → ProviderSet → List (Gen (Unit {0}))
runs [] m s = []
runs (c ∷ cs) m s = elim (get c.name s.pools) [
  | none ↦ runs cs m s
  | some client ↦ client m ∷ runs cs m s
]

-- What the consumer gets of runs one after another: the chunks of every run up to the first that does
-- not end in one of the two exceptions, and that run's end; or else the last of the exceptions.
abbrev chained : List (Gen (Unit {0})) → Option Error → Gen (Unit {0})
chained [] (some e) = ([], err e)
chained [] none = ([], err article_unavailable)
chained ((chunks, ok _) ∷ rs) last = (chunks, ok tt)
chained ((chunks, err e) ∷ rs) last =
    let later = chained rs (some e) in
    if falls_back e then (chunks ++ later.0, later.1) else (chunks, err e)

module _ (m : Text) (s : ProviderSet) (cs : List ProviderConfig)
    (ih : (last : Option Error) → stream_from cs last m s ≡ chained (runs cs m s) last) where
  one_run :
      (r : Gen (Unit {0})) (last : Option Error)
      → (elim r.1 [
        | ok _ ↦ r
        | err e ↦
            if falls_back e
            then (r.0 ++ (stream_from cs (some e) m s).0, (stream_from cs (some e) m s).1)
            else r
      ])
        ≡ chained (r ∷ runs cs m s) last
  one_run (chunks, ok done) last = refl
  one_run (chunks, err e) last = rw (ih (some e)) refl

  one_pool :
      (o : Option ArticleProvider) (last : Option Error)
      → (elim o [
        | none ↦ stream_from cs last m s
        | some client ↦ elim (client m).1 [
          | ok _ ↦ client m
          | err e ↦
              if falls_back e
              then (
                (client m).0 ++ (stream_from cs (some e) m s).0,
                (stream_from cs (some e) m s).1,
              )
              else client m
        ]
      ])
        ≡ chained (elim o [ none ↦ runs cs m s | some client ↦ client m ∷ runs cs m s ]) last
  one_pool none last = ih last
  one_pool (some client) last = one_run (client m) last

stream_from-chained :
    (m : Text) (s : ProviderSet) (cs : List ProviderConfig) (last : Option Error)
    → stream_from cs last m s ≡ chained (runs cs m s) last
unfolding stream_from
stream_from-chained m s [] none = refl
stream_from-chained m s [] (some e) = refl
stream_from-chained m s (c ∷ cs) last =
    one_pool m s cs (stream_from-chained m s cs) (get c.name s.pools) last

stream_with_fallback-chained :
    (m : Text) (s : ProviderSet) → stream_with_fallback m s ≡ chained (runs (ordered s) m s) none
unfolding stream_with_fallback
stream_with_fallback-chained m s = stream_from-chained m s (ordered s) none

-- How a run ends after which another provider is asked: the article is missing there, or the provider
-- has failed for the time being.
abbrev pub IsPassed : Result (Unit {0}) → Type 0
IsPassed end = (end ≡ err article_unavailable) ⊎ (end ≡ err provider_temporary)

abbrev pub all_chunks : List (Gen (Unit {0})) → List Bytes
all_chunks [] = []
all_chunks ((chunks, end) ∷ rs) = chunks ++ all_chunks rs

-- The last run that is read is the first that is not passed, or the very last; what is read is the
-- chunks of all the runs up to it, and its end.
abbrev pub IsRead : List (Gen (Unit {0})) → Gen (Unit {0}) → Type 0
IsRead rs stream =
    (before : List (Gen (Unit {0}))) × (run : Gen (Unit {0})) × (after : List (Gen (Unit {0})))
    × (rs ≡ before ++ run ∷ after)
    × All (λ r. IsPassed r.1) before
    × ((after ≡ []) ⊎ (¬ IsPassed run.1))
    × (stream.0 ≡ all_chunks before ++ run.0)
    × (stream.1 ≡ run.1)

falls_back-IsPassed : (e : Error) → falls_back e ≡ true → IsPassed (err e)
unfolding falls_back
falls_back-IsPassed article_unavailable h = inl refl
falls_back-IsPassed provider_temporary h = inr refl
falls_back-IsPassed (value_error x) h = absurd cc
falls_back-IsPassed (type_error x) h = absurd cc
falls_back-IsPassed (runtime_error x) h = absurd cc
falls_back-IsPassed (key_error x) h = absurd cc
falls_back-IsPassed (protocol_error x) h = absurd cc
falls_back-IsPassed (temporary_error x) h = absurd cc
falls_back-IsPassed (authentication_error x) h = absurd cc
falls_back-IsPassed (article_missing x) h = absurd cc
falls_back-IsPassed (configuration_error x) h = absurd cc
falls_back-IsPassed download_cancelled h = absurd cc
falls_back-IsPassed (archive_safety x) h = absurd cc
falls_back-IsPassed (other_error x) h = absurd cc

IsPassed-falls_back : (e : Error) → IsPassed (err e) → falls_back e ≡ true
unfolding falls_back
IsPassed-falls_back e (inl h) = let same : e ≡ article_unavailable = cc in rw same refl
IsPassed-falls_back e (inr h) = let same : e ≡ provider_temporary = cc in rw same refl

-- A run that is passed stands before what is read.
passed-IsRead :
    (chunks : List Bytes) (e : Error) (rs : List (Gen (Unit {0}))) (stream : Gen (Unit {0}))
    → IsPassed (err e)
    → IsRead rs stream
    → IsRead ((chunks, err e) ∷ rs) (chunks ++ stream.0, stream.1)
passed-IsRead chunks e rs stream passed (before, run, after, split, all_passed, stops, read, end) =
    (
      (chunks, err e) ∷ before,
      run,
      after,
      ap (λ l. (chunks, err e) ∷ l) split,
      (passed, all_passed),
      stops,
      ap (λ l. chunks ++ l) read ∙ sym (append_assoc chunks (all_chunks before) run.0),
      end,
    )

-- A run that is not passed ends what is read.
stopped-IsRead :
    (run : Gen (Unit {0})) (rs : List (Gen (Unit {0}))) → ¬ IsPassed run.1 → IsRead (run ∷ rs) run
stopped-IsRead run rs stops = ([], run, rs, refl, tt, inr stops, refl, refl)

raised-IsRead :
    (chunks : List Bytes) (e : Error) (rs : List (Gen (Unit {0}))) (later : Gen (Unit {0}))
    → (IsPassed (err e) → IsRead ((chunks, err e) ∷ rs) (chunks ++ later.0, later.1))
    → IsRead
        ((chunks, err e) ∷ rs)
        (if falls_back e then (chunks ++ later.0, later.1) else (chunks, err e))
raised-IsRead chunks e rs later onwards = elim (Bool-cases (falls_back e)) [
  | inl passes ↦ rw passes (onwards (falls_back-IsPassed e passes))
  | inr stops ↦ rw stops (
      stopped-IsRead (chunks, err e) rs
        (λ passed. absurd (ground (arith, stops, IsPassed-falls_back e passed))))
]

chained-IsRead :
    (r : Gen (Unit {0})) (rs : List (Gen (Unit {0}))) (last : Option Error)
    → IsRead (r ∷ rs) (chained (r ∷ rs) last)
chained-IsRead (chunks, ok done) rs last =
    stopped-IsRead (chunks, ok done) rs
      (λ passed. elim passed [ inl h ↦ absurd cc | inr h ↦ absurd cc ])
chained-IsRead (chunks, err e) [] last =
    raised-IsRead chunks e [] ([], err e)
      (λ passed. ([], (chunks, err e), [], refl, tt, inl refl, append-nil chunks, refl))
chained-IsRead (chunks, err e) (r ∷ rs) last =
    raised-IsRead chunks e (r ∷ rs) (chained (r ∷ rs) (some e)) (λ passed.
      passed-IsRead chunks e (r ∷ rs) (chained (r ∷ rs) (some e)) passed
        (chained-IsRead r rs (some e)))

-- The enabled providers that have a pool are read one after another in their order, as long as a run
-- ends with the article unavailable or a temporary failure of the provider, and no longer: the first
-- run with another end, or the last run of all, ends the stream as it ends itself, with the chunks of
-- every run so far. Without such a provider the article is unavailable.
pub stream_with_fallback-IsRead :
    (m : Text) (s : ProviderSet)
    → ((runs (ordered s) m s ≡ []) × (stream_with_fallback m s ≡ ([], err article_unavailable)))
      ⊎ IsRead (runs (ordered s) m s) (stream_with_fallback m s)
stream_with_fallback-IsRead m s = by_runs (runs (ordered s) m s) refl
  where
    by_runs :
        (rs : List (Gen (Unit {0})))
        → runs (ordered s) m s ≡ rs
        → ((runs (ordered s) m s ≡ []) × (stream_with_fallback m s ≡ ([], err article_unavailable)))
          ⊎ IsRead (runs (ordered s) m s) (stream_with_fallback m s)
    by_runs [] q = inl (q, stream_with_fallback-chained m s ∙ ap (λ l. chained l none) q)
    by_runs (r ∷ rs) q =
        let read : stream_with_fallback m s ≡ chained (r ∷ rs) none =
          stream_with_fallback-chained m s ∙ ap (λ l. chained l none) q in
        inr (
          subst (λ l. IsRead l (stream_with_fallback m s)) (sym q)
            (subst (IsRead (r ∷ rs)) (sym read) (chained-IsRead r rs none)))

-- If the first provider with a pool fails with a temporary error after some chunks and the second
-- streams the article, the consumer gets the chunks of the failed run and then the whole article.
pub stream_with_fallback-mixed :
    (m : Text) (s : ProviderSet) (partial whole : List Bytes) (others : List (Gen (Unit {0})))
    → runs (ordered s) m s ≡ (partial, err provider_temporary) ∷ (whole, ok tt) ∷ others
    → stream_with_fallback m s ≡ (partial ++ whole, ok tt)
unfolding falls_back
stream_with_fallback-mixed m s partial whole others h =
    stream_with_fallback-chained m s ∙ ap (λ rs. chained rs none) h
