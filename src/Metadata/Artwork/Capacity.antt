-- ===== src/Metadata/Artwork/Capacity.antt =====
-- The permits and the active keys of the artwork scheduler (metadata/artwork.py).
use lore_x.Prelude.{
  ℕ, ◌+◌, ◌≤◌, ◌≡◌, refl, sym, ap, ◌∙◌, Bool, true, false, not, ◌||◌, List, [], ◌∷◌, ◌++◌, any,
  keep, arith, if◌then◌else◌, ◌=?◌, =?-refl, =?-eq, Eq, nat_eq, list_eq,
}
use lore_x.Prelude.Int.{ℤ}
use lore_x.Result.{ok}
use lore_x.Text.{Text}
use lore_x.Metadata.Artwork.{
  ArtworkScheduler, new_scheduler, Phase, checking, acquiring, admitting, submitting, running,
  dropping, releasing, is_active, discard, release, counted, check, acquire, admit, advance, close,
  World, thread_list, Step, calls, moves, closes, Reach, begins, goes_on,
}

-- The permits that a call holds at a place.
abbrev pub holds : Phase → ℕ
holds checking = 0
holds acquiring = 0
holds admitting = 1
holds submitting = 1
holds running = 1
holds dropping = 1
holds releasing = 1

-- Whether the artwork of a call is with the executor, or about to be.
abbrev pub owns : Phase → ℕ
owns checking = 0
owns acquiring = 0
owns admitting = 0
owns submitting = 1
owns running = 1
owns dropping = 0
owns releasing = 0

abbrev pub one_if : Bool → ℕ
one_if true = 1
one_if false = 0

abbrev pub held : List (Phase × Text) → ℕ
held [] = 0
held ((p, k) ∷ ts) = holds p + held ts

-- How many calls have the artwork of this key with the executor.
abbrev pub owners : Text → List (Phase × Text) → ℕ
owners key [] = 0
owners key ((p, k) ∷ ts) = (if k =? key then owns p else 0) + owners key ts

held-append : (ts us : List (Phase × Text)) → held (ts ++ us) ≡ held ts + held us
held-append [] us = omega arith
held-append ((p, k) ∷ ts) us = omega (arith, held-append ts us)

owners-append :
    (key : Text) (ts us : List (Phase × Text))
    → owners key (ts ++ us) ≡ owners key ts + owners key us
owners-append key [] us = omega arith
owners-append key ((p, k) ∷ ts) us = omega (arith, owners-append key ts us)

-- No permit is lost, and the active keys are those with the executor, each once.
abbrev pub IsBalanced : World → Type 0
IsBalanced w =
    (w.scheduler.capacity + held w.threads ≡ w.scheduler.permits)
    × ((key : Text) → owners key w.threads ≡ one_if (is_active key w.scheduler))

any-keep {ℓ} :
    {A : Type ℓ} ⦃e : Eq A⦄ (k j : A) (xs : List A)
    → any (λ x. x =? j) (keep (λ x. not (x =? k)) xs)
      ≡ (if k =? j then false else any (λ x. x =? j) xs)
any-keep k j [] = ground arith
any-keep ⦃e⦄ k j (x ∷ xs) =
    ground (arith, any-keep k j xs, e.beq_iff x k, e.beq_iff x j, e.beq_iff k j)

-- What one part of a call does to the permits and to the active keys.
advance-permits :
    (raises : Bool) (phase : Phase) (key : Text) (s : ArtworkScheduler)
    → ((advance raises phase key s).0.capacity
          + held (thread_list (advance raises phase key s).1 key)
        ≡ s.capacity + holds phase)
      × ((advance raises phase key s).0.permits ≡ s.permits)
unfolding advance check acquire admit discard release counted
advance-permits raises checking key s = ground arith
advance-permits raises acquiring key s = ground arith
advance-permits raises admitting key s = ground arith
advance-permits raises submitting key s = ground arith
advance-permits raises running key s = (omega arith, refl)
advance-permits raises dropping key s = (omega arith, refl)
advance-permits raises releasing key s = (omega arith, refl)

-- The thread's own key, at its place.
abbrev own : Phase → Text → Text → ℕ
own phase key j = if key =? j then owns phase else 0

discard-active :
    (key j : Text) (s : ArtworkScheduler)
    → is_active j (discard key s) ≡ (if key =? j then false else is_active j s)
unfolding discard
discard-active key j s = any-keep key j s.active

same_active :
    (key j : Text) (s : ArtworkScheduler) → (key =? j) ≡ true → is_active key s ≡ is_active j s
same_active key j s h = ap (λ k. is_active k s) (=?-eq key j h)

one_if-true : (b : Bool) → 1 ≤ one_if b → b ≡ true
one_if-true true h = refl
one_if-true false h = absurd (omega arith)

new_owner :
    (same active : Bool)
    → (same ≡ true → active ≡ false)
    → (if same then 1 else 0) + 0 + one_if active ≡ one_if (same || active)
new_owner true active h = rw (h refl) (omega arith)
new_owner false active h = omega arith

admitted-owners :
    (key j : Text) (s : ArtworkScheduler) (closed active : Bool)
    → s.closed ≡ closed
    → is_active key s ≡ active
    → owners j (thread_list (admit key s).1 key) + one_if (is_active j s)
      ≡ one_if (is_active j (admit key s).0)
unfolding admit release counted
admitted-owners key j s true active h k = rw h (omega arith)
admitted-owners key j s false true h k = rw (h, k) (omega arith)
admitted-owners key j s false false h k =
    rw (h, k) (new_owner (key =? j) (is_active j s) (λ same. sym (same_active key j s same) ∙ k))

no_owner : (same : Bool) (n : ℕ) → n ≡ (if same then 0 else 0) + n
no_owner true n = omega arith
no_owner false n = omega arith

-- What a call that owns its key may assume: the key is active.
advance-owners :
    (raises : Bool) (phase : Phase) (key j : Text) (s : ArtworkScheduler)
    → owns phase ≤ one_if (is_active key s)
    → owners j (thread_list (advance raises phase key s).1 key) + one_if (is_active j s)
      ≡ own phase key j + one_if (is_active j (advance raises phase key s).0)
unfolding advance check acquire admit release counted
advance-owners raises checking key j s h = ground arith
advance-owners raises acquiring key j s h = ground arith
advance-owners raises admitting key j s h =
    admitted-owners key j s _ _ refl refl ∙ no_owner (key =? j) _
advance-owners true submitting key j s h =
    ground (arith, discard-active key j s, same_active key j s, one_if-true _ h)
advance-owners false submitting key j s h = ground arith
advance-owners raises running key j s h =
    ground (arith, discard-active key j s, same_active key j s, one_if-true _ h)
advance-owners raises dropping key j s h = ground arith
advance-owners raises releasing key j s h = ground arith

-- The thread that moves has its key among the active ones, if it owns it.
mover_active :
    (before after : List (Phase × Text)) (phase : Phase) (key : Text) (s : ArtworkScheduler)
    → owners key (before ++ (phase, key) ∷ after) ≡ one_if (is_active key s)
    → owns phase ≤ one_if (is_active key s)
mover_active before after phase key s h =
    let self : (if key =? key then owns phase else 0) ≡ owns phase = rw (=?-refl key) refl in
    omega (arith, h, self, owners-append key before ((phase, key) ∷ after))

moves-IsBalanced :
    (raises : Bool) (before after : List (Phase × Text)) (phase : Phase) (key : Text)
    (s : ArtworkScheduler)
    → IsBalanced (record { scheduler = s; threads = before ++ (phase, key) ∷ after })
    → IsBalanced (record {
      scheduler = (advance raises phase key s).0;
      threads = before ++ (thread_list (advance raises phase key s).1 key ++ after);
    })
moves-IsBalanced raises before after phase key s (sum, each) =
    let next = thread_list (advance raises phase key s).1 key in
    (
      omega (
        arith,
        sum,
        held-append before ((phase, key) ∷ after),
        held-append before (next ++ after),
        held-append next after,
        advance-permits raises phase key s,
      ),
      λ j. omega (
        arith,
        each j,
        owners-append j before ((phase, key) ∷ after),
        owners-append j before (next ++ after),
        owners-append j next after,
        advance-owners raises phase key j s (mover_active before after phase key s (each key)),
      ),
    )

own_none : (b : Bool) → ◌≡◌ {A = ℕ} (if b then 0 else 0) 0
own_none true = refl
own_none false = refl

Step-IsBalanced : (w w' : World) → Step w w' → IsBalanced w → IsBalanced w'
unfolding close
Step-IsBalanced w w' (calls key _) (sum, each) = (
  omega (arith, sum, held-append w.threads ((checking, key) ∷ [])),
  λ j.
      owners-append j w.threads ((checking, key) ∷ []) ∙ omega (arith, each j, own_none (key =? j)),
)
Step-IsBalanced w w' (moves raises before after phase key s) h =
    moves-IsBalanced raises before after phase key s h
Step-IsBalanced w w' (closes _) h = h

Step-permits : (w w' : World) → Step w w' → w'.scheduler.permits ≡ w.scheduler.permits
unfolding close
Step-permits w w' (calls key _) = refl
Step-permits w w' (moves raises before after phase key s) = (advance-permits raises phase key s).1
Step-permits w w' (closes _) = refl

new_scheduler-fresh :
    (workers queue : ℤ) (s : ArtworkScheduler)
    → new_scheduler workers queue ≡ ok s
    → (s.capacity ≡ s.permits) × (s.active ≡ [])
unfolding new_scheduler
new_scheduler-fresh workers queue s h = ground (arith, h)

Reach-kept :
    (s : ArtworkScheduler) (w : World)
    → s.capacity ≡ s.permits
    → s.active ≡ []
    → Reach s w
    → IsBalanced w × (w.scheduler.permits ≡ s.permits)
Reach-kept s w full idle (begins _) = ((omega (arith, full), λ key. rw idle refl), refl)
Reach-kept s w full idle (goes_on _ v _ before step) =
    let (balanced, same) = Reach-kept s v full idle before in
    (Step-IsBalanced v w step balanced, Step-permits v w step ∙ same)

at_most_one : (n : ℕ) (b : Bool) → n ≡ one_if b → n ≤ 1
at_most_one n true h = omega arith
at_most_one n false h = omega arith

-- However the calls of a new scheduler and its workers interleave, and whether the executor takes
-- their artwork or raises, every permit is free or held by one call, the active keys are those with
-- the executor, and never are more artworks with it than there are permits, nor one key twice.
pub Reach-IsBalanced :
    (workers queue : ℤ) (s : ArtworkScheduler) (w : World)
    → new_scheduler workers queue ≡ ok s
    → Reach s w
    → IsBalanced w × (held w.threads ≤ s.permits) × ((key : Text) → owners key w.threads ≤ 1)
Reach-IsBalanced workers queue s w made reached =
    let (full, idle) = new_scheduler-fresh workers queue s made in
    let (balanced, same) = Reach-kept s w full idle reached in
    (balanced, omega (arith, balanced.0, same), λ key. at_most_one _ _ (balanced.1 key))
