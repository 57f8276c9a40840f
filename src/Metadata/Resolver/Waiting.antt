-- ===== src/Metadata/Resolver/Waiting.antt =====
-- The wait for another worker that holds the lease (metadata/resolver.py).
use lore_x.Prelude.{
  ℕ, zero, suc, ◌+◌, ◌≤◌, ◌<◌, ◌≡◌, refl, ap, ◌∙◌, Bool, true, false, Bool-cases, Option, none,
  some, ltb, ltb→lt, arith, inl, inr,
}
use lore_x.Result.{Result, ok, err, >>=-ok}
use lore_x.Text.{Text}
use lore_x.Metadata.Model.{MetadataLookup, BookMetadata, normalize_lookup_key}
use lore_x.Metadata.Cache.{CacheEntry}
use lore_x.Metadata.Resolver.{
  MetadataCache, Collaborators, MetadataResolver, count, entry_or_fallback, get_entry, read_entry,
  read_cached, lease_of, give_up, wait_turns, wait_for_leader, resolve_missed, resolve_key, resolve,
}

abbrev Returns : {A : Type 0} → Option A → Type 0
Returns {A = A} o = (a : A) × (o ≡ some a)

turn-Returns :
    {A : Type 0} (cached : Option (Option BookMetadata)) (f : Option BookMetadata → A)
    (lease : Result Bool) (a b : A) (later : Option A)
    → Returns later
    → Returns (elim cached as (λ x. Option A) [
      | some r ↦ some (f r)
      | none ↦ elim lease as (λ x. Option A) [
        | err e ↦ some a
        | ok true ↦ some b
        | ok false ↦ later
      ]
    ])
turn-Returns (some r) f lease a b later h = (f r, refl)
turn-Returns none f (err e) a b later h = (a, refl)
turn-Returns none f (ok true) a b later h = (b, refl)
turn-Returns none f (ok false) a b later h = h

granted-Returns :
    {A : Type 0} (lease : Result Bool) (a : A) (later : Option A)
    → Returns later
    → Returns
        (elim lease as (λ x. Option A) [ err e ↦ some a | ok true ↦ some a | ok false ↦ later ])
granted-Returns (err e) a later h = (a, refl)
granted-Returns (ok true) a later h = (a, refl)
granted-Returns (ok false) a later h = h

missed-Returns :
    {A B : Type 0} (coordinator : Option B) (acquire : B → Result Bool) (a : A) (later : Option A)
    → Returns later
    → Returns (elim coordinator as (λ x. Option A) [
      | none ↦ some a
      | some c ↦ elim (acquire c) as (λ x. Option A) [
        | err e ↦ some a
        | ok true ↦ some a
        | ok false ↦ later
      ]
    ])
missed-Returns none acquire a later h = (a, refl)
missed-Returns (some c) acquire a later h = granted-Returns (acquire c) a later h

cached-Returns :
    {A : Type 0} (first second : Option (Option BookMetadata)) (f g : Option BookMetadata → A)
    (later : Option A)
    → Returns later
    → Returns (elim first as (λ x. Option A) [
      | some r ↦ some (f r)
      | none ↦ elim second as (λ x. Option A) [ some r ↦ some (g r) | none ↦ later ]
    ])
cached-Returns (some r) second f g later h = (f r, refl)
cached-Returns none (some r) f g later h = (g r, refl)
cached-Returns none none f g later h = h

module _ {C : Type 0} (ops : MetadataCache C) where
  entry_or_fallback-now :
      (key : Text) (s : MetadataResolver C) (c : C) (r : Result (Option CacheEntry))
      → (entry_or_fallback ops key s c r).0.now ≡ s.now
  entry_or_fallback-now key s c (ok e) = refl
  entry_or_fallback-now key s c (err e) = refl

  read_entry-now :
      (b : Bool) (s : MetadataResolver C) (e : Option CacheEntry)
      → (read_entry ops b s e).0.now ≡ s.now
  unfolding count
  read_entry-now true s none = refl
  read_entry-now false s none = refl
  read_entry-now b s (some e) = ground arith

  read_cached-now :
      (key : Text) (b : Bool) (s : MetadataResolver C) → (read_cached ops key b s).0.now ≡ s.now
  unfolding read_cached get_entry
  read_cached-now key b s = read_entry-now b _ _ ∙ entry_or_fallback-now key s _ _

  module _ (with_them : Collaborators) (sleeper : ℕ → MetadataResolver C → MetadataResolver C)
      (sleeps : (s : MetadataResolver C) → s.now < (sleeper with_them.poll_interval s).now)
      (key : Text) (lookup : MetadataLookup) (l : Option BookMetadata) where
    wait_turns-Returns :
        (n deadline : ℕ) (s : MetadataResolver C)
        → 1 ≤ n
        → deadline < n + s.now
        → Returns (wait_turns ops with_them sleeper n deadline key lookup l s)
    unfolding wait_turns
    wait_turns-Returns zero deadline s h k = absurd (omega arith)
    wait_turns-Returns (suc n) deadline s h k = elim (Bool-cases (ltb s.now deadline)) [
      | inr over ↦ rw over (give_up ops with_them l s, refl)
      | inl early ↦ rw early (
          turn-Returns (read_cached ops key false s).1 _
            (lease_of ops with_them key
              (sleeper with_them.poll_interval (read_cached ops key false s).0))
            _ _ _
            (let now = read_cached-now key false s in
              let slept = sleeps (read_cached ops key false s).0 in
              let before = ltb→lt s.now deadline early in
              wait_turns-Returns n deadline
                (sleeper with_them.poll_interval (read_cached ops key false s).0) (omega arith)
                (omega arith)))
    ]

    wait_for_leader-Returns :
        (n : ℕ) (s : MetadataResolver C)
        → with_them.follower_wait < n
        → Returns (wait_for_leader ops with_them sleeper n key lookup l s)
    unfolding wait_for_leader count
    wait_for_leader-Returns n s h =
        wait_turns-Returns n (s.now + with_them.follower_wait) _ (omega arith) (omega arith)

    resolve_missed-Returns :
        (n : ℕ) (s : MetadataResolver C)
        → with_them.follower_wait < n
        → Returns (resolve_missed ops with_them sleeper n key lookup l s)
    unfolding resolve_missed
    resolve_missed-Returns n s h =
        missed-Returns with_them.lease_coordinator (λ acquire. acquire key s.now) _ _
          (wait_for_leader-Returns n s h)

    resolve_key-Returns :
        (lock : MetadataResolver C → MetadataResolver C) (n : ℕ) (s : MetadataResolver C)
        → with_them.follower_wait < n
        → Returns (resolve_key ops with_them sleeper lock n key lookup l s)
    unfolding resolve_key
    resolve_key-Returns lock n s h =
        cached-Returns (read_cached ops key true s).1
          (read_cached ops key false (lock (read_cached ops key true s).0)).1 _ _ _
          (resolve_missed-Returns n
            (read_cached ops key false (lock (read_cached ops key true s).0)).0 h)

-- If every sleep lets the clock go on, resolving a book whose lookup has a key always comes to an
-- answer: more turns than the wait is long suffice, whatever the caches, the providers and the
-- coordinator do and whatever other workers do meanwhile.
pub resolve-Returns :
    {C : Type 0} (ops : MetadataCache C) (with_them : Collaborators)
    (sleeper : ℕ → MetadataResolver C → MetadataResolver C)
    (lock : MetadataResolver C → MetadataResolver C) (turns : ℕ) (key : Text)
    (lookup : MetadataLookup) (l : Option BookMetadata) (s : MetadataResolver C)
    → ((t : MetadataResolver C) → t.now < (sleeper with_them.poll_interval t).now)
    → normalize_lookup_key lookup ≡ ok key
    → with_them.follower_wait < turns
    → (answer : MetadataResolver C × Option BookMetadata) × (resolve ops with_them sleeper lock
          turns lookup l s
        ≡ ok (some answer))
unfolding resolve
resolve-Returns ops with_them sleeper lock turns key lookup l s sleeps named enough =
    let (answer, returned) =
      resolve_key-Returns ops with_them sleeper sleeps key lookup l lock turns s enough in
    (answer, >>=-ok (normalize_lookup_key lookup) key _ named ∙ ap ok returned)
