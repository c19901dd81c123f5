-- ===== src/Idempotency/Memory.antt =====
-- `MemoryGuard`: the bound on its size, and the map with expiring keys that it stands for.
use intelliops.Base.{
  ℕ, ◌≤◌, String, ◌==◌, ==_iff, none, some, List, [], ◌∷◌, ◌++◌, length, ◌≡◌, ◌≢◌, refl, arith,
  if◌then◌else◌, ◌+◌, ◌<◌, length-append, ltb, true, ◌↔◌, false, ◌⊎◌,
}
use intelliops.Base.Dict.{Dict, IsDict, lookup, erase}
use intelliops.Idempotency.{MemoryGuard, trim, live, touch, claim}

-- At most `max_keys` entries, and none twice.
abbrev pub IsValid : MemoryGuard → Type 0
IsValid g = (length g.seen ≤ g.max_keys) × IsDict g.seen

length-trim {ℓ} : {V : Type ℓ} (m : ℕ) (l : List V) → length (trim m l) ≤ m
unfolding trim
length-trim m [] = omega arith
length-trim m (e ∷ l) = ground (arith, length-trim m l)

trim_fits {ℓ} : {V : Type ℓ} (m : ℕ) (l : List V) → length l ≤ m → trim m l ≡ l
unfolding trim
trim_fits m [] h = refl
trim_fits m (e ∷ l) h = ground arith

module _ {ℓ} {V : Type ℓ} where
  lookup-trim-none :
      (m : ℕ) (k : String) (l : Dict V) → lookup k l ≡ none → lookup k (trim m l) ≡ none
  unfolding trim lookup
  lookup-trim-none m k [] h = refl
  lookup-trim-none m k ((j, v) ∷ l) h = ground (arith, lookup-trim-none m k l)

  IsDict-trim : (m : ℕ) (l : Dict V) → IsDict l → IsDict (trim m l)
  unfolding trim
  IsDict-trim m [] h = tt
  IsDict-trim m ((j, v) ∷ l) h = ground (arith, IsDict-trim m l h.1)

  lookup-erase_ne : (k j : String) (l : Dict V) → k ≢ j → lookup j (erase k l) ≡ lookup j l
  unfolding lookup erase
  lookup-erase_ne k j [] h = refl
  lookup-erase_ne k j ((i, v) ∷ l) h =
      ground (arith, ==_iff i k, ==_iff i j, ==_iff k j, lookup-erase_ne k j l h)

  lookup-erase_self : (k : String) (l : Dict V) → IsDict l → lookup k (erase k l) ≡ none
  unfolding lookup erase
  lookup-erase_self k [] h = refl
  lookup-erase_self k ((i, v) ∷ l) h = ground (arith, ==_iff i k, lookup-erase_self k l h.1)

  length-erase-le : (k : String) (l : Dict V) → length (erase k l) ≤ length l
  unfolding erase
  length-erase-le k [] = omega arith
  length-erase-le k ((i, v) ∷ l) = ground (arith, length-erase-le k l)

  lookup-erase-none : (k j : String) (l : Dict V) → lookup j l ≡ none → lookup j (erase k l) ≡ none
  unfolding lookup erase
  lookup-erase-none k j [] h = refl
  lookup-erase-none k j ((i, v) ∷ l) h = ground (arith, lookup-erase-none k j l)

  IsDict-erase : (k : String) (l : Dict V) → IsDict l → IsDict (erase k l)
  unfolding erase
  IsDict-erase k [] h = tt
  IsDict-erase k ((i, v) ∷ l) h = ground (arith, IsDict-erase k l h.1, lookup-erase-none k i l h.0)

  lookup-snoc :
      (k j : String) (v : V) (l : Dict V)
      → lookup k l ≡ none
      → lookup j (l ++ ((k, v) ∷ [])) ≡ (if k == j then some v else lookup j l)
  unfolding lookup
  lookup-snoc k j v [] h = refl
  lookup-snoc k j v ((i, w) ∷ l) h =
      ground (arith, ==_iff i k, ==_iff i j, ==_iff k j, lookup-snoc k j v l)

  IsDict-snoc :
      (k : String) (v : V) (l : Dict V) → lookup k l ≡ none → IsDict l → IsDict (l ++ ((k, v) ∷ []))
  unfolding lookup
  IsDict-snoc k v [] n h = (refl, tt)
  IsDict-snoc k v ((i, w) ∷ l) n h =
      ground (arith, ==_iff i k, ==_iff k i, lookup-snoc k i v l, IsDict-snoc k v l)

-- The newest entry outlives the trimming.
lookup-trim_newest {ℓ} :
    {V : Type ℓ} (m : ℕ) (k : String) (v : V) (l : Dict V)
    → 0 < m
    → lookup k l ≡ none
    → lookup k (trim m (l ++ ((k, v) ∷ []))) ≡ some v
unfolding trim lookup
lookup-trim_newest m k v [] p h = ground (arith, ==_iff k k)
lookup-trim_newest m k v ((i, w) ∷ l) p h =
    ground (arith, ==_iff i k, ==_iff k k, lookup-trim_newest m k v l p, lookup-snoc k k v l)

module _ (g : MemoryGuard) (valid : IsValid g) where
  touch-IsValid : (now : ℕ) (k v : String) → IsValid (touch now k v g)
  unfolding touch
  touch-IsValid now k v = (
    length-trim g.max_keys _,
    IsDict-trim g.max_keys _ (
        IsDict-snoc k (v, now + g.ttl) (erase k g.seen) (lookup-erase_self k g.seen valid.1)
          (IsDict-erase k g.seen valid.1)),
  )

  live-IsValid : (now : ℕ) (k : String) → IsValid (live now k g).1
  unfolding live
  live-IsValid now k = ground (arith, IsDict-erase k g.seen valid.1, length-erase-le k g.seen)

  -- What is written is there until its time has passed, however full the guard is.
  pub live-touch_self :
      (now then' : ℕ) (k v : String)
      → 0 < g.max_keys
      → (live then' k (touch now k v g)).0 ≡ (if ltb then' (now + g.ttl) then some v else none)
  unfolding live touch
  live-touch_self now then' k v p = ground (
    arith,
    lookup-trim_newest g.max_keys k (v, now + g.ttl) (erase k g.seen) p
        (lookup-erase_self k g.seen valid.1),
  )

  lookup-touch :
      (now : ℕ) (k j v : String)
      → length (erase k g.seen) < g.max_keys
      → lookup j (touch now k v g).seen
        ≡ (if k == j then some (v, now + g.ttl) else lookup j g.seen)
  unfolding touch
  lookup-touch now k j v room =
      let l = erase k g.seen in
      let e : (String × ℕ) = (v, now + g.ttl) in
      let fits =
        trim_fits g.max_keys (l ++ ((k, e) ∷ [])) (omega (arith, length-append l ((k, e) ∷ []))) in
      ground (
        arith,
        fits,
        lookup-snoc k j e l (lookup-erase_self k g.seen valid.1),
        lookup-erase_ne k j g.seen,
        ==_iff k j,
      )

  -- In a valid guard with room for the key, a read after a write finds the value that was written
  -- until its time to live has passed, and of any other key what it found before: a map whose keys
  -- expire.
  pub live-touch :
      (now then' : ℕ) (k j v : String)
      → length (erase k g.seen) < g.max_keys
      → (live then' j (touch now k v g)).0
        ≡ (if k == j then if ltb then' (now + g.ttl) then some v else none else (live then' j g).0)
  unfolding live
  live-touch now then' k j v room = ground (arith, lookup-touch now k j v room)

  pub live_config :
      (now : ℕ) (k : String)
      → ((live now k g).1.ttl ≡ g.ttl) × ((live now k g).1.max_keys ≡ g.max_keys)
  unfolding live
  live_config now k = ground arith

module _ (g : MemoryGuard) (valid : IsValid g) where
  -- Every operation keeps a valid guard within its bound and without duplicate keys.
  pub operations-IsValid :
      (r w : ℕ) (k v : String)
      → IsValid (claim r w k g).1 × IsValid (live r k g).1 × IsValid (touch w k v g)
  unfolding claim
  operations-IsValid r w k v =
      let seen = live-IsValid g valid r k in
      (
        ground (arith, seen, touch-IsValid (live r k g).1 seen w k "1"),
        seen,
        touch-IsValid g valid w k v,
      )

  -- In a valid guard that may hold a key, a claim succeeds exactly when no unexpired value is held for the key; after a success, until
  -- the time to live has passed, every further claim of the key fails.
  pub claim_once :
      (r w r' w' : ℕ) (k : String)
      → 0 < g.max_keys
      → ((claim r w k g).0 ≡ true ↔ (live r k g).0 ≡ none)
        × ((claim r w k g).0 ≡ true → r' < w + g.ttl → (claim r' w' k (claim r w k g).1).0 ≡ false)
  unfolding claim
  claim_once r w r' w' k p =
      let seen = live-IsValid g valid r k in
      let config = live_config g valid r k in
      (
        (λ h. ground arith, λ h. ground arith),
        λ h soon. ground (arith, config, live-touch_self (live r k g).1 seen w r' k "1"),
      )

-- A key that is held: nothing changes, and a claim fails.
pub live_held :
    (g : MemoryGuard) (r : ℕ) (k v : String) → (live r k g).0 ≡ some v → live r k g ≡ (some v, g)
unfolding live
live_held g r k v h = ground arith

pub claim_held :
    (g : MemoryGuard) (r w : ℕ) (k v : String)
    → (live r k g).0 ≡ some v
    → claim r w k g ≡ (false, g)
unfolding claim
claim_held g r w k v h = ground (arith, live_held g r k v h)

pub claim_config :
    (g : MemoryGuard) (r w : ℕ) (k : String)
    → ((claim r w k g).1.ttl ≡ g.ttl) × ((claim r w k g).1.max_keys ≡ g.max_keys)
unfolding claim live touch
claim_config g r w k = ground arith

-- A value that is read again later is the same, or has expired.
pub live_later :
    (g : MemoryGuard) (r r' : ℕ) (k : String)
    → IsValid g
    → r ≤ r'
    → ((live r' k (live r k g).1).0 ≡ (live r k g).0) ⊎ ((live r' k (live r k g).1).0 ≡ none)
unfolding live
live_later g r r' k valid h = ground (arith, lookup-erase_self k g.seen valid.1)

-- After a claim that succeeded the key holds "1" until it expires.
pub claim_mark :
    (g : MemoryGuard) (r w r' : ℕ) (k : String)
    → IsValid g
    → 0 < g.max_keys
    → (claim r w k g).0 ≡ true
    → ((live r' k (claim r w k g).1).0 ≡ some "1") ⊎ ((live r' k (claim r w k g).1).0 ≡ none)
unfolding claim
claim_mark g r w r' k valid room h = ground (
  arith,
  live_config g valid r k,
  live-touch_self (live r k g).1 (live-IsValid g valid r k) w r' k "1",
)
