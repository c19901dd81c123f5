-- ===== src/Idempotency.antt =====
-- common/idempotency.py: the guards that tell a repeated event from a first sighting.
pub mod Memory
use intelliops.Base.{
  ℕ, ◌+◌, ltb, leb, Bool, true, false, String, ◌<>◌, ◌==◌, Option, none, some, List, [], ◌∷◌, ◌++◌,
  length, if◌then◌else◌,
}
use intelliops.Base.Dict.{Dict, lookup, erase}

-- `IdempotencyGuard`: the operations on the guard's state, each at the times its clock is read.
pub record Guard : Type 1 where
  pub S : Type 0
  pub claim : (read write : ℕ) → String → S → Bool × S
  pub state : ℕ → String → S → Option String × S
  pub set_state : ℕ → String → String → S → S

-- `NullGuard`
abbrev pub null_guard : Guard
null_guard = record {
  S = Unit;
  claim = λ _ _ _ s. (true, s);
  state = λ _ _ s. (none, s);
  set_state = λ _ _ _ s. s;
}

-- `MemoryGuard`: values with the time at which they expire, the least recently written first.
pub record MemoryGuard : Type 0 where
  pub max_keys : ℕ
  pub ttl : ℕ
  pub seen : Dict (String × ℕ)

-- `while len(seen) > max: seen.popitem(last=False)`
unfoldable pub trim {ℓ} : {V : Type ℓ} → ℕ → List V → List V
trim max [] = []
trim max (e ∷ l) = let rest = trim max l in if ltb max (length (e ∷ l)) then rest else e ∷ l

-- `_touch`
unfoldable pub touch : ℕ → String → String → MemoryGuard → MemoryGuard
touch now key value g = record g {
  seen = trim g.max_keys (erase key g.seen ++ ((key, (value, now + g.ttl)) ∷ []));
}

-- `_live`
unfoldable pub live : ℕ → String → MemoryGuard → Option String × MemoryGuard
live now key g = elim (lookup key g.seen) [
  | none ↦ (none, g)
  | some (value, expires_at) ↦
      if leb expires_at now then (none, record g { seen = erase key g.seen }) else (some value, g)
]

unfoldable pub claim : (read write : ℕ) → String → MemoryGuard → Bool × MemoryGuard
claim read write key g =
    let (found, g') = live read key g in
    elim found [ some _ ↦ (false, g') | none ↦ (true, touch write key "1" g') ]

abbrev pub memory_guard : Guard
memory_guard = record { S = MemoryGuard; claim = claim; state = live; set_state = touch }

-- What `RedisGuard` asks of the client: `set(k, v, nx=…, ex=…)` and `get(k)`, with the client's
-- own clock.
pub record RedisClient : Type 1 where
  pub S : Type 0
  pub set : (nx : Bool) (ex : ℕ) → String → String → S → Bool × S
  pub get : String → S → Option String

abbrev pub redis_key : String → String
redis_key key = "idem:" <> key

abbrev pub redis_guard : RedisClient → ℕ → Guard
redis_guard r ttl = record {
  S = r.S;
  claim = λ _ _ key s. r.set true ttl (redis_key key) "1" s;
  state = λ _ key s. (r.get (redis_key key) s, s);
  set_state = λ _ key value s. (r.set false ttl (redis_key key) value s).1;
}

-- `make_guard`: the guard that a mode selects, with the client that the bus has, if any.
unfoldable pub make_guard : String → ℕ → Option RedisClient → Guard
make_guard mode ttl client =
    if mode == "redis"
    then (elim client [ none ↦ memory_guard | some r ↦ redis_guard r ttl ])
    else if mode == "memory"
    then memory_guard
    else null_guard
