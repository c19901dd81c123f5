-- ===== src/Supervise.antt =====
-- common/supervise.py: a worker that crashes runs again after a wait that doubles up to a cap. Waits
-- are whole units of time. The thread around the loop is not modelled.
use intelliops.Base.{
  ℕ, zero, suc, ◌+◌, ◌*◌, ◌≤◌, leb, Bool, true, false, not, ◌&&◌, List, [], ◌∷◌, length, ◌≡◌, refl,
  arith, if◌then◌else◌, ◌↔◌, all,
}

-- What happens in a round of the loop: whether the stop event is set when it is tested, whether the
-- target returns, and whether the stop event is set during the wait.
pub record Round : Type 0 where
  pub stopped : Bool
  pub returned : Bool
  pub stopped_waiting : Bool

-- What the supervisor did: its waits in order, the number of runs, and whether it is over.
pub record Report : Type 0 where
  pub waits : List ℕ
  pub runs : ℕ
  pub is_over : Bool

abbrev pub over : ℕ → List ℕ → Report
over runs waits = record { waits = waits; runs = runs; is_over = true }

-- `min(a, b)`
abbrev pub smaller : ℕ → ℕ → ℕ
smaller a b = if leb a b then a else b

-- The loop of `supervise`, for as many rounds as are listed.
unfoldable pub supervise : (max_backoff delay : ℕ) → List Round → Report
supervise max_backoff delay [] = record { waits = []; runs = 0; is_over = false }
supervise max_backoff delay (r ∷ rs) =
    let later = supervise max_backoff (smaller (delay * 2) max_backoff) rs in
    if r.stopped
    then over 0 []
    else if r.returned
    then over 1 []
    else if r.stopped_waiting
    then over 1 (delay ∷ [])
    else record { waits = delay ∷ later.waits; runs = later.runs + 1; is_over = later.is_over }

-- The waits that capped doubling of a first wait prescribes, so many of them.
abbrev pub backoffs : (max_backoff first : ℕ) → ℕ → List ℕ
backoffs max_backoff first zero = []
backoffs max_backoff first (suc n) = smaller first max_backoff ∷ backoffs max_backoff (first * 2) n

smaller-double : (m a b : ℕ) → smaller a m ≡ smaller b m → smaller (a * 2) m ≡ smaller (b * 2) m
smaller-double m a b h = ground arith

backoffs_capped : (m a b : ℕ) (n : ℕ) → smaller a m ≡ smaller b m → backoffs m a n ≡ backoffs m b n
backoffs_capped m a b zero h = refl
backoffs_capped m a b (suc n) h =
    let next = backoffs_capped m (a * 2) (b * 2) n (smaller-double m a b h) in rw (h, next) refl

waits-backoffs :
    (m d : ℕ) (rs : List Round)
    → d ≤ m
    → (supervise m d rs).waits ≡ backoffs m d (length (supervise m d rs).waits)
unfolding supervise
waits-backoffs m d [] h = refl
waits-backoffs m d (r ∷ rs) h =
    let d' = smaller (d * 2) m in
    let capped : d' ≤ m = ground arith in
    let same : smaller d' m ≡ smaller (d * 2) m = ground arith in
    let first : smaller d m ≡ d = ground arith in
    let rest = waits-backoffs m d' rs capped in
    let next = backoffs_capped m d' (d * 2) (length (supervise m d' rs).waits) same in
    ground (arith, rest, next, first)

-- A round after which the loop goes on: the target crashed, and nobody asked it to stop.
abbrev pub goes_on : Round → Bool
goes_on r = not r.stopped && not r.returned && not r.stopped_waiting

runs_all :
    (m d : ℕ) (rs : List Round)
    → all goes_on rs ≡ true
    → ((supervise m d rs).runs ≡ length rs) × ((supervise m d rs).is_over ≡ false)
unfolding supervise
runs_all m d [] h = (refl, refl)
runs_all m d (r ∷ rs) h = let rest = runs_all m (smaller (d * 2) m) rs in ground (arith, rest)

over_goes_on :
    (m d : ℕ) (rs : List Round) → (supervise m d rs).is_over ≡ false → all goes_on rs ≡ true
unfolding supervise
over_goes_on m d [] h = refl
over_goes_on m d (r ∷ rs) h =
    let rest = over_goes_on m (smaller (d * 2) m) rs in ground (arith, rest)

-- The waits are those of capped doubling, from a first wait within the cap; and the supervisor is
-- still there exactly when in every round the target crashed and no stop was asked for, and then
-- it has run the target in every one of them. So no number of crashes makes it give up.
pub supervise-backoffs :
    (m d : ℕ) (rs : List Round)
    → d ≤ m
    → ((supervise m d rs).waits ≡ backoffs m d (length (supervise m d rs).waits))
      × ((supervise m d rs).is_over ≡ false ↔ all goes_on rs ≡ true)
      × (all goes_on rs ≡ true → (supervise m d rs).runs ≡ length rs)
supervise-backoffs m d rs h = (
  waits-backoffs m d rs h,
  (over_goes_on m d rs, λ g. (runs_all m d rs g).1),
  λ g. (runs_all m d rs g).0,
)
