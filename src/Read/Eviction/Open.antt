-- ===== src/Read/Eviction/Open.antt =====
-- Which cards the pruning leaves.
use intelliops.Base.{
  ◌≡◌, ◌∷◌, ◌-◌, ◌==◌, ◌≤◌, ◌⊎◌, ◌∙◌, ℕ, zero, suc, String, sym, ap, refl, inl, inr, Bool, true,
  false, not, Option, none, some, List, [], arith, length, take, filter, All, if_rule, Bool-cases,
  ==_iff, ltb, Floats, length-filter-le,
}
use intelliops.Base.Dict.{Dict, lookup, erase, IsDict}
use intelliops.Read.Card.{Card, ReadModel, is_evictable}
use intelliops.Read.Projection.Bounds.{OwnId}
use intelliops.Read.Eviction.{
  is_terminal, is_aged, age_out, goes_first, insert_by_age, evictable, drop_all, enforce_cap, prune,
  situations,
}

pub lookup-erase :
    {V : Type 0} (k j : String) (d : Dict V) → j == k ≡ false → lookup k (erase j d) ≡ lookup k d
unfolding lookup erase
lookup-erase k j [] apart = refl
lookup-erase k j ((i, v) ∷ d) apart =
    ground (arith, ==_iff i j, ==_iff i k, ==_iff j k, lookup-erase k j d apart)

-- What passes the test stays, and what is not there does not appear.
lookup-filter :
    {V : Type 0} (p : V → Bool) (k : String) (v : V) (d : Dict V)
    → p v ≡ true
    → lookup k d ≡ some v
    → lookup k (filter (λ e. p e.1) d) ≡ some v
unfolding lookup
lookup-filter p k v [] good there = absurd (ground arith)
lookup-filter p k v ((i, w) ∷ d) good there = elim (Bool-cases (i == k)) [
  | inl same ↦
      let is : w ≡ v = ground arith in
      let kept : p w ≡ true = ap p is ∙ good in rw (kept, lookup, same) (ap some is)
  | inr other ↦
      let rest = lookup-filter p k v d good (ground arith) in
      if_rule (λ x. lookup k x ≡ some v) (p w) _ _ (λ _. rw (lookup, other) rest) (λ _. rest)
]

none-filter :
    {V : Type 0} (p : V → Bool) (k : String) (d : Dict V)
    → lookup k d ≡ none
    → lookup k (filter (λ e. p e.1) d) ≡ none
unfolding lookup
none-filter p k [] gone = refl
none-filter p k ((i, w) ∷ d) gone = elim (Bool-cases (i == k)) [
  | inl same ↦ absurd (ground arith)
  | inr other ↦
      let rest : lookup k (filter (λ e. p e.1) d) ≡ none = none-filter p k d (ground arith) in
      ground (arith, rest)
]

filter-IsDict : {V : Type 0} (p : V → Bool) (d : Dict V) → IsDict d → IsDict (filter (λ e. p e.1) d)
filter-IsDict p [] h = tt
filter-IsDict p ((i, w) ∷ d) h =
    if_rule IsDict (p w) _ _ (λ _. (none-filter p i d h.0, filter-IsDict p d h.1))
      (λ _. filter-IsDict p d h.1)

pub filter-All :
    {A : Type 0} (P : A → Type 0) (p : A → Bool) (xs : List A) → All P xs → All P (filter p xs)
filter-All P p [] h = tt
filter-All P p (x ∷ xs) h =
    if_rule (All P) (p x) _ _ (λ _. (h.0, filter-All P p xs h.1)) (λ _. filter-All P p xs h.1)

take-All : {A : Type 0} (P : A → Type 0) (n : ℕ) (xs : List A) → All P xs → All P (take n xs)
take-All P zero xs h = tt
take-All P (suc n) [] h = tt
take-All P (suc n) (x ∷ xs) h = (h.0, take-All P n xs h.1)

true_or_false : true ≡ false → ⊥
true_or_false e = ground arith

module _ (fl : Floats) where
  open fl use {F}

  pub insert_by_age-All :
      (P : Card F → Type 0) (c : Card F) (cs : List (Card F))
      → P c
      → All P cs
      → All P (insert_by_age c cs)
  unfolding insert_by_age
  insert_by_age-All P c [] p h = (p, tt)
  insert_by_age-All P c (d ∷ ds) p h =
      if_rule (All P) (goes_first d c) _ _ (λ _. (h.0, insert_by_age-All P c ds p h.1))
        (λ _. (p, h))

  pub evictable-All :
      (P : Card F → Type 0) (d : Dict (Card F))
      → All (λ e. is_evictable e.1.status ≡ true → P e.1) d
      → All P (evictable d)
  unfolding evictable
  evictable-All P [] h = tt
  evictable-All P ((i, c) ∷ d) h =
      if_rule (All P) (is_evictable c.status) _ _
        (λ may. insert_by_age-All P c (evictable d) (h.0 may) (evictable-All P d h.1))
        (λ _. evictable-All P d h.1)

  -- Nothing that is evictable stands under a key that holds nothing else than a card that is not.
  entries_apart :
      (k : String) (held : Card F) (d : Dict (Card F))
      → OwnId fl d
      → IsDict d
      → is_evictable held.status ≡ false
      → (lookup k d ≡ some held) ⊎ (lookup k d ≡ none)
      → All (λ e. is_evictable e.1.status ≡ true → e.1.id == k ≡ false) d
  unfolding lookup
  entries_apart k held [] own dict safe at = tt
  entries_apart k held ((i, c) ∷ d) own dict safe at = elim (Bool-cases (i == k)) [
    | inl same ↦
        let is : i ≡ k = (==_iff i k).0 same in
        (
          λ may. elim at [
            | inl held_here ↦
                let it : c ≡ held = ground arith in
                absurd
                  (true_or_false (sym may ∙ ap (λ (x : Card F). is_evictable x.status) it ∙ safe))
            | inr gone ↦ absurd (ground arith)
          ],
          entries_apart k held d own.1 dict.1 safe (inr (ap (λ x. lookup x d) (sym is) ∙ dict.0)),
        )
    | inr other ↦ (
      λ may. ap (λ x. x == k) own.0 ∙ other,
      entries_apart k held d own.1 dict.1 safe (ground arith),
    )
  ]

  evictable-apart :
      (k : String) (held : Card F) (d : Dict (Card F))
      → OwnId fl d
      → IsDict d
      → is_evictable held.status ≡ false
      → lookup k d ≡ some held
      → All (λ c. c.id == k ≡ false) (evictable d)
  evictable-apart k held d own dict safe there =
      evictable-All _ d (entries_apart k held d own dict safe (inl there))

  drop_all-Keeps :
      (k : String) (cs : List (Card F)) (d : Dict (Card F))
      → All (λ c. c.id == k ≡ false) cs
      → lookup k (drop_all cs d) ≡ lookup k d
  unfolding drop_all
  drop_all-Keeps k [] d h = refl
  drop_all-Keeps k (c ∷ cs) d h = drop_all-Keeps k cs (erase c.id d) h.1 ∙ lookup-erase k c.id d h.0

  enforce_cap-Keeps :
      (max_sits : ℕ) (k : String) (held : Card F) (d : Dict (Card F))
      → OwnId fl d
      → IsDict d
      → is_evictable held.status ≡ false
      → lookup k d ≡ some held
      → lookup k (enforce_cap max_sits d) ≡ some held
  unfolding enforce_cap
  enforce_cap-Keeps max_sits k held d own dict safe there =
      if_rule (λ x. lookup k x ≡ some held) (ltb max_sits (length d)) _ _
        (λ _.
          drop_all-Keeps k (take (length d - max_sits) (evictable d)) d
            (take-All _ _ _ (evictable-apart k held d own dict safe there))
          ∙ there)
        (λ _. there)

  age_out-Keeps :
      (ttl now : ℕ) (k : String) (held : Card F) (d : Dict (Card F))
      → is_terminal held.status ≡ false
      → lookup k d ≡ some held
      → lookup k (age_out ttl now d) ≡ some held
  unfolding age_out
  age_out-Keeps ttl now k held d safe there =
      lookup-filter (λ c. not (is_aged ttl now c)) k held d (rw safe refl) there

  age_out-OwnId : (ttl now : ℕ) (d : Dict (Card F)) → OwnId fl d → OwnId fl (age_out ttl now d)
  unfolding age_out
  age_out-OwnId ttl now d own = filter-All (λ e. e.1.id ≡ e.0) _ d own

  age_out-IsDict : (ttl now : ℕ) (d : Dict (Card F)) → IsDict d → IsDict (age_out ttl now d)
  unfolding age_out
  age_out-IsDict ttl now d dict = filter-IsDict (λ c. not (is_aged ttl now c)) d dict

  age_out-small :
      (ttl now n : ℕ) (d : Dict (Card F)) → length d ≤ n → length (age_out ttl now d) ≤ n
  unfolding age_out
  age_out-small ttl now n d small =
      omega (arith, length-filter-le (λ (e : String × Card F). not (is_aged ttl now e.1)) d)

  -- What no pruning takes from the cards d: an open incident stays as it is, and one that needs
  -- attention does not age.
  abbrev pub Stays : (max_sits ttl : ℕ) → Option ℕ → ReadModel F → String → Card F → Type 0
  Stays max_sits ttl now m k held =
      (is_evictable held.status ≡ false
        → lookup k (situations max_sits ttl now m).1.sits ≡ some held)
      × (is_terminal held.status ≡ false
          → length m.sits ≤ max_sits
          → lookup k (situations max_sits ttl now m).1.sits ≡ some held)

  safe_twice : (c : Card F) → is_evictable c.status ≡ false → is_terminal c.status ≡ false
  safe_twice c safe = ground arith

  enforce_cap-small :
      (max_sits : ℕ) (d : Dict (Card F)) → length d ≤ max_sits → enforce_cap max_sits d ≡ d
  unfolding enforce_cap
  enforce_cap-small max_sits d small = ground arith

  -- Where every card is held under its own id, and no id twice: an incident that is open (detected,
  -- diagnosed or acting) is never pruned from the cards, however old it is and however many cards
  -- there are, and one that needs attention is not pruned while the cards are within the cap:
  -- neither with a time, when the finished cards age, nor without.
  pub situations-Stays :
      (max_sits ttl : ℕ) (now : Option ℕ) (m : ReadModel F) (k : String) (held : Card F)
      → OwnId fl m.sits
      → IsDict m.sits
      → lookup k m.sits ≡ some held
      → Stays max_sits ttl now m k held
  unfolding situations prune
  situations-Stays max_sits ttl none m k held own dict there = (
    λ safe. enforce_cap-Keeps max_sits k held m.sits own dict safe there,
    λ safe small. ap (lookup k) (enforce_cap-small max_sits m.sits small) ∙ there,
  )
  situations-Stays max_sits ttl (some now) m k held own dict there =
      let young : Dict (Card F) = age_out ttl now m.sits in
      (
        λ safe.
            enforce_cap-Keeps max_sits k held young (age_out-OwnId ttl now m.sits own)
              (age_out-IsDict ttl now m.sits dict) safe
              (age_out-Keeps ttl now k held m.sits (safe_twice held safe) there),
        λ safe small.
            ap (lookup k)
              (enforce_cap-small max_sits young (age_out-small ttl now max_sits m.sits small))
            ∙ age_out-Keeps ttl now k held m.sits safe there,
      )
