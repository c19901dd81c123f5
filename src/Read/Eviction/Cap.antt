-- ===== src/Read/Eviction/Cap.antt =====
-- How many cards the cap leaves.
use intelliops.Base.{
  ◌≡◌, ◌∷◌, ◌+◌, ◌-◌, ◌==◌, ◌≤◌, ◌<◌, ◌⊎◌, ◌∙◌, ℕ, zero, suc, String, ap, refl, inl, inr, Bool,
  false, not, none, some, List, [], arith, length, take, all, count, All, if_rule, Bool-cases,
  ==_iff, ltb, Floats,
}
use intelliops.Base.Dict.{Dict, lookup, erase, IsDict}
use intelliops.Read.Card.{Card, is_evictable}
use intelliops.Read.Projection.Bounds.{OwnId}
use intelliops.Read.Eviction.{goes_first, insert_by_age, evictable, drop_all, enforce_cap}
use intelliops.Read.Eviction.Open.{lookup-erase, insert_by_age-All, evictable-All}

length-erase :
    {V : Type 0} (k : String) (v : V) (d : Dict V)
    → lookup k d ≡ some v
    → length (erase k d) + 1 ≡ length d
unfolding lookup erase
length-erase k v [] there = absurd (ground arith)
length-erase k v ((i, w) ∷ d) there = ground (arith, length-erase k v d)

take_all :
    {A : Type 0} (n : ℕ) (xs : List A)
    → (length (take n xs) ≡ n) ⊎ (length xs ≤ n) × (take n xs ≡ xs)
take_all zero xs = inl refl
take_all (suc n) [] = inr (omega arith, refl)
take_all (suc n) (x ∷ xs) = elim (take_all n xs) [
  | inl all ↦ inl (ap suc all)
  | inr (few, same) ↦ inr (omega (arith, few), ap (λ ys. x ∷ ys) same)
]

All-map :
    {A : Type 0} {P Q : A → Type 0} (f : (a : A) → P a → Q a) (xs : List A) → All P xs → All Q xs
All-map f [] h = tt
All-map f (x ∷ xs) h = (f x h.0, All-map f xs h.1)

All-both :
    {A : Type 0} {P Q R : A → Type 0} (f : (a : A) → P a → Q a → R a) (xs : List A)
    → All P xs
    → All Q xs
    → All R xs
All-both f [] h k = tt
All-both f (x ∷ xs) h k = (f x h.0 k.0, All-both f xs h.1 k.1)

module _ (fl : Floats) where
  open fl use {F}

  -- What can be dropped one after the other: each is there when its turn comes.
  abbrev Held : List (Card F) → Dict (Card F) → Type 0
  Held [] d = Unit
  Held (c ∷ cs) d = (lookup c.id d ≡ some c) × Held cs (erase c.id d)

  abbrev Apart : Card F → Card F → Type 0
  Apart c x = x.id == c.id ≡ false

  abbrev DistinctIds : List (Card F) → Type 0
  DistinctIds [] = Unit
  DistinctIds (c ∷ cs) = All (Apart c) cs × DistinctIds cs

  length-drop_all :
      (cs : List (Card F)) (d : Dict (Card F))
      → Held cs d
      → length (drop_all cs d) + length cs ≡ length d
  unfolding drop_all
  length-drop_all [] d h = omega arith
  length-drop_all (c ∷ cs) d h =
      omega (arith, length-drop_all cs (erase c.id d) h.1, length-erase c.id c d h.0)

  take-Held : (n : ℕ) (cs : List (Card F)) (d : Dict (Card F)) → Held cs d → Held (take n cs) d
  take-Held zero cs d h = tt
  take-Held (suc n) [] d h = tt
  take-Held (suc n) (c ∷ cs) d h = (h.0, take-Held n cs (erase c.id d) h.1)

  distinct-Held :
      (cs : List (Card F)) (d : Dict (Card F))
      → DistinctIds cs
      → All (λ c. lookup c.id d ≡ some c) cs
      → Held cs d
  distinct-Held [] d apart there = tt
  distinct-Held (c ∷ cs) d apart there =
      (there.0, distinct-Held cs (erase c.id d) apart.1 (go cs apart.0 there.1))
    where
      flip : (x : Card F) → Apart c x → c.id == x.id ≡ false
      flip x e = ground (arith, ==_iff x.id c.id, ==_iff c.id x.id)

      go :
          (cs : List (Card F))
          → All (Apart c) cs
          → All (λ x. lookup x.id d ≡ some x) cs
          → All (λ x. lookup x.id (erase c.id d) ≡ some x) cs
      go [] a t = tt
      go (x ∷ xs) a t = (lookup-erase x.id c.id d (flip x a.0) ∙ t.0, go xs a.1 t.1)

  insert_by_age-Distinct :
      (c : Card F) (cs : List (Card F))
      → All (Apart c) cs
      → DistinctIds cs
      → DistinctIds (insert_by_age c cs)
  unfolding insert_by_age
  insert_by_age-Distinct c [] a h = (tt, tt)
  insert_by_age-Distinct c (d ∷ ds) a h =
      if_rule DistinctIds (goes_first d c) _ _
        (λ _. (
          insert_by_age-All fl (Apart d) c ds (ground (arith, ==_iff d.id c.id, ==_iff c.id d.id))
              h.0,
          insert_by_age-Distinct c ds a.1 h.1,
        ))
        (λ _. (a, h))

  none_apart :
      (k : String) (d : Dict (Card F))
      → OwnId fl d
      → lookup k d ≡ none
      → All (λ e. e.1.id == k ≡ false) d
  unfolding lookup
  none_apart k [] own gone = tt
  none_apart k ((i, c) ∷ d) own gone = elim (Bool-cases (i == k)) [
    | inl same ↦ absurd (ground arith)
    | inr other ↦ (ap (λ x. x == k) own.0 ∙ other, none_apart k d own.1 (ground arith))
  ]

  evictable-Distinct : (d : Dict (Card F)) → OwnId fl d → IsDict d → DistinctIds (evictable d)
  unfolding evictable
  evictable-Distinct [] own dict = tt
  evictable-Distinct ((i, c) ∷ d) own dict =
      let rest = evictable-Distinct d own.1 dict.1 in
      if_rule DistinctIds (is_evictable c.status) _ _
        (λ _.
          insert_by_age-Distinct c (evictable d)
            (evictable-All fl (Apart c) d (
              All-map (λ e apart _. ap (λ x. e.1.id == x) own.0 ∙ apart) d
                (none_apart i d own.1 dict.0)))
            rest)
        (λ _. rest)

  entries-Held :
      (d : Dict (Card F)) → OwnId fl d → IsDict d → All (λ e. lookup e.1.id d ≡ some e.1) d
  unfolding lookup
  entries-Held [] own dict = tt
  entries-Held ((i, c) ∷ d) own dict = (
    ground (arith, own.0, ==_iff i c.id),
    All-both (λ e apart there. ground (arith, there, apart, ==_iff i e.1.id, ==_iff e.1.id i)) d
        (none_apart i d own.1 dict.0) (entries-Held d own.1 dict.1),
  )

  length-insert_by_age :
      (c : Card F) (cs : List (Card F)) → length (insert_by_age c cs) ≡ suc (length cs)
  unfolding insert_by_age
  length-insert_by_age c [] = refl
  length-insert_by_age c (d ∷ ds) = ground (arith, length-insert_by_age c ds)

  abbrev pub stays_put : String × Card F → Bool
  stays_put e = not (is_evictable e.1.status)

  length-evictable : (d : Dict (Card F)) → length (evictable d) + count stays_put d ≡ length d
  unfolding evictable
  length-evictable [] = refl
  length-evictable ((i, c) ∷ d) =
      ground (arith, length-insert_by_age c (evictable d), length-evictable d)

  evictable-Held : (d : Dict (Card F)) → OwnId fl d → IsDict d → Held (evictable d) d
  evictable-Held d own dict = distinct-Held (evictable d) d (evictable-Distinct d own dict) (
      evictable-All fl (λ c. lookup c.id d ≡ some c) d
        (All-map (λ e there _. there) d (entries-Held d own dict)))

  dropped-Within :
      (n max_sits : ℕ) (d : Dict (Card F))
      → OwnId fl d
      → IsDict d
      → max_sits + n ≡ length d
      → let left = drop_all (take n (evictable d)) d in
        (length left ≡ max_sits)
        ⊎ (max_sits ≤ count stays_put d) × (length left ≡ count stays_put d)
  dropped-Within n max_sits d own dict total =
      let sum =
        length-drop_all (take n (evictable d)) d
          (take-Held n (evictable d) d (evictable-Held d own dict)) in
      elim (take_all n (evictable d)) [
        | inl enough ↦ inl (omega (arith, sum, enough, total))
        | inr (few, all) ↦ inr (
          omega (arith, few, total, length-evictable d),
          omega (arith, sum, ap length all, length-evictable d),
        )
      ]

  -- Where every card is held under its own id, and no id twice: the cap leaves the cards as they are
  -- while there are no more than `max_sits`. When there are more, exactly that many are left, or,
  -- when at least as many as the cap may not be evicted (the cards that are neither finished nor
  -- waiting for attention), exactly those many are left.
  pub enforce_cap-Within :
      (max_sits : ℕ) (d : Dict (Card F))
      → OwnId fl d
      → IsDict d
      → ((length d ≤ max_sits) × (enforce_cap max_sits d ≡ d))
        ⊎ (max_sits < length d)
          × ((length (enforce_cap max_sits d) ≡ max_sits)
              ⊎ (max_sits ≤ count stays_put d)
                × (length (enforce_cap max_sits d) ≡ count stays_put d))
  unfolding enforce_cap
  enforce_cap-Within max_sits d own dict = elim (Bool-cases (ltb max_sits (length d))) [
    | inl over ↦
        rw (over, enforce_cap)
          (inr
            (ground arith, dropped-Within (length d - max_sits) max_sits d own dict (ground arith)))
    | inr fits ↦ rw (fits, enforce_cap) (inl (ground arith, refl))
  ]
