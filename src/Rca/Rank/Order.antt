-- ===== src/Rca/Rank/Order.antt =====
-- The ranking is a reordering of what the rules propose, best first.
use intelliops.Base.{
  Bool, true, false, String, Option, none, some, List, [], ◌∷◌, map, count, ◌≡◌, refl, arith,
  Floats, Asymmetric, if_rule,
}
use intelliops.Contracts.{Situation, RootCauseHypothesis}
use intelliops.Rca.Rank.{
  EnrichmentContext, Find, Selector, insert_descending, sorted_descending, ranks_below, pair_lt,
  score_of, rescored, proposals, rank_hypotheses,
}

module _ {A : Type 0} (below : A → A → Bool) where
  -- No entry is ranked below the one that follows it.
  abbrev pub Descending : List A → Type 0
  Descending [] = Unit
  Descending (x ∷ []) = Unit
  Descending (x ∷ y ∷ ys) = (below x y ≡ false) × Descending (y ∷ ys)

  abbrev Asym : Type 0
  Asym = (x y : A) → below x y ≡ true → below y x ≡ false

  -- Under y, to which x is inferior.
  insert_under :
      (asym : Asym) (y x : A) (ys : List A)
      → below x y ≡ true
      → Descending (y ∷ ys)
      → Descending (y ∷ insert_descending below x ys)
  unfolding insert_descending
  insert_under asym y x [] low d = (asym x y low, tt)
  insert_under asym y x (z ∷ zs) low d =
      if_rule (λ l. Descending (y ∷ l)) (below x z) _ _ (λ e. (d.0, insert_under asym z x zs e d.1))
        (λ e. (asym x y low, (e, d.1)))

  insert_descending-Descending :
      (asym : Asym) (x : A) (ys : List A)
      → Descending ys
      → Descending (insert_descending below x ys)
  unfolding insert_descending
  insert_descending-Descending asym x [] d = tt
  insert_descending-Descending asym x (y ∷ ys) d =
      if_rule Descending (below x y) _ _ (λ e. insert_under asym y x ys e d) (λ e. (e, d))

  sorted-Descending : (asym : Asym) (xs : List A) → Descending (sorted_descending below xs)
  unfolding sorted_descending
  sorted-Descending asym [] = tt
  sorted-Descending asym (x ∷ xs) =
      insert_descending-Descending asym x _ (sorted-Descending asym xs)

  count-insert :
      (p : A → Bool) (x : A) (ys : List A)
      → count p (insert_descending below x ys) ≡ count p (x ∷ ys)
  unfolding insert_descending
  count-insert p x [] = refl
  count-insert p x (y ∷ ys) =
      if_rule (λ l. count p l ≡ count p (x ∷ y ∷ ys)) (below x y) _ _
        (λ _. omega (arith, count-insert p x ys)) (λ _. refl)

  count-sorted : (p : A → Bool) (xs : List A) → count p (sorted_descending below xs) ≡ count p xs
  unfolding sorted_descending
  count-sorted p [] = refl
  count-sorted p (x ∷ xs) =
      omega (arith, count-insert p x (sorted_descending below xs), count-sorted p xs)

module _ (fl : Floats) where
  pair_asym : Asymmetric fl → Asym (pair_lt fl)
  pair_asym asym (a, b) (c, d) low = ground (arith, asym a c, asym b d)

  ranks_below-Asym :
      Asymmetric fl
      → (provider : Option (String → String → fl.F)) (s : Situation fl.F)
      → Asym (ranks_below fl provider s)
  unfolding ranks_below
  ranks_below-Asym asym none s h k low = asym h.confidence k.confidence low
  ranks_below-Asym asym (some provider) s h k low =
      pair_asym asym (score_of fl provider s h) (score_of fl provider s k) low

  -- The ranking holds every hypothesis that was proposed, rescored, as often as it was proposed, and
  -- nothing else; and none stands directly above one that ranks higher, by the score that the track
  -- record boosts, with the confidence to break ties, or by the confidence alone where no track
  -- record is given.
  pub rank_hypotheses-Descending :
      Asymmetric fl
      → (lower : String → String) (provider : Option (String → String → fl.F))
        (scoring : Option (Find × Selector fl.F)) (s : Situation fl.F) (context : EnrichmentContext)
      → let ranking = rank_hypotheses fl lower provider scoring s context in
        Descending (ranks_below fl provider s) ranking
        × ((p : RootCauseHypothesis fl.F → Bool)
            → count p ranking
              ≡ count p (map (rescored fl scoring s) (proposals fl lower s context)))
  unfolding rank_hypotheses
  rank_hypotheses-Descending asym lower provider scoring s context = (
    sorted-Descending (ranks_below fl provider s) (ranks_below-Asym asym provider s) _,
    λ p. count-sorted (ranks_below fl provider s) p _,
  )
