-- ===== src/Rca/Rank/Proposals.antt =====
-- What the rules may propose, and that there is always something.
use intelliops.Base.{
  ◌<◌, suc, Bool, String, Option, none, some, List, [], ◌∷◌, map, All, All-append, length, ◌≡◌,
  refl, ◌⊎◌, inl, inr, arith, Floats, if_rule, ◌∙◌,
}
use intelliops.Base.Dict.{Dict}
use intelliops.Contracts.{Situation, RootCauseHypothesis}
use intelliops.Rca.Rank.{
  chosen, rules, EnrichmentContext, Find, Selector, insert_descending, sorted_descending,
  ranks_below, deploy_rule, deploy_found, or_fallback, fallback, fired, proposals, rescored,
  rank_hypotheses,
}

module _ (fl : Floats) (s : Situation fl.F) where
  open fl use {F}

  -- About this situation, with one of the three runbooks of the rules.
  abbrev pub IsProposal : RootCauseHypothesis F → Type 0
  IsProposal h =
      (h.situation_id ≡ s.id)
      × ((h.suggested_runbook_id ≡ some "rollback-deploy")
          ⊎ (h.suggested_runbook_id ≡ some "restart-pod")
          ⊎ (h.suggested_runbook_id ≡ some "scale-service"))

  chosen-IsProposal :
      (rules : List (Bool × RootCauseHypothesis F))
      → All (λ r. IsProposal r.1) rules
      → All IsProposal (chosen fl rules)
  chosen-IsProposal [] p = tt
  chosen-IsProposal ((b, h) ∷ rules) p =
      if_rule (All IsProposal) b _ _ (λ _. (p.0, chosen-IsProposal rules p.1))
        (λ _. chosen-IsProposal rules p.1)

  rules-IsProposal :
      (lower : String → String) (names : String)
      → All (λ r. IsProposal r.1) (rules fl lower s names)
  unfolding rules
  rules-IsProposal lower names = (
    (refl, inr (inl refl)),
    (
      (refl, inr (inl refl)),
      (
        (refl, inr (inr refl)),
        ((refl, inr (inr refl)), ((refl, inr (inl refl)), ((refl, inr (inl refl)), tt))),
      ),
    ),
  )

  deploy_found-IsProposal :
      (found : Option (Dict String)) → All IsProposal (deploy_found fl s found)
  unfolding deploy_found
  deploy_found-IsProposal none = tt
  deploy_found-IsProposal (some d) = ((refl, inl refl), tt)

  fired-IsProposal :
      (lower : String → String) (context : EnrichmentContext)
      → All IsProposal (fired fl lower s context)
  unfolding fired deploy_rule
  fired-IsProposal lower context =
      All-append IsProposal (deploy_found fl s _) _ (deploy_found-IsProposal _)
        (chosen-IsProposal _ (rules-IsProposal lower _))

  -- The pass of the selector keeps the runbook and the situation.
  rescored-IsProposal :
      (scoring : Option (Find × Selector F)) (h : RootCauseHypothesis F)
      → IsProposal h
      → IsProposal (rescored fl scoring s h)
  unfolding rescored
  rescored-IsProposal scoring h p = ground arith

  map-IsProposal :
      (scoring : Option (Find × Selector F)) (hs : List (RootCauseHypothesis F))
      → All IsProposal hs
      → All IsProposal (map (rescored fl scoring s) hs)
  map-IsProposal scoring [] p = tt
  map-IsProposal scoring (h ∷ hs) p =
      (rescored-IsProposal scoring h p.0, map-IsProposal scoring hs p.1)

module _ {A : Type 0} (below : A → A → Bool) where
  insert_descending-All {ℓ} :
      (P : A → Type ℓ) (x : A) (ys : List A) → P x → All P ys → All P (insert_descending below x ys)
  unfolding insert_descending
  insert_descending-All P x [] px ps = (px, tt)
  insert_descending-All P x (y ∷ ys) px ps =
      if_rule (All P) (below x y) _ _ (λ _. (ps.0, insert_descending-All P x ys px ps.1))
        (λ _. (px, ps))

  pub sorted_descending-All {ℓ} :
      (P : A → Type ℓ) (xs : List A) → All P xs → All P (sorted_descending below xs)
  unfolding sorted_descending
  sorted_descending-All P [] ps = tt
  sorted_descending-All P (x ∷ xs) ps =
      insert_descending-All P x _ ps.0 (sorted_descending-All P xs ps.1)

  length-insert_descending :
      (x : A) (ys : List A) → length (insert_descending below x ys) ≡ suc (length ys)
  unfolding insert_descending
  length-insert_descending x [] = refl
  length-insert_descending x (y ∷ ys) =
      if_rule (λ l. length l ≡ suc (suc (length ys))) (below x y) (y ∷ insert_descending below x ys)
        (x ∷ y ∷ ys) (λ _. omega (arith, length-insert_descending x ys)) (λ _. refl)

  pub length-sorted_descending : (xs : List A) → length (sorted_descending below xs) ≡ length xs
  unfolding sorted_descending
  length-sorted_descending [] = refl
  length-sorted_descending (x ∷ xs) =
      omega (
        arith,
        length-insert_descending x (sorted_descending below xs),
        length-sorted_descending xs,
      )

length-map : {A B : Type 0} (f : A → B) (xs : List A) → length (map f xs) ≡ length xs
length-map f [] = refl
length-map f (x ∷ xs) = omega (arith, length-map f xs)

module _ (fl : Floats) (lower : String → String) (provider : Option (String → String → fl.F))
    (scoring : Option (Find × Selector fl.F)) (s : Situation fl.F)
    (context : EnrichmentContext) where
  abbrev ranking : List (RootCauseHypothesis fl.F)
  ranking = rank_hypotheses fl lower provider scoring s context

  ranked_rule {ℓ} :
      (P : List (RootCauseHypothesis fl.F) → List (RootCauseHypothesis fl.F) → Type ℓ)
      → (fired fl lower s context ≡ [] → P [] (fallback fl s ∷ []))
      → (0 < length (fired fl lower s context)
          → P (fired fl lower s context) (
              sorted_descending
                (ranks_below fl provider s)
                (map (rescored fl scoring s) (fired fl lower s context))))
      → P (fired fl lower s context) ranking
  unfolding rank_hypotheses proposals rescored fallback sorted_descending insert_descending
  ranked_rule P none_fired some_fired = go (fired fl lower s context) none_fired some_fired
    where
      go :
          (hs : List (RootCauseHypothesis fl.F))
          → (hs ≡ [] → P [] (fallback fl s ∷ []))
          → (0 < length hs
              → P hs
                  (sorted_descending (ranks_below fl provider s) (map (rescored fl scoring s) hs)))
          → P hs (
              sorted_descending
                (ranks_below fl provider s)
                (map (rescored fl scoring s) (or_fallback fl s hs)))
      go [] a b = a refl
      go (h ∷ hs) a b = b (omega arith)

  -- There is always a hypothesis. When no rule fires it is the fallback alone, which names no
  -- runbook; otherwise there is one for each rule that fires, and each is about this situation and
  -- names one of the three runbooks that the rules know, whatever the selector and the store answer.
  pub rank_hypotheses-IsProposal :
      ((fired fl lower s context ≡ []) × (ranking ≡ fallback fl s ∷ []))
      ⊎ ((0 < length ranking)
          × (length ranking ≡ length (fired fl lower s context))
          × All (IsProposal fl s) ranking)
  rank_hypotheses-IsProposal =
      ranked_rule
        (λ all out.
          ((all ≡ []) × (out ≡ fallback fl s ∷ []))
          ⊎ ((0 < length out) × (length out ≡ length all) × All (IsProposal fl s) out))
        (λ _. inl (refl, refl))
        (λ p.
          let same =
            length-sorted_descending (ranks_below fl provider s)
              (map (rescored fl scoring s) (fired fl lower s context))
            ∙ length-map (rescored fl scoring s) (fired fl lower s context) in
          inr (
            omega arith,
            same,
            sorted_descending-All (ranks_below fl provider s) (IsProposal fl s) _
                (map-IsProposal fl s scoring _ (fired-IsProposal fl s lower context)),
          ))
