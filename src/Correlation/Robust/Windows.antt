-- ===== src/Correlation/Robust/Windows.antt =====
-- The windows stay bounded, one for each key, and survive a snapshot.
use intelliops.Base.{
  ◌≡◌, ◌∷◌, ◌-◌, ◌++◌, ◌≤◌, ◌∙◌, ℕ, zero, suc, sym, ap, refl, subst, true, false, Option, none,
  some, List, [], arith, length, drop, All, if_rule, ==_iff, Floats, All-append,
}
use mathlib.Core.List.{append-nil, append_assoc}
use intelliops.Contracts.{TelemetryEvent}
use intelliops.Correlation.Robust.{
  Settings, Key, same_key, Windows, key_for, last_n, window_of, put_window, detect, detect_value,
  key_of_event, learned, snapshot, load, row_of, or_nothing,
}

same_key_eq : (j k : Key) → same_key j k ≡ true → j ≡ k
same_key_eq j k e = ground (arith, ==_iff j.metric_name k.metric_name, ==_iff j.series k.series)

length-drop : {A : Type 0} (n : ℕ) (xs : List A) → length (drop n xs) ≡ length xs - n
length-drop zero xs = omega arith
length-drop (suc n) [] = omega arith
length-drop (suc n) (x ∷ xs) = omega (arith, length-drop n xs)

last_n-all : {A : Type 0} (n : ℕ) (xs : List A) → length xs ≤ n → last_n n xs ≡ xs
last_n-all n xs fits =
    let none_over : length xs - n ≡ 0 = omega arith in ap (λ m. drop m xs) none_over

same_key_sym : (j k : Key) → same_key j k ≡ false → same_key k j ≡ false
same_key_sym j k e = ground (
  arith,
  ==_iff j.metric_name k.metric_name,
  ==_iff j.series k.series,
  ==_iff k.metric_name j.metric_name,
  ==_iff k.series j.series,
)

-- A key that this correlator makes: without a series where windows are not kept by series.
abbrev IsKey : Settings → Key → Type 0
IsKey c k = key_for c k.metric_name k.series k.bucket ≡ k

module _ {F : Type 0} (c : Settings) where
  -- No window stands under the key.
  abbrev Fresh : Key → Windows F → Type 0
  Fresh k ws = All (λ e. same_key e.0 k ≡ false) ws

  -- Each window under its own key, which no later one has, and within the bound.
  abbrev pub IsValid : Windows F → Type 0
  IsValid [] = Unit
  IsValid ((k, w) ∷ ws) =
      IsKey c k × (length w ≤ c.window_size) × All (λ e. same_key e.0 k ≡ false) ws × IsValid ws

  put-Fresh :
      (j k : Key) (w : List F) (ws : Windows F)
      → same_key k j ≡ false
      → Fresh j ws
      → Fresh j (put_window k w ws)
  unfolding put_window
  put-Fresh j k w [] apart h = (apart, tt)
  put-Fresh j k w ((i, v) ∷ ws) apart h =
      if_rule (Fresh j) (same_key i k) _ _ (λ _. (apart, h.1))
        (λ _. (h.0, put-Fresh j k w ws apart h.1))

  put-IsValid :
      (k : Key) (w : List F) (ws : Windows F)
      → IsKey c k
      → length w ≤ c.window_size
      → IsValid ws
      → IsValid (put_window k w ws)
  unfolding put_window
  put-IsValid k w [] key fits h = (key, fits, tt, tt)
  put-IsValid k w ((i, v) ∷ ws) key fits h =
      if_rule IsValid (same_key i k) _ _
        (λ same. (key, fits, subst (λ x. Fresh x ws) (same_key_eq i k same) h.2, h.3))
        (λ other. (
          h.0,
          h.1,
          put-Fresh i k w ws (same_key_sym i k other) h.2,
          put-IsValid k w ws key fits h.3,
        ))

  put_new :
      (k : Key) (w : List F) (ws : Windows F) → Fresh k ws → put_window k w ws ≡ ws ++ ((k, w) ∷ [])
  unfolding put_window
  put_new k w [] h = refl
  put_new k w ((i, v) ∷ ws) h = rw (h.0, put_new k w ws h.1) refl

  row-load :
      (k : Key) (w : List F)
      → IsKey c k
      → key_for c k.metric_name (or_nothing (row_of c (k, w)).series) k.bucket ≡ k
  row-load k w key =
      if_rule (λ x. key_for c k.metric_name (or_nothing x) k.bucket ≡ k) c.by_series (some k.series)
        none (λ _. key) (λ off. plain off)
    where
      plain : c.by_series ≡ false → key_for c k.metric_name "" k.bucket ≡ k
      plain off = rw off (rw off at key)

  fits : (n : ℕ) (xs : List F) → length (last_n n xs) ≤ n
  fits n xs = omega (arith, length-drop (length xs - n) xs)

  abbrev AllFresh : Windows F → Windows F → Type 0
  AllFresh [] acc = Unit
  AllFresh ((k, w) ∷ ws) acc = Fresh k acc × AllFresh ws acc

  Fresh-append :
      (j k : Key) (w : List F) (acc : Windows F)
      → same_key k j ≡ false
      → Fresh j acc
      → Fresh j (acc ++ ((k, w) ∷ []))
  Fresh-append j k w acc apart h = All-append _ acc ((k, w) ∷ []) h (apart, tt)

  AllFresh-append :
      (k : Key) (w : List F) (ws acc : Windows F)
      → Fresh k ws
      → AllFresh ws acc
      → AllFresh ws (acc ++ ((k, w) ∷ []))
  AllFresh-append k w [] acc f h = tt
  AllFresh-append k w ((j, v) ∷ ws) acc f h =
      (Fresh-append j k w acc (same_key_sym j k f.0) h.0, AllFresh-append k w ws acc f.1 h.1)

  load-snapshot_onto :
      (ws acc : Windows F) → IsValid ws → AllFresh ws acc → load c (snapshot c ws) acc ≡ acc ++ ws
  unfolding load snapshot
  load-snapshot_onto [] acc h f = sym (append-nil acc)
  load-snapshot_onto ((k, w) ∷ ws) acc h f =
      let onto : put_window (key_for c k.metric_name (or_nothing (row_of c (k, w)).series) k.bucket)
            (last_n c.window_size w) acc
          ≡ acc ++ ((k, w) ∷ []) =
        rw (row-load k w h.0, last_n-all c.window_size w h.1) (put_new k w acc f.0) in
      ap (load c (snapshot c ws)) onto
      ∙ load-snapshot_onto ws (acc ++ ((k, w) ∷ [])) h.3 (AllFresh-append k w ws acc h.2 f.1)
      ∙ append_assoc acc ((k, w) ∷ []) ws

module _ (fl : Floats) (median : List fl.F → fl.F) (c : Settings) (hour : ℕ → ℕ) where
  open fl use {F}

  key_of_event-IsKey : (event : TelemetryEvent F) → IsKey c (key_of_event fl median c hour event)
  key_of_event-IsKey event = ground arith

  detect_value-IsValid :
      (k : Key) (value : Option F) (ws : Windows F)
      → IsKey c k
      → IsValid c ws
      → IsValid c (detect_value fl median c hour k value ws).1
  unfolding detect_value
  detect_value-IsValid k none ws key h = h
  detect_value-IsValid k (some value) ws key h =
      put-IsValid c k (last_n c.window_size (window_of k ws ++ (value ∷ []))) ws key
        (fits c c.window_size _) h

  detect-IsValid :
      (event : TelemetryEvent F) (ws : Windows F)
      → IsValid c ws
      → IsValid c (detect fl median c hour event ws).1
  unfolding detect
  detect-IsValid event ws h =
      detect_value-IsValid (key_of_event fl median c hour event) event.value ws
        (key_of_event-IsKey event) h

  learned-IsValid :
      (events : List (TelemetryEvent F)) (ws : Windows F)
      → IsValid c ws
      → IsValid c (learned fl median c hour events ws)
  unfolding learned
  learned-IsValid [] ws h = h
  learned-IsValid (event ∷ events) ws h =
      learned-IsValid events (detect fl median c hour event ws).1 (detect-IsValid event ws h)

  AllFresh-nil : (ws : Windows F) → AllFresh c ws []
  AllFresh-nil [] = tt
  AllFresh-nil ((k, w) ∷ ws) = (tt, AllFresh-nil ws)

  -- Whatever events a correlator has seen, no window is longer than the window size and no key has
  -- two windows; and a new correlator of the same settings that loads its snapshot has the same
  -- windows, in the same order.
  pub load-snapshot :
      (events : List (TelemetryEvent F))
      → let ws = learned fl median c hour events [] in
        IsValid c ws × (load c (snapshot c ws) [] ≡ ws)
  load-snapshot events =
      let valid = learned-IsValid events [] tt in
      (valid, load-snapshot_onto c _ [] valid (AllFresh-nil _))
