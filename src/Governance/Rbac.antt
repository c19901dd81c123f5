-- ===== src/Governance/Rbac.antt =====
-- services/governance/rbac.py. `fnmatch` is an argument.
use intelliops.Base.{Some}
use intelliops.Base.{
  Bool, true, false, ◌&&◌, ◌||◌, String, ◌==◌, Option, none, some, List, [], ◌∷◌, any, ◌≡◌, ◌↔◌,
  inl, inr, arith, Bool-cases,
}
use intelliops.Base.Dict.{Dict, lookup, lookup_or}

-- A rule of a role; a key that the YAML lacks is `none`.
pub record Rule : Type 0 where
  pub action : Option String
  pub resource : Option String

pub record RbacPolicy : Type 0 where
  pub roles : Dict (List Rule)
  pub actors : Dict (List String)

-- `rule.get("resource", "")`
abbrev pub pattern_of : Rule → String
pattern_of rule = elim (rule.resource) [ none ↦ "" | some glob ↦ glob ]

abbrev pub has_action : Rule → String → Bool
has_action rule action = elim (rule.action) [ none ↦ false | some a ↦ a == action ]

any-Some : {A : Type 0} (p : A → Bool) (xs : List A) → any p xs ≡ true → Some (λ x. p x ≡ true) xs
any-Some p [] h = absurd (ground arith)
any-Some p (x ∷ xs) h = elim (Bool-cases (p x)) [
  | inl e ↦ Some.here e
  | inr e ↦ Some.there (any-Some p xs (ground arith))
]

Some-any : {A : Type 0} (p : A → Bool) (xs : List A) → Some (λ x. p x ≡ true) xs → any p xs ≡ true
Some-any p [] h = elim h [ ]
Some-any p (x ∷ xs) (Some.here e) = ground arith
Some-any p (x ∷ xs) (Some.there s) = ground (arith, Some-any p xs s)

module _ (fnmatch : String → String → Bool) (policy : RbacPolicy) (action resource : String) where
  unfoldable pub allows : Rule → Bool
  allows rule = has_action rule action && fnmatch resource (pattern_of rule)

  unfoldable pub check_roles : List String → Bool
  check_roles [] = false
  check_roles (role ∷ roles) =
      let later = check_roles roles in any allows (lookup_or role policy.roles []) || later

  unfoldable pub check : String → Bool
  check actor = check_roles (lookup_or actor policy.actors [])

  -- The rule that grants an access, found through a role.
  abbrev pub Granted : String → Type 0
  Granted role = Some (λ rule. allows rule ≡ true) (lookup_or role policy.roles [])

  check_roles-Some : (roles : List String) → check_roles roles ≡ true → Some Granted roles
  unfolding check_roles
  check_roles-Some [] h = absurd (ground arith)
  check_roles-Some (role ∷ roles) h =
      elim (Bool-cases (any allows (lookup_or role policy.roles []))) [
        | inl e ↦ Some.here (any-Some allows (lookup_or role policy.roles []) e)
        | inr e ↦ Some.there (check_roles-Some roles (ground arith))
      ]

  Some-check_roles : (roles : List String) → Some Granted roles → check_roles roles ≡ true
  unfolding check_roles
  Some-check_roles [] h = elim h [ ]
  Some-check_roles (role ∷ roles) (Some.here g) =
      ground (arith, Some-any allows (lookup_or role policy.roles []) g)
  Some-check_roles (role ∷ roles) (Some.there s) = ground (arith, Some-check_roles roles s)

  -- Default deny: an actor may act exactly when one of its roles has a rule for exactly this
  -- action whose pattern matches the resource. So an unknown actor may do nothing.
  pub check_iff :
      (actor : String)
      → ((check actor ≡ true) ↔ Some Granted (lookup_or actor policy.actors []))
        × (lookup actor policy.actors ≡ none → check actor ≡ false)
  unfolding check check_roles lookup_or
  check_iff actor = (
    (
      check_roles-Some (lookup_or actor policy.actors []),
      Some-check_roles (lookup_or actor policy.actors []),
    ),
    λ h. rw (h, check, lookup_or),
  )
