-- ===== src/RouteTable/Matching.antt =====
-- Which rule decides a route.
use lunaroute.Prelude.{
  ◌≡◌, refl, sym, ap, subst, ◌∙◌, ◌⊎◌, inl, inr, Bool, true, false, String, Option, none, some,
  List, [], ◌∷◌, ◌++◌, arith, if◌then◌else◌, All, Bool-cases, Option-cases,
}
use lunaroute.Normalized.{NormalizedRequest}
use lunaroute.RouteTable.{
  openai, anthropic, RoutingContext, new_context, with_provider_override, RuleMatcher,
  model_pattern, listener_is, provider_override_set, always, RoutingRule, RoutingDecision,
  decision_of, override_decision, matches, first_match, find_route, or_next,
}

-- A rule that waits for a listener or for an override.
pub needs_context : RuleMatcher → Bool
needs_context (listener_is l) = true
needs_context provider_override_set = true
needs_context (model_pattern p) = false
needs_context always = false

-- The rules that look at the request alone.
pub without_context : List RoutingRule → List RoutingRule
unfolding needs_context
without_context [] = []
without_context (r ∷ rs) =
    let rest = without_context rs in if needs_context r.matcher then rest else r ∷ rest

module _ (compile : String → Option (String → Bool)) where
  -- The rule applies: it matches, and it has a target.
  abbrev pub Applies : NormalizedRequest → RoutingContext → RoutingRule → Type 0
  Applies q c r =
      (matches compile r.matcher q c ≡ true) × (d : RoutingDecision) × (decision_of r ≡ some d)

  -- The rule is passed over.
  abbrev pub Passed : NormalizedRequest → RoutingContext → RoutingRule → Type 0
  Passed q c r = (matches compile r.matcher q c ≡ false) ⊎ (decision_of r ≡ none)

  -- The decision is that of a rule of the list, after rules that are all passed over.
  abbrev pub FirstRule :
      List RoutingRule → NormalizedRequest → RoutingContext → RoutingDecision → Type 0
  FirstRule rules q c d =
      (xs : List RoutingRule) × (r : RoutingRule) × (ys : List RoutingRule) × (rules ≡ xs ++ r ∷ ys)
      × All (Passed q c) xs
      × (matches compile r.matcher q c ≡ true)
      × (decision_of r ≡ some d)

  -- What a search of the rules gives.
  abbrev pub Routes :
      List RoutingRule → NormalizedRequest → RoutingContext → Option RoutingDecision → Type 0
  Routes rules q c o =
      ((d : RoutingDecision) × (o ≡ some d) × FirstRule rules q c d)
      ⊎ ((o ≡ none) × All (Passed q c) rules)

  skip :
      (r : RoutingRule) (rs : List RoutingRule) (q : NormalizedRequest) (c : RoutingContext)
      (o : Option RoutingDecision)
      → Passed q c r
      → Routes rs q c o
      → Routes (r ∷ rs) q c o
  skip r rs q c o p (inl (d, e, (xs, s, ys, split, before, m, t))) =
      inl (d, e, (r ∷ xs, s, ys, ap (◌∷◌ r) split, (p, before), m, t))
  skip r rs q c o p (inr (e, all)) = inr (e, (p, all))

  first_match-Passed :
      (r : RoutingRule) (rs : List RoutingRule) (q : NormalizedRequest) (c : RoutingContext)
      → Passed q c r
      → first_match compile (r ∷ rs) q c ≡ first_match compile rs q c
  unfolding first_match or_next
  first_match-Passed r rs q c (inl other) = rw other
  first_match-Passed r rs q c (inr none_left) = ground arith

  first_match-taken :
      (r : RoutingRule) (rs : List RoutingRule) (q : NormalizedRequest) (c : RoutingContext)
      (d : RoutingDecision)
      → matches compile r.matcher q c ≡ true
      → decision_of r ≡ some d
      → first_match compile (r ∷ rs) q c ≡ some d
  unfolding first_match or_next
  first_match-taken r rs q c d same e = rw (same, e)

  later :
      (r : RoutingRule) (rs : List RoutingRule) (q : NormalizedRequest) (c : RoutingContext)
      → Passed q c r
      → Routes rs q c (first_match compile rs q c)
      → Routes (r ∷ rs) q c (first_match compile (r ∷ rs) q c)
  later r rs q c p rest =
      subst (Routes (r ∷ rs) q c) (sym (first_match-Passed r rs q c p))
        (skip r rs q c (first_match compile rs q c) p rest)

  first_match-Routes :
      (rules : List RoutingRule) (q : NormalizedRequest) (c : RoutingContext)
      → Routes rules q c (first_match compile rules q c)
  first_match-Routes [] q c = inr (unfold first_match in refl, tt)
  first_match-Routes (r ∷ rs) q c = elim (Bool-cases (matches compile r.matcher q c)) [
    | inr other ↦ later r rs q c (inl other) (first_match-Routes rs q c)
    | inl same ↦ elim (Option-cases (decision_of r)) [
      | inl none_left ↦ later r rs q c (inr none_left) (first_match-Routes rs q c)
      | inr (d, e) ↦ inl (d, first_match-taken r rs q c d same e, ([], r, rs, refl, tt, same, e))
    ]
  ]

  find_route-first_match :
      (rules : List RoutingRule) (q : NormalizedRequest) (c : RoutingContext)
      → c.provider_override ≡ none
      → find_route compile rules q c ≡ first_match compile rules q c
  unfolding find_route
  find_route-first_match rules q c e = simp e

  -- Without an override the route is that of the first rule, in the order of the table, that
  -- matches and has a target; there is none exactly when every rule is passed over.
  pub find_route-Routes :
      (rules : List RoutingRule) (q : NormalizedRequest) (c : RoutingContext)
      → c.provider_override ≡ none
      → Routes rules q c (find_route compile rules q c)
  find_route-Routes rules q c e =
      subst (Routes rules q c) (sym (find_route-first_match rules q c e))
        (first_match-Routes rules q c)

  -- An override decides the route whatever the rules are: its provider alone, with no fallbacks.
  pub find_route-override :
      (rules : List RoutingRule) (q : NormalizedRequest) (c : RoutingContext) (p : String)
      → find_route compile rules q (with_provider_override c p) ≡ some (override_decision p)
  unfolding find_route with_provider_override
  find_route-override rules q c p = refl

  -- With an empty context a listener rule and an override rule match nothing.
  new_context-matches :
      (m : RuleMatcher) (q : NormalizedRequest)
      → needs_context m ≡ true
      → matches compile m q new_context ≡ false
  unfolding matches new_context needs_context
  new_context-matches (listener_is openai) q h = refl
  new_context-matches (listener_is anthropic) q h = refl
  new_context-matches provider_override_set q h = refl
  new_context-matches (model_pattern p) q h = cc
  new_context-matches always q h = cc

  first_match-cons :
      (r : RoutingRule) (rs qs : List RoutingRule) (q : NormalizedRequest) (c : RoutingContext)
      → first_match compile rs q c ≡ first_match compile qs q c
      → first_match compile (r ∷ rs) q c ≡ first_match compile (r ∷ qs) q c
  unfolding first_match
  first_match-cons r rs qs q c e = rw e

  first_match-without_context :
      (rules : List RoutingRule) (q : NormalizedRequest)
      → first_match compile rules q new_context
        ≡ first_match compile (without_context rules) q new_context
  unfolding without_context
  first_match-without_context [] q = refl
  first_match-without_context (r ∷ rs) q = elim (Bool-cases (needs_context r.matcher)) [
    | inl dead ↦ rw dead (
        first_match-Passed r rs q new_context (inl (new_context-matches r.matcher q dead))
        ∙ first_match-without_context rs q)
    | inr used ↦ rw used (
        first_match-cons r rs (without_context rs) q new_context (first_match-without_context rs q))
  ]

  -- In the empty context, which is the one that the router passes, the rules for a listener and for
  -- an override are dead: the table routes as if they were not there.
  pub find_route-without_context :
      (rules : List RoutingRule) (q : NormalizedRequest)
      → find_route compile rules q new_context
        ≡ find_route compile (without_context rules) q new_context
  unfolding find_route new_context
  find_route-without_context rules q = first_match-without_context rules q
