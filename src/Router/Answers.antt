-- ===== src/Router/Answers.antt =====
-- What a request to the router comes to.
use lunaroute.Prelude.{
  ℕ, ◌≡◌, refl, true, String, Option, none, some, List, [], ◌∷◌, ◌++◌, arith, All, ok, str_eq_iff,
}
use lunaroute.RouteTable.{RoutingDecision}
use lunaroute.Strategy.{RoutingStrategy}
use lunaroute.Router.{Sent, Router}
use lunaroute.Router.Sending.{contains, pick}
use lunaroute.RouteTable.{strategy_ids, option_ids}
use lunaroute.Router.Attempt.{select_keeps, contains-append_left, contains-append_right}
use lunaroute.Router.Selecting.{select_from_strategy-contains}

-- The providers that a decision names.
pub candidates_of : RoutingDecision → List String
candidates_of d = strategy_ids d.strategy ++ (option_ids d.primary ++ d.fallbacks)

All-contains :
    (c ps : List String)
    → ((p : String) → contains ps p ≡ true → contains c p ≡ true)
    → All (λ p. contains c p ≡ true) ps
unfolding contains
All-contains c [] f = tt
All-contains c (p ∷ ps) f =
    (f p (ground (arith, str_eq_iff p p)), All-contains c ps (λ i h. f i (ground arith)))

pub fallback-candidate :
    (d : RoutingDecision) → All (λ p. contains (candidates_of d) p ≡ true) d.fallbacks
unfolding candidates_of
fallback-candidate d = All-contains _ d.fallbacks λ p h.
    contains-append_right (strategy_ids d.strategy) (option_ids d.primary ++ d.fallbacks) p
      (contains-append_right (option_ids d.primary) d.fallbacks p h)

pub strategy-candidate :
    (d : RoutingDecision) (p : String)
    → contains (strategy_ids d.strategy) p ≡ true
    → contains (candidates_of d) p ≡ true
unfolding candidates_of
strategy-candidate d p h =
    contains-append_left (strategy_ids d.strategy) (option_ids d.primary ++ d.fallbacks) p h

pub primary-candidate :
    (d : RoutingDecision) (p : String) → d.primary ≡ some p → contains (candidates_of d) p ≡ true
unfolding candidates_of option_ids contains
primary-candidate d p e =
    contains-append_right (strategy_ids d.strategy) (option_ids d.primary ++ d.fallbacks) p (
      contains-append_left (option_ids d.primary) d.fallbacks p
        (simp e (ground (arith, str_eq_iff p p))))

module _ {F : Type 0} (clock : List Sent → ℕ) (debug : List String → String) where
  pub picked-candidate :
      (d : RoutingDecision) (s : Option RoutingStrategy) (o : Option String) (rule : String)
      (r : Router F) (p : String)
      → ((i : String) → contains (strategy_ids s) i ≡ true → contains (candidates_of d) i ≡ true)
      → ((i : String) → o ≡ some i → contains (candidates_of d) i ≡ true)
      → (pick clock s o rule r).1 ≡ ok p
      → contains (candidates_of d) p ≡ true
  unfolding pick strategy_ids
  picked-candidate d (some s) o rule r p f g h =
      f p (select_from_strategy-contains r s rule (clock r.log) p h)
  picked-candidate d none (some i) rule r p f g h = g p (ground arith)
  picked-candidate d none none rule r p f g h = cc

  pub pick_keeps :
      (s : Option RoutingStrategy) (o : Option String) (rule : String) (r : Router F)
      → ((pick clock s o rule r).0.log ≡ r.log)
        × ((pick clock s o rule r).0.providers ≡ r.providers)
  unfolding pick
  pick_keeps (some s) o rule r = select_keeps r s rule (clock r.log)
  pick_keeps none (some i) rule r = (refl, refl)
  pick_keeps none none rule r = (refl, refl)
