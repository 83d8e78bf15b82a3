-- ===== src/Router/Fuel.antt =====
-- The loop over the alternatives ends before its fuel does.
use lunaroute.Prelude.{
  ℕ, zero, suc, ◌≤◌, ◌<◌, ◌≡◌, ◌≢◌, true, false, ◌||◌, String, List, [], ◌∷◌, ◌++◌, arith,
  if◌then◌else◌, length, str_eq, str_eq_iff,
}
use lunaroute.Normalized.{NormalizedRequest, NormalizedResponse}
use lunaroute.Strategy.{limits_alternative, provider_ids}
use lunaroute.Router.{Sent, Router}
use lunaroute.Router.Sending.{contains, LoopEnd, answered, gave_up, out_of_fuel, alternatives}
use lunaroute.Router.Attempt.{selected-contains}
use lunaroute.Router.Rounds.{Round, stops, answers, breaks, repeats, alternatives-Round}

-- How many of the ids are not in `tried`.
fresh : List String → List String → ℕ
fresh [] tried = 0
fresh (i ∷ is) tried = let rest = fresh is tried in if contains tried i then rest else suc rest

contains-snoc :
    (tried : List String) (a i : String)
    → contains (tried ++ a ∷ []) i ≡ (contains tried i || str_eq a i)
unfolding contains
contains-snoc [] a i = ground arith
contains-snoc (t ∷ tried) a i = ground (arith, contains-snoc tried a i)

fresh-le : (ids tried : List String) (a : String) → fresh ids (tried ++ a ∷ []) ≤ fresh ids tried
unfolding fresh
fresh-le [] tried a = omega arith
fresh-le (i ∷ is) tried a = ground (arith, contains-snoc tried a i, fresh-le is tried a)

-- Trying one more of the ids leaves fewer.
fresh-lt :
    (ids tried : List String) (a : String)
    → contains ids a ≡ true
    → contains tried a ≡ false
    → fresh ids (tried ++ a ∷ []) < fresh ids tried
unfolding fresh contains
fresh-lt [] tried a h n = cc
fresh-lt (i ∷ is) tried a h n = ground (
  arith,
  contains-snoc tried a i,
  fresh-le is tried a,
  fresh-lt is tried a,
  str_eq_iff i a,
  str_eq_iff a i,
)

fresh-le-length : (ids tried : List String) → fresh ids tried ≤ length ids
unfolding fresh
fresh-le-length [] tried = omega arith
fresh-le-length (i ∷ is) tried = ground (arith, fresh-le-length is tried)

abbrev NotOut : {F : Type 0} → Router F × LoopEnd → Type 0
NotOut end = end.1 ≢ out_of_fuel

gave_up-NotOut : gave_up ≢ out_of_fuel
gave_up-NotOut e = cc

answered-NotOut : (response : NormalizedResponse) → answered response ≢ out_of_fuel
answered-NotOut response e = cc

module _ {F : Type 0} (clock : List Sent → ℕ) (primary alternative : List String) (base : ℕ)
    (rule : String) (q : NormalizedRequest) (original : String) where
  Round-NotOut :
      (fuel : ℕ) (r : Router F) (tried : List String) (end : Router F × LoopEnd)
      → ((r' : Router F) (a : String)
          → contains (provider_ids (limits_alternative primary alternative base)) a ≡ true
          → contains tried a ≡ false
          → NotOut (
              alternatives clock fuel
                (limits_alternative primary alternative base)
                rule
                q
                original
                r'
                (tried ++ a ∷ [])))
      → Round clock (limits_alternative primary alternative base) rule q original fuel r tried end
      → NotOut end
  Round-NotOut fuel r tried end again (stops e) = rw e gave_up-NotOut
  Round-NotOut fuel r tried end again (answers a response selected replied e) =
      rw e (answered-NotOut response)
  Round-NotOut fuel r tried end again (breaks a selected e) = rw e gave_up-NotOut
  Round-NotOut fuel r tried end again (repeats a selected new e) =
      rw e
        (again _ a (selected-contains r primary alternative base (clock r.log) rule a selected) new)

  enough :
      (fuel : ℕ) (r : Router F) (tried : List String)
      → fresh (provider_ids (limits_alternative primary alternative base)) tried < fuel
      → NotOut (
          alternatives clock fuel
            (limits_alternative primary alternative base)
            rule
            q
            original
            r
            tried)
  enough zero r tried h = absurd (omega arith)
  enough (suc fuel) r tried h =
      Round-NotOut fuel r tried _
        (λ r' a among new. enough fuel r' (tried ++ a ∷ []) (
          omega (
            arith,
            fresh-lt (provider_ids (limits_alternative primary alternative base)) tried a among new,
          )))
        (alternatives-Round clock (limits_alternative primary alternative base) rule q original fuel
          r tried)

  -- The loop over the alternatives ends: with one more unit of fuel than the strategy has providers,
  -- it never runs out, whatever the providers reply and whichever have been tried.
  pub alternatives_end :
      (r : Router F) (tried : List String)
      → (alternatives clock
          (suc (length (provider_ids (limits_alternative primary alternative base))))
          (limits_alternative primary alternative base)
          rule
          q
          original
          r
          tried).1
        ≢ out_of_fuel
  alternatives_end r tried =
      enough (suc (length (provider_ids (limits_alternative primary alternative base)))) r tried (
        omega (
          arith,
          fresh-le-length (provider_ids (limits_alternative primary alternative base)) tried,
        ))
