-- ===== src/RouteTable/Order.antt =====
-- The rules stay sorted by descending priority, and those of one priority in their given order.
use lunaroute.Prelude.{
  ◌≡◌, refl, ap, ◌∙◌, inl, inr, true, false, List, [], ◌∷◌, ◌++◌, arith, if◌then◌else◌, All,
  Bool-cases,
}
use lunaroute.Prelude.Int.{ℤ, leb_ℤ, eq_ℤ}
use lunaroute.RouteTable.{RoutingRule, insert_rule, sort_rules, with_rules, add_rule}

-- No rule has a higher priority than one before it.
abbrev pub IsSorted : List RoutingRule → Type 0
IsSorted [] = Unit
IsSorted (r ∷ rs) = All (λ q. leb_ℤ q.priority r.priority ≡ true) rs × IsSorted rs

-- The rules of one priority, in order.
unfoldable pub of_priority : ℤ → List RoutingRule → List RoutingRule
of_priority k [] = []
of_priority k (r ∷ rs) = let rest = of_priority k rs in if eq_ℤ r.priority k then r ∷ rest else rest

leb_ℤ_trans : (a b c : ℤ) → leb_ℤ a b ≡ true → leb_ℤ b c ≡ true → leb_ℤ a c ≡ true
leb_ℤ_trans a b c h k = ground arith

leb_ℤ_total : (a b : ℤ) → leb_ℤ a b ≡ false → leb_ℤ b a ≡ true
leb_ℤ_total a b h = ground arith

All-lower :
    (a b : ℤ) (rs : List RoutingRule)
    → leb_ℤ a b ≡ true
    → All (λ q. leb_ℤ q.priority a ≡ true) rs
    → All (λ q. leb_ℤ q.priority b ≡ true) rs
All-lower a b [] h l = tt
All-lower a b (q ∷ rs) h l = (leb_ℤ_trans q.priority a b l.0 h, All-lower a b rs h l.1)

insert_rule-All :
    (k : ℤ) (r : RoutingRule) (rs : List RoutingRule)
    → leb_ℤ r.priority k ≡ true
    → All (λ q. leb_ℤ q.priority k ≡ true) rs
    → All (λ q. leb_ℤ q.priority k ≡ true) (insert_rule r rs)
unfolding insert_rule
insert_rule-All k r [] h l = (h, tt)
insert_rule-All k r (q ∷ rs) h l = elim (Bool-cases (leb_ℤ q.priority r.priority)) [
  | inl before ↦ rw before (h, l)
  | inr after ↦ rw after (l.0, insert_rule-All k r rs h l.1)
]

insert_rule-IsSorted :
    (r : RoutingRule) (rs : List RoutingRule) → IsSorted rs → IsSorted (insert_rule r rs)
unfolding insert_rule
insert_rule-IsSorted r [] s = (tt, tt)
insert_rule-IsSorted r (q ∷ rs) s = elim (Bool-cases (leb_ℤ q.priority r.priority)) [
  | inl before ↦ rw before ((before, All-lower q.priority r.priority rs before s.0), s)
  | inr after ↦ rw after (
    insert_rule-All q.priority r rs (leb_ℤ_total q.priority r.priority after) s.0,
    insert_rule-IsSorted r rs s.1,
  )
]

sort_rules-IsSorted : (rs : List RoutingRule) → IsSorted (sort_rules rs)
unfolding sort_rules
sort_rules-IsSorted [] = tt
sort_rules-IsSorted (r ∷ rs) = insert_rule-IsSorted r (sort_rules rs) (sort_rules-IsSorted rs)

of_priority-insert_rule :
    (k : ℤ) (r : RoutingRule) (rs : List RoutingRule)
    → of_priority k (insert_rule r rs) ≡ of_priority k (r ∷ rs)
unfolding of_priority insert_rule
of_priority-insert_rule k r [] = refl
of_priority-insert_rule k r (q ∷ rs) = ground (arith, of_priority-insert_rule k r rs)

of_priority-sort_rules :
    (k : ℤ) (rs : List RoutingRule) → of_priority k (sort_rules rs) ≡ of_priority k rs
unfolding sort_rules of_priority
of_priority-sort_rules k [] = refl
of_priority-sort_rules k (r ∷ rs) =
    of_priority-insert_rule k r (sort_rules rs)
    ∙ ap (λ l. if eq_ℤ r.priority k then r ∷ l else l) (of_priority-sort_rules k rs)

of_priority-append :
    (k : ℤ) (rs qs : List RoutingRule)
    → of_priority k (rs ++ qs) ≡ of_priority k rs ++ of_priority k qs
unfolding of_priority
of_priority-append k [] qs = refl
of_priority-append k (r ∷ rs) qs = ground (arith, of_priority-append k rs qs)

-- A new table, and a table to which a rule is added, hold their rules by descending priority; among
-- rules of equal priority the given order stays, and an added rule comes last.
pub route_table_order :
    (rules : List RoutingRule) (rule : RoutingRule) (k : ℤ)
    → IsSorted (with_rules rules)
      × IsSorted (add_rule (with_rules rules) rule)
      × (of_priority k (with_rules rules) ≡ of_priority k rules)
      × (of_priority k (add_rule (with_rules rules) rule)
          ≡ of_priority k rules ++ of_priority k (rule ∷ []))
unfolding with_rules add_rule
route_table_order rules rule k = (
  sort_rules-IsSorted rules,
  sort_rules-IsSorted (sort_rules rules ++ rule ∷ []),
  of_priority-sort_rules k rules,
  of_priority-sort_rules k (sort_rules rules ++ rule ∷ [])
      ∙ (of_priority-append k (sort_rules rules) (rule ∷ [])
          ∙ ap (λ l. l ++ of_priority k (rule ∷ [])) (of_priority-sort_rules k rules)),
)
