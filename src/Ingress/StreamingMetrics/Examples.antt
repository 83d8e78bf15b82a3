-- ===== src/Ingress/StreamingMetrics/Examples.antt =====
-- The streaming metrics at concrete inputs.
use lunaroute.Prelude.{ℕ, ◌≡◌, ◌⊎◌, refl, some, List, [], ◌∷◌}
use lunaroute.Ingress.StreamingMetrics.{boundary_below, Percentiles, percentiles}
use lunaroute.Ingress.StreamingMetrics.Latencies.{AreOrdered, percentiles-AreOrdered}

abbrev measured : List ℕ
measured = 30 ∷ 10 ∷ 20 ∷ 20 ∷ []

percentiles-AreOrdered_example :
    (p : Percentiles) × (percentiles measured ≡ some p) × ((measured ≡ []) ⊎ AreOrdered p)
percentiles-AreOrdered_example = percentiles-AreOrdered measured

found :
    percentiles measured
    ≡ some (record { p50 = some 20; p95 = some 20; p99 = some 20; max = 30; min = 10 })
unfolding percentiles
found = refl

-- A character of two bytes is not cut.
not_cut : boundary_below (97 ∷ 0xc3 ∷ 0xa9 ∷ 98 ∷ []) 2 ≡ 1
unfolding boundary_below
not_cut = refl
