-- ===== src/Server/SessionStats/Examples.antt =====
-- The session statistics at concrete inputs.
use lunaroute.Prelude.{◌≤◌, refl, String, Option, none, some, List, [], ◌∷◌, length, All, arith}
use lunaroute.Prelude.Maps.{lookup}
use text.Mathlib.TextPositions.{eq_refl}
use lunaroute.Server.SessionStats.{SessionStats, Request, new}
use lunaroute.Server.SessionStats.Bounds.{AddsUp, GivesKey, record_all, record_all-new}

abbrev first : List (String × SessionStats) → Option String
first [] = none
first ((k, s) ∷ m) = some k

first-GivesKey : GivesKey first
unfolding lookup
first-GivesKey [] h = absurd (omega arith)
first-GivesKey ((k, s) ∷ m) h = (k, s, refl, rw (eq_refl k) refl)

abbrev call : Request
call = record {
  input_tokens = 3;
  output_tokens = 4;
  thinking_tokens = 0;
  tool_calls = ("read", 2) ∷ ("write", 1) ∷ ("read", 18_446_744_073_709_551_615) ∷ [];
  pre_proxy_time = 5;
  post_proxy_time = 6;
}

abbrev calls : List (String × Request)
calls = ("a", call) ∷ ("b", call) ∷ ("a", call) ∷ ("a", call) ∷ []

record_all-new_example :
    (length (record_all first calls (new 1)).stats ≤ 1)
    × All (λ e. AddsUp e.1) (record_all first calls (new 1)).stats
record_all-new_example = record_all-new first first-GivesKey 1 calls (omega arith)
