-- ===== src/ToolMapper/Examples.antt =====
-- A mapper of tool calls at concrete inputs.
use lunaroute.Prelude.{◌≡◌, refl, none, some, List, [], ◌∷◌, arith}
use lunaroute.Prelude.Maps.{lookup, insert}
use lunaroute.ToolMapper.{record_call, with_ttl, fresh_name, lookup_name}
use lunaroute.ToolMapper.Memory.{
  Call, recorded, looked_up, run, last_recorded, lookup_name-last_recorded,
}

abbrev calls : List Call
calls =
    recorded "call_1" "look" 1
    ∷ recorded "call_2" "read" 2
    ∷ looked_up "call_1" 5
    ∷ recorded "call_1" "write" 9
    ∷ []

-- The name that was recorded last, and within the time to live.
lookup_name-last_recorded_example :
    (lookup_name "call_1" 12 (run calls (with_ttl 10))).1
    ≡ fresh_name 10 12 (last_recorded "call_1" calls none)
lookup_name-last_recorded_example =
    lookup_name-last_recorded 10 "call_1" calls 12
      (omega arith, (omega arith, (omega arith, (omega arith, omega arith))))

found : (lookup_name "call_1" 12 (run calls (with_ttl 10))).1 ≡ some "write"
unfolding lookup_name with_ttl lookup record_call insert
found = refl

expired : (lookup_name "call_2" 12 (run calls (with_ttl 10))).1 ≡ none
unfolding lookup_name with_ttl lookup record_call insert
expired = refl
