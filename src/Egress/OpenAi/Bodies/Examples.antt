-- ===== src/Egress/OpenAi/Bodies/Examples.antt =====
-- Changes of a body at concrete inputs.
use lunaroute.Prelude.{◌≡◌, refl, some, [], ◌∷◌}
use lunaroute.Normalized.{Json, object, array, nil, cons, field, end, text, number}
use lunaroute.Egress.OpenAi.Bodies.{
  RequestBodyModConfig, apply_request_body_modifications, get_field, is_object,
}
use lunaroute.Egress.OpenAi.Bodies.Merge.{value_at, IsMap}
use lunaroute.Egress.OpenAi.Bodies.Precedence.{by_override, precedence}

abbrev config : RequestBodyModConfig
config = record {
  defaults = some (
      object (
        field "seed" (number "1")
          (field "options" (object (field "a" (number "1") (field "b" (number "1") end))) end)));
  overrides = some (object (field "options" (object (field "a" (number "3") end)) end));
  prepend_messages = some (text "be brief" ∷ text "be kind" ∷ []);
}

abbrev body : Json
body = object (
    field "messages" (array (cons (text "hi") nil))
      (field "options" (object (field "a" (number "2") (field "c" (number "2") end))) end))

precedence_example :
    value_at ("options" ∷ "a" ∷ []) (apply_request_body_modifications (some config) body)
    ≡ some (number "3")
unfolding IsMap get_field is_object
precedence_example =
    precedence "options" ("a" ∷ []) config body (number "3") refl
      (refl, tt, (refl, (refl, tt, (refl, tt, tt)), tt)) (refl, (refl, tt, tt), tt)
      (by_override _ _ refl refl refl)

defaulted :
    value_at ("options" ∷ "b" ∷ []) (apply_request_body_modifications (some config) body)
    ≡ some (number "1")
unfolding apply_request_body_modifications get_field
defaulted = refl

prepended :
    value_at ("messages" ∷ []) (apply_request_body_modifications (some config) body)
    ≡ some (array (cons (text "be brief") (cons (text "be kind") (cons (text "hi") nil))))
unfolding apply_request_body_modifications get_field
prepended = refl
