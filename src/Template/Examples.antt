-- ===== src/Template/Examples.antt =====
-- Templates at concrete inputs.
use lunaroute.Prelude.{
  ◌≡◌, refl, true, String, Option, none, some, [], ◌∷◌, str_eq, if◌then◌else◌, str_eq_iff,
  Bool-cases, inl, inr,
}
use lunaroute.Prelude.Maps.{lookup}
use lunaroute.Prelude.Texts.{begins_with, ends_with, contains_text, replace}
use lunaroute.Normalized.{Json, object, field, end, text}
use lunaroute.Template.{
  between, captured, TemplateContext, Regexes, new, is_sensitive_env_var, substitute_value,
  substitute_string,
}
use lunaroute.Template.Secrets.{Agrees, secrets_stay_out}

abbrev upper : String → String
upper s = s

-- The matches in the texts of the tests.
abbrev regexes : Regexes
regexes = record {
  escaped_var = λ s. between s ∷ [];
  template_var = λ s.
      if str_eq s "${env.API_KEY} ${env.HOME} ${model}"
      then captured "env.API_KEY"
        ∷ between " "
        ∷ captured "env.HOME"
        ∷ between " "
        ∷ captured "model"
        ∷ []
      else between s ∷ [];
}

abbrev env : String → String → Option String
env secret name =
    if str_eq name "API_KEY"
    then some secret
    else (if str_eq name "HOME" then some "/root" else none)

abbrev context : TemplateContext
unfolding new
context = new "req-1" "openai" "gpt-4o" "now"

abbrev headers : Json
headers = object (field "x-key" (text "${env.API_KEY} ${env.HOME} ${model}") end)

api_key_is_sensitive : is_sensitive_env_var upper "API_KEY" ≡ true
unfolding is_sensitive_env_var begins_with ends_with
api_key_is_sensitive = refl

filled :
    (substitute_string upper (env "s3cret") regexes "${env.API_KEY} ${env.HOME} ${model}" context).1
    ≡ "${env.API_KEY} /root gpt-4o"
unfolding substitute_string replace ends_with contains_text lookup context
filled = refl

-- Text that looks like the mark of an escape is changed.
mark_is_replaced : (substitute_string upper (env "s3cret") regexes "a >>> b" context).1 ≡ "a } b"
unfolding substitute_string replace ends_with contains_text lookup context
mark_is_replaced = refl

keys_differ : Agrees upper (env "s3cret") (env "other")
keys_differ name shown = elim (Bool-cases (str_eq name "API_KEY")) [
  | inl secret ↦ absurd (cc (api_key_is_sensitive, (str_eq_iff name "API_KEY").0 secret, shown))
  | inr other ↦ rw other refl
]

secrets_stay_out_example :
    substitute_value upper (env "s3cret") regexes headers context
    ≡ substitute_value upper (env "other") regexes headers context
secrets_stay_out_example =
    secrets_stay_out upper (env "s3cret") (env "other") regexes keys_differ headers context
