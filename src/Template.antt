-- ===== src/Template.antt =====
-- crates/lunaroute-core/src/template.rs: the substitution of variables in templates. The matches of
-- the two regular expressions, `str::to_uppercase` and the environment are parameters.
pub mod Secrets
mod Examples
use Prim.Native.String.{◌++◌ as str_append}
use lunaroute.Prelude.{
  Bool, true, false, ◌||◌, String, Option, none, some, List, [], ◌∷◌, if◌then◌else◌, str_eq,
  map_some, value_or,
}
use lunaroute.Prelude.Maps.{lookup, insert}
use lunaroute.Prelude.Texts.{begins_with, strip_prefix, ends_with, contains_text, replace}
use lunaroute.Normalized.{
  Json, JsonItems, JsonFields, text, array, object, nil, cons, end, field, null, boolean, number,
}

-- What a regular expression finds in a text: the text between the matches, and what the first group
-- captured of each match.
pub data Piece : Type 0 where
  between captured : String → Piece

pub record TemplateContext : Type 0 where
  pub request_id : String
  pub session_id : Option String
  pub provider : String
  pub model : String
  pub timestamp : String
  pub client_ip : Option String
  pub user_agent : Option String
  pub cached : Option Bool
  pub env_vars : List (String × String)

-- `TemplateContext::new`, with the time as a text.
unfoldable pub new : String → String → String → String → TemplateContext
new request_id provider model now = record {
  request_id = request_id;
  session_id = none;
  provider = provider;
  model = model;
  timestamp = now;
  client_ip = none;
  user_agent = none;
  cached = none;
  env_vars = [];
}

sensitive_prefixes : List String
sensitive_prefixes =
    "AWS_" ∷ "GITHUB_" ∷ "GITLAB_" ∷ "AZURE_" ∷ "GCP_" ∷ "DOCKER_" ∷ "NPM_" ∷ "PYPI_" ∷ "CARGO_"
    ∷ "OPENAI_" ∷ "ANTHROPIC_" ∷ []

sensitive_patterns : List String
sensitive_patterns =
    "_KEY" ∷ "_SECRET" ∷ "_PASSWORD" ∷ "_TOKEN" ∷ "_CREDS" ∷ "_AUTH" ∷ "_PRIVATE" ∷ "_CERT" ∷ "_PEM"
    ∷ "_JWT" ∷ "_OAUTH" ∷ "_APIKEY" ∷ []

sensitive_names : List String
sensitive_names = "PASSWORD" ∷ "SECRET" ∷ "TOKEN" ∷ "KEY" ∷ "CREDENTIALS" ∷ []

any : (String → Bool) → List String → Bool
any test [] = false
any test (s ∷ ss) = test s || any test ss

show_bool : Bool → String
show_bool true = "true"
show_bool false = "false"

pub record Regexes : Type 0 where
  pub escaped_var : String → List Piece
  pub template_var : String → List Piece

-- `ESCAPED_VAR_REGEX.replace_all(template, "<<<ESCAPED:$1>>>")`.
unfoldable pub hide_escapes : List Piece → String
hide_escapes [] = ""
hide_escapes (between s ∷ ps) = str_append s (hide_escapes ps)
hide_escapes (captured s ∷ ps) =
    str_append "<<<ESCAPED:" (str_append s (str_append ">>>" (hide_escapes ps)))

module _ (to_uppercase : String → String) where
  unfoldable pub is_sensitive_env_var : String → Bool
  unfolding sensitive_prefixes sensitive_patterns sensitive_names any
  is_sensitive_env_var var_name =
      let upper = to_uppercase var_name in
      any (λ prefix. begins_with prefix upper) sensitive_prefixes
      || any (λ pattern'. ends_with pattern' upper || contains_text pattern' upper)
          sensitive_patterns
      || any (str_eq upper) sensitive_names

  module _ (env : String → Option String) where
    load : Option String → String → TemplateContext → TemplateContext × Option String
    load none var_name context = (context, none)
    load (some value) var_name context =
        (record context { env_vars = insert var_name value context.env_vars }, some value)

    cached_or_load : Option String → String → TemplateContext → TemplateContext × Option String
    unfolding load
    cached_or_load (some value) var_name context = (context, some value)
    cached_or_load none var_name context = load (env var_name) var_name context

    unfoldable pub get_env_var : String → TemplateContext → TemplateContext × Option String
    unfolding cached_or_load is_sensitive_env_var
    get_env_var var_name context =
        if is_sensitive_env_var var_name
        then (context, none)
        else cached_or_load (lookup var_name context.env_vars) var_name context

    unfoldable pub standard_variable : String → TemplateContext → Option String
    unfolding show_bool
    standard_variable var_name context =
        if str_eq var_name "request_id"
        then some context.request_id
        else (if str_eq var_name "session_id"
            then context.session_id
            else (if str_eq var_name "provider"
                then some context.provider
                else (if str_eq var_name "model"
                    then some context.model
                    else (if str_eq var_name "timestamp"
                        then some context.timestamp
                        else (if str_eq var_name "client_ip"
                            then context.client_ip
                            else (if str_eq var_name "user_agent"
                                then context.user_agent
                                else (if str_eq var_name "cached"
                                    then map_some show_bool context.cached
                                    else none)))))))

    variable_by : Option String → String → TemplateContext → TemplateContext × Option String
    unfolding get_env_var standard_variable
    variable_by (some env_var) var_name context = get_env_var env_var context
    variable_by none var_name context = (context, standard_variable var_name context)

    unfoldable pub get_variable : String → TemplateContext → TemplateContext × Option String
    unfolding variable_by
    get_variable var_name context = variable_by (strip_prefix "env." var_name) var_name context

    -- `TEMPLATE_VAR_REGEX.replace_all(…, |caps| …)`: a variable without a value stays as it is.
    unfoldable pub fill : List Piece → TemplateContext → TemplateContext × String
    unfolding get_variable
    fill [] context = (context, "")
    fill (between s ∷ ps) context =
        let (context', rest) = fill ps context in (context', str_append s rest)
    fill (captured var_name ∷ ps) context =
        let (context', value) = get_variable var_name context in
        let (context'', rest) = fill ps context' in
        (context'', str_append (value_or value (str_append "${" (str_append var_name "}"))) rest)

    module _ (regexes : Regexes) where
      unfoldable pub substitute_string : String → TemplateContext → TemplateContext × String
      unfolding fill hide_escapes
      substitute_string template context =
          let hidden = hide_escapes (regexes.escaped_var template) in
          let (context', filled) = fill (regexes.template_var hidden) context in
          (context', replace (replace filled "<<<ESCAPED:" "${") ">>>" "}")

      unfoldable mutual
        unfolding substitute_string

        pub substitute_value : Json → TemplateContext → TemplateContext × Json
        substitute_value (text s) context =
            let (context', s') = substitute_string s context in (context', text s')
        substitute_value (array items) context =
            let (context', items') = substitute_items items context in (context', array items')
        substitute_value (object fields) context =
            let (context', fields') = substitute_fields fields context in (context', object fields')
        substitute_value null context = (context, null)
        substitute_value (boolean b) context = (context, boolean b)
        substitute_value (number n) context = (context, number n)

        pub substitute_items : JsonItems → TemplateContext → TemplateContext × JsonItems
        substitute_items nil context = (context, nil)
        substitute_items (cons v vs) context =
            let (context', v') = substitute_value v context in
            let (context'', vs') = substitute_items vs context' in (context'', cons v' vs')

        pub substitute_fields : JsonFields → TemplateContext → TemplateContext × JsonFields
        substitute_fields end context = (context, end)
        substitute_fields (field key v vs) context =
            let (context', v') = substitute_value v context in
            let (context'', vs') = substitute_fields vs context' in (context'', field key v' vs')

      -- `substitute_headers`, in the order in which the map gives its entries.
      unfoldable pub substitute_headers :
          List (String × String) → TemplateContext → TemplateContext × List (String × String)
      unfolding substitute_string
      substitute_headers [] context = (context, [])
      substitute_headers ((key, v) ∷ headers) context =
          let (context', v') = substitute_string v context in
          let (context'', headers') = substitute_headers headers context' in
          (context'', (key, v') ∷ headers')
