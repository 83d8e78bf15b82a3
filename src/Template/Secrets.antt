-- ===== src/Template/Secrets.antt =====
-- What templates can tell of the environment.
use lunaroute.Prelude.{
  ◌≡◌, refl, ap, false, String, Option, none, some, List, [], ◌∷◌, Bool-cases, inl, inr,
}
use lunaroute.Prelude.Maps.{lookup}
use lunaroute.Prelude.Texts.{strip_prefix}
use lunaroute.Normalized.{
  Json, JsonItems, JsonFields, text, array, object, nil, cons, end, field, null, boolean, number,
}
use lunaroute.Template.{
  Piece, between, captured, TemplateContext, Regexes, is_sensitive_env_var, get_env_var,
  cached_or_load, get_variable, variable_by, fill, substitute_string, substitute_value,
  substitute_items, substitute_fields,
}

-- Two steps, the second from the state that the first leaves.
then_same :
    {A B C : Type 0} (combine : A → B → C) (out out' : TemplateContext × A)
    (next next' : TemplateContext → TemplateContext × B)
    → out ≡ out'
    → ((context : TemplateContext) → next context ≡ next' context)
    → ◌≡◌ {A = TemplateContext × C}
        ((next out.0).0, combine out.1 (next out.0).1)
        ((next' out'.0).0, combine out'.1 (next' out'.0).1)
then_same combine out out' next next' first later = rw first (rw (later out'.0) refl)

module _ (to_uppercase : String → String) (env env' : String → Option String) where
  -- The environments agree on the names that are not sensitive.
  abbrev pub Agrees : Type 0
  Agrees = (name : String) → is_sensitive_env_var to_uppercase name ≡ false → env name ≡ env' name

  cached_or_load-same :
      (o : Option String) (name : String) (context : TemplateContext)
      → env name ≡ env' name
      → cached_or_load to_uppercase env o name context
        ≡ cached_or_load to_uppercase env' o name context
  unfolding cached_or_load
  cached_or_load-same (some value) name context same = refl
  cached_or_load-same none name context same = rw same refl

  get_env_var-same :
      (name : String) (context : TemplateContext)
      → Agrees
      → get_env_var to_uppercase env name context ≡ get_env_var to_uppercase env' name context
  unfolding get_env_var
  get_env_var-same name context agree = elim (Bool-cases (is_sensitive_env_var to_uppercase name)) [
    | inl secret ↦ rw secret refl
    | inr shown ↦
        rw shown
          (cached_or_load-same (lookup name context.env_vars) name context (agree name shown))
  ]

  variable_by-same :
      (o : Option String) (name : String) (context : TemplateContext)
      → Agrees
      → variable_by to_uppercase env o name context ≡ variable_by to_uppercase env' o name context
  unfolding variable_by
  variable_by-same none name context agree = refl
  variable_by-same (some var_name) name context agree = get_env_var-same var_name context agree

  fill-same :
      (pieces : List Piece) (context : TemplateContext)
      → Agrees
      → fill to_uppercase env pieces context ≡ fill to_uppercase env' pieces context
  unfolding fill get_variable
  fill-same [] context agree = refl
  fill-same (between s ∷ ps) context agree = rw (fill-same ps context agree) refl
  fill-same (captured name ∷ ps) context agree =
      rw (variable_by-same (strip_prefix "env." name) name context agree) (
        rw
          (fill-same ps (variable_by to_uppercase env' (strip_prefix "env." name) name context).0
            agree)
          refl)

  module _ (regexes : Regexes) (agree : Agrees) where
    substitute_string-same :
        (s : String) (context : TemplateContext)
        → substitute_string to_uppercase env regexes s context
          ≡ substitute_string to_uppercase env' regexes s context
    unfolding substitute_string
    substitute_string-same s context = rw (fill-same (regexes.template_var _) context agree) refl

    mutual
      unfolding substitute_value substitute_items substitute_fields

      value-same :
          (v : Json) (context : TemplateContext)
          → substitute_value to_uppercase env regexes v context
            ≡ substitute_value to_uppercase env' regexes v context
      value-same (text s) context =
          ap (λ out. (out.0, text out.1)) (substitute_string-same s context)
      value-same (array items) context = ap (λ out. (out.0, array out.1)) (items-same items context)
      value-same (object fields) context =
          ap (λ out. (out.0, object out.1)) (fields-same fields context)
      value-same null context = refl
      value-same (boolean b) context = refl
      value-same (number n) context = refl

      items-same :
          (vs : JsonItems) (context : TemplateContext)
          → substitute_items to_uppercase env regexes vs context
            ≡ substitute_items to_uppercase env' regexes vs context
      items-same nil context = refl
      items-same (cons v vs) context =
          then_same (λ v' vs'. cons v' vs') _ _ (substitute_items to_uppercase env regexes vs)
            (substitute_items to_uppercase env' regexes vs) (value-same v context) (items-same vs)

      fields-same :
          (vs : JsonFields) (context : TemplateContext)
          → substitute_fields to_uppercase env regexes vs context
            ≡ substitute_fields to_uppercase env' regexes vs context
      fields-same end context = refl
      fields-same (field key v vs) context =
          then_same (λ v' vs'. field key v' vs') _ _ (substitute_fields to_uppercase env regexes vs)
            (substitute_fields to_uppercase env' regexes vs) (value-same v context) (fields-same vs)

    -- Two environments that agree on every name that is not sensitive give the same JSON value and the
    -- same context: whatever the template, it shows nothing of the value of a sensitive variable that
    -- the context does not hold already.
    pub secrets_stay_out :
        (v : Json) (context : TemplateContext)
        → substitute_value to_uppercase env regexes v context
          ≡ substitute_value to_uppercase env' regexes v context
    secrets_stay_out v context = value-same v context
