-- ===== src/Notification.antt =====
-- crates/lunaroute-routing/src/notification.rs, and `inject_notification_if_needed` of
-- crates/lunaroute-routing/src/provider_router.rs: the message that tells of a switch of providers.
pub mod Idempotence
mod Examples
use lunaroute.Prelude.{
  ℕ, zero, suc, ◌+◌, ◌-◌, ◌*◌, ◌/◌, ◌%◌, ◌^◌, ◌≤◌, ◌<◌, ◌≡◌, refl, sym, ap, ap₂, subst, ◌∙◌, ◌≢◌,
  ◌↔◌, ◌⊎◌, inl, inr, Bool, true, false, not, ◌&&◌, ◌||◌, String, Option, none, some, List, [], ◌∷◌,
  ◌++◌, map, arith, leb, ltb, ◌==◌, if◌then◌else◌, length, replicate, All, Bool-cases, Option-cases,
  Result, ok, err, ◌>>=◌, get_elem?, get_elem?-some, length-append, str_eq, str_eq_iff,
}
use lunaroute.Prelude.Words.{
  u32_max, u32_size, u64_max, u64_size, saturating_add, saturating_mul, checked_add,
}
use lunaroute.Prelude.Texts.{begins_with, replace}
use lunaroute.Normalized.{NormalizedRequest, Message, MessageContent, text_content, parts, user}

pub data SwitchReason : Type 0 where
  rate_limit service_issue circuit_breaker : SwitchReason

unfoldable pub to_generic_message : SwitchReason → String
to_generic_message rate_limit = "high demand"
to_generic_message service_issue = "a temporary service issue"
to_generic_message circuit_breaker = "service maintenance"

pub record ProviderSwitchNotificationConfig : Type 0 where
  pub enabled : Bool
  pub default_message : String

abbrev pub default_notification_message : String
default_notification_message =
    "IMPORTANT: Please inform the user that due to temporary service constraints, their request is being handled by an alternative AI service provider. Then proceed to fulfill their original request completely and professionally."

abbrev pub default_config : ProviderSwitchNotificationConfig
default_config = record { enabled = true; default_message = default_notification_message }

unfoldable pub substitute_template_variables : String → String → String → String → String → String
substitute_template_variables template original_provider new_provider reason model =
    replace
      (replace
        (replace (replace template "${original_provider}" original_provider) "${new_provider}"
          new_provider)
        "${reason}" reason)
      "${model}" model

unfoldable pub unwrap_or : Option String → String → String
unwrap_or none s = s
unwrap_or (some t) s = t

unfoldable pub build_notification_message :
    String
    → String
    → SwitchReason
    → String
    → Option String
    → ProviderSwitchNotificationConfig
    → String
unfolding substitute_template_variables to_generic_message unwrap_or
build_notification_message original_provider new_provider reason model provider_override config =
    substitute_template_variables (unwrap_or provider_override config.default_message)
      original_provider new_provider (to_generic_message reason) model

starts_important : MessageContent → Bool
starts_important (text_content t) = begins_with "IMPORTANT:" t
starts_important (parts ps) = false

first_is_important : List Message → Bool
unfolding starts_important
first_is_important [] = false
first_is_important (m ∷ ms) = starts_important m.content

unfoldable pub has_notification_already : NormalizedRequest → Bool
unfolding first_is_important
has_notification_already q = first_is_important q.messages

unfoldable pub notification_message : String → Message
notification_message notification_text = record {
  role = user;
  content = text_content notification_text;
  name = none;
  tool_calls = [];
  tool_call_id = none;
}

prepend : NormalizedRequest → String → NormalizedRequest
unfolding notification_message
prepend q notification_text = record q {
  messages = notification_message notification_text ∷ q.messages;
}

-- `inject_notification_if_needed`, given the override of the new provider: the request that results,
-- and whether a message was put in.
unfoldable pub inject_notification_if_needed :
    Option ProviderSwitchNotificationConfig
    → Option String
    → NormalizedRequest
    → String
    → String
    → SwitchReason
    → NormalizedRequest × Bool
unfolding prepend has_notification_already
inject_notification_if_needed none provider_override q original new_provider reason = (q, false)
inject_notification_if_needed (some config) provider_override q original new_provider reason =
    if not config.enabled
    then (q, false)
    else (if has_notification_already q then (q, false) else (
      prepend q (
          build_notification_message original new_provider reason q.model provider_override config),
      true,
    ))
