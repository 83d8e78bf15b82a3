-- ===== src/Ingress.antt =====
-- crates/lunaroute-ingress/src: the adapters between the clients' dialects and the normalized form.
-- types.rs has the errors, which both adapters return.
pub mod OpenAi
pub mod Anthropic
pub mod StreamingMetrics
pub mod Marker
use lunaroute.Prelude.{ℕ, String}
use lunaroute.Normalized.{Json}

pub data IngressError : Type 0 where
  invalid_request missing_header authentication_failed : String → IngressError
  request_too_large : ℕ → IngressError
  timeout : IngressError
  serialization internal unsupported_feature provider_failed : String → IngressError
  provider_error_response : ℕ → Json → IngressError
