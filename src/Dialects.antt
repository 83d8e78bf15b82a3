-- ===== src/Dialects.antt =====
-- How the dialects fit together: what the clients' adapters and the providers' connectors of
-- crates/lunaroute-ingress/src and crates/lunaroute-egress/src do to a request, a response and a
-- stream on the way through the proxy.
pub mod Protocol
pub mod Conformance
pub mod ClientStream
pub mod ErrorPanic
pub mod OpenAiRequests
pub mod OpenAiResponses
pub mod SystemPrompt
pub mod PlainText
pub mod ParallelTools
pub mod StreamEnd
mod Examples
