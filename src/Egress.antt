-- ===== src/Egress.antt =====
-- crates/lunaroute-egress/src: the connectors, which speak the providers' dialects.
pub mod OpenAi
pub mod Anthropic
