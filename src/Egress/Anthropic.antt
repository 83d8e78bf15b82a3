-- ===== src/Egress/Anthropic.antt =====
-- crates/lunaroute-egress/src/anthropic.rs: the messages API as the connector speaks it. The types of
-- the wire; serde's reading and writing of JSON is left out.
pub mod Requests
pub mod Responses
pub mod Events
use lunaroute.Prelude.{ℕ, String, Bool, Option, List}
use lunaroute.Normalized.{Json}

pub data AnthropicContentBlock : Type 0 where
  text : String → AnthropicContentBlock
  tool_use : String → String → Json → AnthropicContentBlock
  tool_result : String → String → Option Bool → AnthropicContentBlock

pub data AnthropicContent : Type 0 where
  text_content : String → AnthropicContent
  blocks : List AnthropicContentBlock → AnthropicContent

pub record AnthropicMessage : Type 0 where
  pub role : String
  pub content : AnthropicContent

pub record AnthropicTool : Type 0 where
  pub name : String
  pub description : Option String
  pub input_schema : Json

pub record AnthropicRequest : Type 0 where
  pub model : String
  pub messages : List AnthropicMessage
  pub max_tokens : ℕ
  pub system : Option String
  pub temperature : Option ℕ
  pub top_p : Option ℕ
  pub top_k : Option ℕ
  pub stop_sequences : Option (List String)
  pub stream : Option Bool
  pub tools : Option (List AnthropicTool)

pub record AnthropicUsage : Type 0 where
  pub input_tokens : ℕ
  pub output_tokens : ℕ

pub record AnthropicResponse : Type 0 where
  pub id : String
  pub response_type : String
  pub role : String
  pub content : List AnthropicContentBlock
  pub model : String
  pub stop_reason : Option String
  pub usage : AnthropicUsage

pub record AnthropicStreamMessage : Type 0 where
  pub id : String
  pub message_type : String
  pub role : String
  pub model : String
  pub usage : AnthropicUsage

pub data AnthropicStreamContentBlock : Type 0 where
  text_block : String → AnthropicStreamContentBlock
  tool_block : String → String → AnthropicStreamContentBlock

pub data AnthropicStreamDelta : Type 0 where
  text_delta input_json_delta : String → AnthropicStreamDelta

pub record AnthropicStreamMessageDelta : Type 0 where
  pub stop_reason : Option String
  pub stop_sequence : Option String

pub record AnthropicStreamUsage : Type 0 where
  pub output_tokens : ℕ

pub data AnthropicStreamEvent : Type 0 where
  message_start : AnthropicStreamMessage → AnthropicStreamEvent
  content_block_start : ℕ → AnthropicStreamContentBlock → AnthropicStreamEvent
  content_block_delta : ℕ → AnthropicStreamDelta → AnthropicStreamEvent
  content_block_stop : ℕ → AnthropicStreamEvent
  message_delta : AnthropicStreamMessageDelta → AnthropicStreamUsage → AnthropicStreamEvent
  message_stop ping unknown : AnthropicStreamEvent
