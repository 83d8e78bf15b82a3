-- ===== src/Ingress/Anthropic.antt =====
-- crates/lunaroute-ingress/src/anthropic.rs: the Anthropic messages API as clients speak it. The
-- types of the wire; serde's reading and writing of JSON is left out.
pub mod ToolIds
pub mod Blocks
pub mod Messages
pub mod Requests
pub mod Responses
use lunaroute.Prelude.{ℕ, String, Bool, Option, List}
use lunaroute.Normalized.{Json}

pub data AnthropicSystemBlock : Type 0 where
  text : String → AnthropicSystemBlock
  unknown : Json → AnthropicSystemBlock

pub data AnthropicSystem : Type 0 where
  text_system : String → AnthropicSystem
  blocks_system : List AnthropicSystemBlock → AnthropicSystem

pub data AnthropicContentBlock : Type 0 where
  text : String → AnthropicContentBlock
  tool_use : String → String → Json → AnthropicContentBlock
  tool_result : String → String → Option Bool → AnthropicContentBlock
  unknown : Json → AnthropicContentBlock

pub data AnthropicMessageContent : Type 0 where
  text_content : String → AnthropicMessageContent
  blocks : List AnthropicContentBlock → AnthropicMessageContent

pub record AnthropicMessage : Type 0 where
  pub role : String
  pub content : Option AnthropicMessageContent

pub record AnthropicTool : Type 0 where
  pub name : String
  pub description : Option String
  pub input_schema : Json

pub record AnthropicMessagesRequest : Type 0 where
  pub model : String
  pub messages : List AnthropicMessage
  pub system : Option AnthropicSystem
  pub max_tokens : Option ℕ
  pub temperature : Option ℕ
  pub top_p : Option ℕ
  pub top_k : Option ℕ
  pub stream : Option Bool
  pub stop_sequences : Option (List String)
  pub tools : Option (List AnthropicTool)

pub data AnthropicContent : Type 0 where
  text : String → AnthropicContent
  tool_use : String → String → Json → AnthropicContent

pub record AnthropicUsage : Type 0 where
  pub input_tokens : ℕ
  pub output_tokens : ℕ
  pub cache_creation_input_tokens : Option ℕ
  pub cache_read_input_tokens : Option ℕ

pub record AnthropicResponse : Type 0 where
  pub id : String
  pub response_type : String
  pub role : String
  pub content : List AnthropicContent
  pub model : String
  pub stop_reason : Option String
  pub stop_sequence : Option String
  pub usage : AnthropicUsage

pub record AnthropicMessageStart : Type 0 where
  pub id : String
  pub start_type : String
  pub role : String
  pub model : String
  pub usage : AnthropicUsage

pub data AnthropicContentBlockStart : Type 0 where
  text_start : String → AnthropicContentBlockStart
  tool_start : String → String → AnthropicContentBlockStart

pub data AnthropicContentDelta : Type 0 where
  text_delta input_json_delta : String → AnthropicContentDelta

pub record AnthropicMessageDelta : Type 0 where
  pub stop_reason : Option String
  pub stop_sequence : Option String

pub record AnthropicUsageDelta : Type 0 where
  pub output_tokens : ℕ
  pub thinking_tokens : Option ℕ

pub data AnthropicStreamEvent : Type 0 where
  message_start : AnthropicMessageStart → AnthropicStreamEvent
  content_block_start : ℕ → AnthropicContentBlockStart → AnthropicStreamEvent
  content_block_delta : ℕ → AnthropicContentDelta → AnthropicStreamEvent
  content_block_stop : ℕ → AnthropicStreamEvent
  message_delta : AnthropicMessageDelta → AnthropicUsageDelta → AnthropicStreamEvent
  message_stop : AnthropicStreamEvent
