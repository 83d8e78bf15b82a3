-- ===== src/Egress/OpenAi.antt =====
-- crates/lunaroute-egress/src/openai.rs: the chat completions API as the connector speaks it. The
-- types of the wire; serde's reading and writing of JSON is left out.
pub mod Requests
pub mod Responses
pub mod Chunks
pub mod Bodies
use lunaroute.Prelude.{ℕ, String, Bool, Option, List}
use lunaroute.Prelude.Int.{ℤ}
use lunaroute.Normalized.{Json}

pub record OpenAiFunctionCall : Type 0 where
  pub name : String
  pub arguments : String

pub record OpenAiToolCall : Type 0 where
  pub id : String
  pub tool_type : String
  pub function : OpenAiFunctionCall

pub record OpenAiMessage : Type 0 where
  pub role : String
  pub content : Option String
  pub name : Option String
  pub tool_calls : Option (List OpenAiToolCall)
  pub tool_call_id : Option String

pub record OpenAiFunction : Type 0 where
  pub name : String
  pub description : Option String
  pub parameters : Json

pub record OpenAiTool : Type 0 where
  pub tool_type : String
  pub function : OpenAiFunction

pub record OpenAiFunctionName : Type 0 where
  pub name : String

-- The type of an object, and its function.
pub data OpenAiToolChoice : Type 0 where
  string : String → OpenAiToolChoice
  object : String → OpenAiFunctionName → OpenAiToolChoice

pub record OpenAiChatRequest : Type 0 where
  pub model : String
  pub messages : List OpenAiMessage
  pub temperature : Option ℕ
  pub top_p : Option ℕ
  pub max_tokens : Option ℕ
  pub max_completion_tokens : Option ℕ
  pub stream : Option Bool
  pub stop : Option (List String)
  pub tools : Option (List OpenAiTool)
  pub tool_choice : Option OpenAiToolChoice

pub record OpenAiUsage : Type 0 where
  pub prompt_tokens : ℕ
  pub completion_tokens : ℕ
  pub total_tokens : ℕ

pub record OpenAiChoice : Type 0 where
  pub index : ℕ
  pub message : OpenAiMessage
  pub finish_reason : Option String

pub record OpenAiChatResponse : Type 0 where
  pub id : String
  pub model : String
  pub choices : List OpenAiChoice
  pub usage : OpenAiUsage
  pub created : ℤ

pub record OpenAiFunctionCallDelta : Type 0 where
  pub name : Option String
  pub arguments : Option String

pub record OpenAiToolCallDelta : Type 0 where
  pub index : ℕ
  pub id : Option String
  pub function : Option OpenAiFunctionCallDelta

pub record OpenAiDelta : Type 0 where
  pub role : Option String
  pub content : Option String
  pub tool_calls : Option (List OpenAiToolCallDelta)

pub record OpenAiStreamChoice : Type 0 where
  pub index : ℕ
  pub delta : OpenAiDelta
  pub finish_reason : Option String

pub record OpenAiStreamChunk : Type 0 where
  pub id : String
  pub choices : List OpenAiStreamChoice
  pub usage : Option OpenAiUsage
