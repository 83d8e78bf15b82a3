-- ===== src/Ingress/OpenAi.antt =====
-- crates/lunaroute-ingress/src/openai.rs: the chat completions API as clients speak it. The types of
-- the wire; serde's reading and writing of JSON is left out.
pub mod Requests
pub mod Responses
pub mod Chunks
use lunaroute.Prelude.{ℕ, String, Bool, Option, List}
use lunaroute.Prelude.Int.{ℤ}
use lunaroute.Normalized.{Json}

pub record OpenAiFunctionCall : Type 0 where
  pub name : String
  pub arguments : String

pub record OpenAiToolCall : Type 0 where
  pub id : String
  pub tool_type : String
  pub function : OpenAiFunctionCall

pub record OpenAiMessage : Type 0 where
  pub role : String
  pub content : Option String
  pub name : Option String
  pub tool_calls : Option (List OpenAiToolCall)
  pub tool_call_id : Option String

pub record OpenAiFunction : Type 0 where
  pub name : String
  pub description : Option String
  pub parameters : Json

pub record OpenAiTool : Type 0 where
  pub tool_type : String
  pub function : OpenAiFunction

pub record OpenAiFunctionChoice : Type 0 where
  pub name : String

-- The type of an object, and its function.
pub data OpenAiToolChoice : Type 0 where
  string : String → OpenAiToolChoice
  object : String → OpenAiFunctionChoice → OpenAiToolChoice

pub record OpenAiChatRequest : Type 0 where
  pub model : String
  pub messages : List OpenAiMessage
  pub temperature : Option ℕ
  pub top_p : Option ℕ
  pub max_tokens : Option ℕ
  pub stream : Option Bool
  pub stop : Option (List String)
  pub n : Option ℕ
  pub presence_penalty : Option ℕ
  pub frequency_penalty : Option ℕ
  pub user : Option String
  pub tools : Option (List OpenAiTool)
  pub tool_choice : Option OpenAiToolChoice

pub record OpenAiPromptTokensDetails : Type 0 where
  pub cached_tokens : Option ℕ
  pub audio_tokens : Option ℕ

pub record OpenAiCompletionTokensDetails : Type 0 where
  pub reasoning_tokens : Option ℕ
  pub audio_tokens : Option ℕ

pub record OpenAiUsage : Type 0 where
  pub prompt_tokens : ℕ
  pub completion_tokens : ℕ
  pub total_tokens : ℕ
  pub prompt_tokens_details : Option OpenAiPromptTokensDetails
  pub completion_tokens_details : Option OpenAiCompletionTokensDetails

pub record OpenAiChoice : Type 0 where
  pub index : ℕ
  pub message : OpenAiMessage
  pub finish_reason : Option String

pub record OpenAiChatResponse : Type 0 where
  pub id : String
  pub object_type : String
  pub created : ℤ
  pub model : String
  pub choices : List OpenAiChoice
  pub usage : OpenAiUsage

pub record OpenAiFunctionCallDelta : Type 0 where
  pub name : Option String
  pub arguments : Option String

pub record OpenAiToolCallDelta : Type 0 where
  pub index : ℕ
  pub id : Option String
  pub tool_type : Option String
  pub function : Option OpenAiFunctionCallDelta

pub record OpenAiDelta : Type 0 where
  pub role : Option String
  pub content : Option String
  pub tool_calls : Option (List OpenAiToolCallDelta)

pub record OpenAiStreamChoice : Type 0 where
  pub index : ℕ
  pub delta : OpenAiDelta
  pub finish_reason : Option String

pub record OpenAiStreamChunk : Type 0 where
  pub id : String
  pub object_type : String
  pub created : ℤ
  pub model : String
  pub choices : List OpenAiStreamChoice
  pub usage : Option OpenAiUsage
