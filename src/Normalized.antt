-- ===== src/Normalized.antt =====
-- crates/lunaroute-core/src/normalized.rs and error.rs: requests, responses and errors as all
-- providers share them. An f32 is the number of its bit pattern, which is only carried.
use lunaroute.Prelude.Int.{ℤ}
use lunaroute.Prelude.{ℕ, Bool, String, Option, List}

-- `serde_json::Value`; a number is its text.
mutual
  pub data Json : Type 0 where
    null : Json
    boolean : Bool → Json
    number : String → Json
    text : String → Json
    array : JsonItems → Json
    object : JsonFields → Json

  pub data JsonItems : Type 0 where
    nil : JsonItems
    cons : Json → JsonItems → JsonItems

  pub data JsonFields : Type 0 where
    end : JsonFields
    field : String → Json → JsonFields → JsonFields

pub data Role : Type 0 where
  system user assistant tool : Role

pub data ImageSource : Type 0 where
  url : String → ImageSource
  base64 : String → String → ImageSource

pub data ContentPart : Type 0 where
  text_part : String → ContentPart
  image : ImageSource → ContentPart

pub data MessageContent : Type 0 where
  text_content : String → MessageContent
  parts : List ContentPart → MessageContent

pub record FunctionCall : Type 0 where
  pub name : String
  pub arguments : String

pub record ToolCall : Type 0 where
  pub id : String
  pub tool_type : String
  pub function : FunctionCall

pub record Message : Type 0 where
  pub role : Role
  pub content : MessageContent
  pub name : Option String
  pub tool_calls : List ToolCall
  pub tool_call_id : Option String

pub record FunctionDefinition : Type 0 where
  pub name : String
  pub description : Option String
  pub parameters : Json

pub record Tool : Type 0 where
  pub tool_type : String
  pub function : FunctionDefinition

pub data ToolChoice : Type 0 where
  auto required no_tool : ToolChoice
  specific : String → ToolChoice

pub record ToolResult : Type 0 where
  pub tool_call_id : String
  pub is_error : Bool
  pub content : String
  pub tool_name : Option String

pub record NormalizedRequest : Type 0 where
  pub messages : List Message
  pub system : Option String
  pub model : String
  pub max_tokens : Option ℕ
  pub temperature : Option ℕ
  pub top_p : Option ℕ
  pub top_k : Option ℕ
  pub stop_sequences : List String
  pub stream : Bool
  pub tools : List Tool
  pub tool_choice : Option ToolChoice
  pub tool_results : List ToolResult
  pub metadata : List (String × Json)

pub data FinishReason : Type 0 where
  stop max_length tool_calls content_filter error : FinishReason

pub record Choice : Type 0 where
  pub index : ℕ
  pub message : Message
  pub finish_reason : Option FinishReason

pub record Usage : Type 0 where
  pub prompt_tokens : ℕ
  pub completion_tokens : ℕ
  pub total_tokens : ℕ

pub record NormalizedResponse : Type 0 where
  pub id : String
  pub model : String
  pub choices : List Choice
  pub usage : Usage
  pub created : ℤ
  pub metadata : List (String × Json)

-- `lunaroute_core::Error`, with the messages of the libraries as texts.
pub data Error : Type 0 where
  serialization invalid_request provider_error internal : String → Error
  rate_limit_exceeded : Option ℕ → Error
  invalid_tenant tenant_required tenant_not_found : String → Error
  config config_validation session_not_found session_store database io : String → Error
  config_not_found : Error

pub record Delta : Type 0 where
  pub role : Option Role
  pub content : Option String

pub record FunctionCallDelta : Type 0 where
  pub name : Option String
  pub arguments : Option String

pub data NormalizedStreamEvent : Type 0 where
  start : String → String → NormalizedStreamEvent
  delta : ℕ → Delta → NormalizedStreamEvent
  tool_call_delta : ℕ → ℕ → Option String → Option FunctionCallDelta → NormalizedStreamEvent
  usage_event : Usage → NormalizedStreamEvent
  end_event : FinishReason → NormalizedStreamEvent
  error_event : String → NormalizedStreamEvent
