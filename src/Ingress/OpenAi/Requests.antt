-- ===== src/Ingress/OpenAi/Requests.antt =====
-- crates/lunaroute-ingress/src/openai.rs: `validate_request` and `to_normalized`. What the code asks
-- of f32 numbers and of Unicode's lower case is an argument.
use Prim.Native.String.{◌++◌ as str_append}
use lunaroute.Prelude.{
  ℕ, Bool, false, not, ◌||◌, ◌&&◌, String, Option, none, some, List, [], ◌∷◌, ltb, leb, ◌==◌,
  if◌then◌else◌, str_eq, Result, ok, err, ◌>>=◌, traverse, and_then, value_or, filter_map, is_empty,
}
use lunaroute.Prelude.Int.{ℤ, pos, negsuc}
use lunaroute.Prelude.Texts.{contains_text, is_empty_text, byte_length, join, show_u64}
use lunaroute.Normalized.{
  Json, JsonFields, end, field, object, NormalizedRequest, Message, MessageContent, text_content,
  parts, ContentPart, text_part, image, Role, system, user, assistant, tool, ToolCall, Tool,
  ToolChoice, auto, required, no_tool, specific, ToolResult,
}
use lunaroute.Ingress.{IngressError, invalid_request}
use lunaroute.Ingress.OpenAi.{
  OpenAiChatRequest, OpenAiMessage, OpenAiToolCall, OpenAiTool, OpenAiToolChoice, string,
}
use lunaroute.Ingress.OpenAi

-- `(lo..=hi).contains(&x)` for an f32 and bounds that are integers, how an f32 prints, and
-- `str::to_lowercase`.
pub record Library : Type 0 where
  pub in_range : ℤ → ℤ → ℕ → Bool
  pub show_f32 : ℕ → String
  pub to_lowercase : String → String

abbrev pub max_tool_args_size : ℕ
max_tool_args_size = 1_000_000

abbrev refuse : {A : Type 0} → String → Result IngressError A
refuse why = err (invalid_request why)

-- `schema.get("type").is_some()`.
has_type : JsonFields → Bool
has_type end = false
has_type (field key value rest) = str_eq key "type" || has_type rest

unfoldable pub validate_tool_schema : Json → String → Result IngressError (Unit {0})
unfolding has_type
validate_tool_schema (object fields) name =
    if has_type fields
    then ok tt
    else refuse (str_append "Tool '" (str_append name "': schema must have 'type' field"))
validate_tool_schema _ name =
    refuse
      (str_append "Tool '" (str_append name "': parameters must be a valid JSON Schema object"))

error_keywords : List String
error_keywords =
    "error:" ∷ "error occurred" ∷ "failed:" ∷ "failed to" ∷ "failure:" ∷ "exception:"
    ∷ "exception occurred" ∷ "traceback" ∷ "stack trace" ∷ "cannot" ∷ "could not" ∷ "unable to"
    ∷ "permission denied" ∷ "not found" ∷ "invalid" ∷ "syntax error" ∷ "runtime error" ∷ []

any_in : List String → String → Bool
any_in [] s = false
any_in (k ∷ ks) s = contains_text k s || any_in ks s

-- A check of one field of the request: a value, if there is one, that fails its test is refused.
check : Option ℕ → (ℕ → Bool) → (ℕ → String) → Result IngressError (Unit {0})
check none test why = ok tt
check (some x) test why = if test x then ok tt else refuse (why x)

unfoldable pub role_of : String → Option Role
role_of role =
    if str_eq role "system"
    then some system
    else (if str_eq role "user"
        then some user
        else (if str_eq role "assistant"
            then some assistant
            else (if str_eq role "tool" then some tool else none)))

-- The message length is in bytes.
unfoldable pub check_content : Option String → Result IngressError (Unit {0})
check_content none = ok tt
check_content (some content) =
    if ltb 1_000_000 (byte_length content)
    then refuse (
        str_append "Message content too large: "
          (str_append (show_u64 (byte_length content)) " bytes (max 1MB)"))
    else ok tt

unfoldable pub to_tool_call : OpenAiToolCall → Result IngressError ToolCall
to_tool_call call =
    if ltb max_tool_args_size (byte_length call.function.arguments)
    then refuse (
        str_append "Tool arguments too large for '" (
          str_append call.function.name (
            str_append "': "
              (str_append (show_u64 (byte_length call.function.arguments)) " bytes (max 1MB)"))))
    else ok (record {
      id = call.id;
      tool_type = call.tool_type;
      function = record { name = call.function.name; arguments = call.function.arguments };
    })

unfoldable pub with_role : Option Role → OpenAiMessage → Result IngressError Message
unfolding check_content to_tool_call
with_role none msg = refuse (str_append "Invalid role: " msg.role)
with_role (some role) msg = check_content msg.content >>= λ _.
    traverse to_tool_call (value_or msg.tool_calls []) >>= λ calls. ok (record {
      role = role;
      content = text_content (value_or msg.content "");
      name = msg.name;
      tool_calls = calls;
      tool_call_id = msg.tool_call_id;
    })

unfoldable pub to_message : OpenAiMessage → Result IngressError Message
unfolding role_of with_role
to_message msg = with_role (role_of msg.role) msg

unfoldable pub to_tool : OpenAiTool → Result IngressError Tool
unfolding validate_tool_schema
to_tool t = validate_tool_schema t.function.parameters t.function.name >>= λ _. ok (record {
  tool_type = t.tool_type;
  function = record {
    name = t.function.name;
    description = t.function.description;
    parameters = t.function.parameters;
  };
})

-- A text that is none of the three is dropped.
unfoldable pub to_tool_choice : OpenAiToolChoice → Option ToolChoice
to_tool_choice (string s) =
    if str_eq s "none"
    then some no_tool
    else (if str_eq s "auto"
        then some auto
        else (if str_eq s "required" then some required else none))
to_tool_choice (OpenAi.object kind function) = some (specific function.name)

abbrev part_text : ContentPart → Option String
part_text (text_part s) = some s
part_text (image source) = none

abbrev plain_text : MessageContent → String
plain_text (text_content s) = s
plain_text (parts ps) = join "\n" (filter_map part_text ps)

module _ (lib : Library) where
  open lib use {in_range, show_f32, to_lowercase}

  -- Whether a tool's result reads like an error.
  unfoldable pub detect_tool_error : String → Bool
  unfolding error_keywords any_in
  detect_tool_error content = any_in error_keywords (to_lowercase content)

  check_f32 : String → String → ℤ → ℤ → Option ℕ → Result IngressError (Unit {0})
  unfolding check
  check_f32 name range lo hi x =
      check x (in_range lo hi) (λ v. str_append name (str_append range (show_f32 v)))

  unfoldable pub validate_request : OpenAiChatRequest → Result IngressError (Unit {0})
  unfolding check_f32 check
  validate_request req =
      check_f32 "temperature" " must be between 0.0 and 2.0, got " (pos 0) (pos 2) req.temperature
      >>= λ _.
          check_f32 "top_p" " must be between 0.0 and 1.0, got " (pos 0) (pos 1) req.top_p >>= λ _.
          check req.max_tokens (λ n. not (n == 0)) (λ n. "max_tokens must be greater than 0")
          >>= λ _.
              check req.max_tokens (λ n. leb n 100000)
                (λ n. str_append "max_tokens must be <= 100000, got " (show_u64 n))
              >>= λ _.
                  check_f32 "presence_penalty" " must be between -2.0 and 2.0, got " (negsuc 1)
                    (pos 2) req.presence_penalty
                  >>= λ _.
                      check_f32 "frequency_penalty" " must be between -2.0 and 2.0, got " (negsuc 1)
                        (pos 2) req.frequency_penalty
                      >>= λ _.
                          check req.n (λ n. leb 1 n && leb n 10)
                            (λ n. str_append "n must be between 1 and 10, got " (show_u64 n))
                          >>= λ _.
                              (if is_empty_text req.model
                                then refuse "model field cannot be empty"
                                else (if is_empty req.messages
                                    then refuse "messages array cannot be empty"
                                    else ok tt))

  tool_result_of : Role → Option String → MessageContent → Option ToolResult
  unfolding detect_tool_error
  tool_result_of tool (some id) content = some (record {
    tool_call_id = id;
    is_error = detect_tool_error (plain_text content);
    content = plain_text content;
    tool_name = none;
  })
  tool_result_of _ _ content = none

  -- The result that a message of the tool role carries.
  unfoldable pub tool_result : Message → Option ToolResult
  unfolding tool_result_of
  tool_result msg = tool_result_of msg.role msg.tool_call_id msg.content

  unfoldable pub to_normalized : OpenAiChatRequest → Result IngressError NormalizedRequest
  unfolding validate_request to_message to_tool to_tool_choice tool_result
  to_normalized req = validate_request req >>= λ _. traverse to_message req.messages >>= λ messages.
      traverse to_tool (value_or req.tools []) >>= λ tools. ok (record {
        messages = messages;
        system = none;
        model = req.model;
        max_tokens = req.max_tokens;
        temperature = req.temperature;
        top_p = req.top_p;
        top_k = none;
        stop_sequences = value_or req.stop [];
        stream = value_or req.stream false;
        tools = tools;
        tool_choice = and_then req.tool_choice to_tool_choice;
        tool_results = filter_map tool_result messages;
        metadata = [];
      })
