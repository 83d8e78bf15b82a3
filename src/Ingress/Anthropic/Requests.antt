-- ===== src/Ingress/Anthropic/Requests.antt =====
-- crates/lunaroute-ingress/src/anthropic.rs: `validate_request` and `to_normalized`. What the code asks
-- of f32 numbers is that of the OpenAI adapter; serde_json's printing of a value is an argument.
use Prim.Native.String.{◌++◌ as str_append}
use lunaroute.Prelude.{
  ℕ, Bool, false, not, ◌||◌, String, Option, none, some, List, [], ◌∷◌, ◌++◌, map, ltb, leb, ◌==◌,
  if◌then◌else◌, str_eq, Result, ok, err, ◌>>=◌, map_err, traverse, map_some, value_or, filter_map,
  is_empty, length,
}
use lunaroute.Prelude.Int.{ℤ, pos}
use lunaroute.Prelude.Texts.{is_empty_text, byte_length, join, show_u64}
use lunaroute.Normalized.{
  Json, JsonFields, end, field, object, NormalizedRequest, Message, text_content, Role, user,
  assistant, ToolCall, Tool, ToolResult,
}
use lunaroute.Ingress.{IngressError, invalid_request}
use lunaroute.Ingress.OpenAi.Requests.{Library, max_tool_args_size}
use lunaroute.Ingress.Anthropic.{
  AnthropicMessagesRequest, AnthropicMessage, AnthropicMessageContent, blocks,
  AnthropicContentBlock, text, tool_use, tool_result, unknown, AnthropicTool, AnthropicSystem,
  text_system, blocks_system, AnthropicSystemBlock,
}
use lunaroute.Ingress.Anthropic

abbrev refuse : {A : Type 0} → String → Result IngressError A
refuse why = err (invalid_request why)

-- `schema.get("type").is_some()`.
has_type : JsonFields → Bool
has_type end = false
has_type (field key value rest) = str_eq key "type" || has_type rest

unfoldable pub validate_tool_schema : Json → String → Result IngressError (Unit {0})
unfolding has_type
validate_tool_schema (object fields) name =
    if has_type fields
    then ok tt
    else refuse (str_append "Tool '" (str_append name "': schema must have 'type' field"))
validate_tool_schema _ name =
    refuse
      (str_append "Tool '" (str_append name "': input_schema must be a valid JSON Schema object"))

-- A check of one field of the request: a value, if there is one, that fails its test is refused.
check : Option ℕ → (ℕ → Bool) → (ℕ → String) → Result IngressError (Unit {0})
check none test why = ok tt
check (some x) test why = if test x then ok tt else refuse (why x)

unfoldable pub role_of : String → Option Role
role_of role =
    if str_eq role "user"
    then some user
    else (if str_eq role "assistant" then some assistant else none)

-- What the loop over the blocks of a message has gathered.
pub record Gathered : Type 0 where
  pub text_parts : List String
  pub calls : List ToolCall
  pub tool_result_id : Option String
  pub results : List ToolResult

unfoldable pub to_tool : AnthropicTool → Result IngressError Tool
unfolding validate_tool_schema
to_tool t = validate_tool_schema t.input_schema t.name >>= λ _. ok (record {
  tool_type = "function";
  function = record { name = t.name; description = t.description; parameters = t.input_schema };
})

abbrev text_of_block : AnthropicSystemBlock → Option String
text_of_block (AnthropicSystemBlock.text s) = some s
text_of_block (AnthropicSystemBlock.unknown value) = none

-- A system prompt in blocks is joined.
unfoldable pub system_text : AnthropicSystem → String
system_text (text_system s) = s
system_text (blocks_system bs) = join "\n" (filter_map text_of_block bs)

module _ (lib : Library) (to_string : Json → Result String String) where
  open lib use {in_range, show_f32}

  check_f32 : String → ℤ → ℤ → Option ℕ → Result IngressError (Unit {0})
  unfolding check
  check_f32 why lo hi x = check x (in_range lo hi) (λ v. str_append why (show_f32 v))

  unfoldable pub validate_request : AnthropicMessagesRequest → Result IngressError (Unit {0})
  unfolding check_f32 check
  validate_request req =
      check_f32 "temperature must be between 0.0 and 1.0, got " (pos 0) (pos 1) req.temperature
      >>= λ _.
          check_f32 "top_p must be between 0.0 and 1.0, got " (pos 0) (pos 1) req.top_p >>= λ _.
          check req.top_k (λ n. not (n == 0)) (λ n. "top_k must be greater than 0") >>= λ _.
          check req.max_tokens (λ n. not (n == 0)) (λ n. "max_tokens must be greater than 0")
          >>= λ _.
              check req.max_tokens (λ n. leb n 100000)
                (λ n. str_append "max_tokens must be <= 100000, got " (show_u64 n))
              >>= λ _.
                  (if is_empty_text req.model
                    then refuse "model field cannot be empty"
                    else (if ltb 256 (byte_length req.model)
                        then refuse (
                            str_append "model name too long: "
                              (str_append (show_u64 (byte_length req.model)) " chars (max 256)"))
                        else (if is_empty req.messages
                            then refuse "messages array cannot be empty"
                            else (if ltb 100_000 (length req.messages)
                                then refuse (
                                    str_append "messages array too large: " (
                                      str_append (show_u64 (length req.messages))
                                        " messages (max 100,000)"))
                                else ok tt))))

  -- A tool call with its arguments, as text.
  call_of : String → String → String → Result IngressError ToolCall
  call_of id name arguments =
      if ltb max_tool_args_size (byte_length arguments)
      then refuse (
          str_append "Tool arguments too large for '" (
            str_append name (
              str_append "': " (str_append (show_u64 (byte_length arguments)) " bytes (max 1MB)"))))
      else ok (record {
        id = id;
        tool_type = "function";
        function = record { name = name; arguments = arguments };
      })

  unfoldable pub gather : AnthropicContentBlock → Gathered → Result IngressError Gathered
  unfolding call_of
  gather (text s) g = ok (record g { text_parts = g.text_parts ++ s ∷ [] })
  gather (tool_use id name input) g =
      map_err
        (λ e.
          invalid_request
            (str_append "Invalid tool input for '" (str_append name (str_append "': " e))))
        (to_string input)
      >>= λ arguments.
          call_of id name arguments >>= λ call. ok (record g { calls = g.calls ++ call ∷ [] })
  gather (tool_result id content is_error) g = ok (record g {
    tool_result_id = some id;
    text_parts = g.text_parts ++ content ∷ [];
    results =
        g.results
        ++ (record {
          tool_call_id = id;
          is_error = value_or is_error false;
          content = content;
          tool_name = none;
        })
          ∷ [];
  })
  gather (unknown value) g = ok g

  unfoldable pub gather_all : List AnthropicContentBlock → Gathered → Result IngressError Gathered
  unfolding gather
  gather_all [] g = ok g
  gather_all (b ∷ bs) g = gather b g >>= λ g'. gather_all bs g'

  unfoldable pub parse_content : AnthropicMessageContent → Result IngressError Gathered
  unfolding gather_all
  parse_content (Anthropic.text_content s) =
      if ltb 1_000_000 (byte_length s)
      then refuse (
          str_append "Message content too large: "
            (str_append (show_u64 (byte_length s)) " bytes (max 1MB)"))
      else ok (record { text_parts = s ∷ []; calls = []; tool_result_id = none; results = [] })
  parse_content (blocks bs) =
      gather_all bs (record { text_parts = []; calls = []; tool_result_id = none; results = [] })

  unfoldable pub with_role :
      Option Role → AnthropicMessage → Result IngressError (Message × List ToolResult)
  unfolding parse_content
  with_role none msg = refuse (
      str_append "Invalid role: "
        (str_append msg.role " (Anthropic only supports 'user' and 'assistant')"))
  with_role (some role) msg =
      parse_content (value_or msg.content (Anthropic.text_content "")) >>= λ g. ok (
        record {
          role = role;
          content = text_content (join "\n" g.text_parts);
          name = none;
          tool_calls = g.calls;
          tool_call_id = g.tool_result_id;
        },
        g.results,
      )

  -- A message, with the tool results that it adds.
  unfoldable pub to_message : AnthropicMessage → Result IngressError (Message × List ToolResult)
  unfolding role_of with_role
  to_message msg = with_role (role_of msg.role) msg

  all_results : List (Message × List ToolResult) → List ToolResult
  all_results [] = []
  all_results (m ∷ ms) = m.1 ++ all_results ms

  -- An error of the tools is returned before one of the messages.
  unfoldable pub to_normalized : AnthropicMessagesRequest → Result IngressError NormalizedRequest
  unfolding validate_request to_message to_tool system_text all_results
  to_normalized req = validate_request req >>= λ _.
      traverse to_tool (value_or req.tools []) >>= λ tools.
      traverse to_message req.messages >>= λ messages. ok (record {
        messages = map (λ m. m.0) messages;
        system = map_some system_text req.system;
        model = req.model;
        max_tokens = req.max_tokens;
        temperature = req.temperature;
        top_p = req.top_p;
        top_k = req.top_k;
        stop_sequences = value_or req.stop_sequences [];
        stream = value_or req.stream false;
        tools = tools;
        tool_choice = none;
        tool_results = all_results messages;
        metadata = [];
      })
