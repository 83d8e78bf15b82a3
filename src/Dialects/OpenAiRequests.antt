-- ===== src/Dialects/OpenAiRequests.antt =====
-- A request of an OpenAI client on its way to OpenAI, through the normalized form.
use lunaroute.Prelude.{
  ◌≡◌, refl, false, not, ◌&&◌, String, Option, none, some, List, [], ◌∷◌, map, arith, if◌then◌else◌,
  str_eq, str_eq_iff, ok, >>=-eq-ok, ok_inj, subst, Result-cases, traverse, traverse-map, map_some,
  and_then, value_or, non_empty, is_empty,
}
use lunaroute.Prelude.Texts.{is_empty_text}
use lunaroute.Normalized.{NormalizedRequest, Message, Role, ToolCall, Tool}
use lunaroute.Ingress.OpenAi
use lunaroute.Ingress.OpenAi.Requests.{
  Library, to_normalized, to_message, to_tool_call, to_tool, to_tool_choice, role_of, with_role,
  check_content, validate_request, validate_tool_schema,
}
use lunaroute.Egress.OpenAi.{
  OpenAiChatRequest, OpenAiMessage, OpenAiToolCall, OpenAiTool, OpenAiToolChoice, string, object,
}
use lunaroute.Egress.OpenAi.Requests.{
  to_openai_request, to_openai_message, to_openai_tool_call, to_openai_tool, to_openai_tool_choice,
  role_name, is_gpt5,
}

abbrev pub same_tool_call : OpenAi.OpenAiToolCall → OpenAiToolCall
same_tool_call call = record {
  id = call.id;
  tool_type = call.tool_type;
  function = record { name = call.function.name; arguments = call.function.arguments };
}

abbrev pub same_tool : OpenAi.OpenAiTool → OpenAiTool
same_tool t = record {
  tool_type = t.tool_type;
  function = record {
    name = t.function.name;
    description = t.function.description;
    parameters = t.function.parameters;
  };
}

-- The list, or none if it is missing or empty.
abbrev pub listed : {A B : Type 0} → (A → B) → Option (List A) → Option (List B)
listed f items = non_empty (map f (value_or items []))

-- The message as it was, but that a missing content is an empty text, and is left out beside tool
-- calls.
abbrev pub same_message : OpenAi.OpenAiMessage → OpenAiMessage
same_message m = record {
  role = m.role;
  content =
      if is_empty_text (value_or m.content "")
        && not (is_empty (map same_tool_call (value_or m.tool_calls [])))
      then none
      else some (value_or m.content "");
  name = m.name;
  tool_calls = listed same_tool_call m.tool_calls;
  tool_call_id = m.tool_call_id;
}

abbrev known_choice : String → Option OpenAiToolChoice
known_choice s =
    if str_eq s "none"
    then some (string "none")
    else if str_eq s "auto"
    then some (string "auto")
    else if str_eq s "required"
    then some (string "required")
    else none

-- The choice with its name; a text that the API does not know is left out, and the type of an object
-- becomes "function".
abbrev pub same_choice : OpenAi.OpenAiToolChoice → Option OpenAiToolChoice
same_choice (OpenAi.string s) = known_choice s
same_choice (OpenAi.object kind f) = some (object "function" (record { name = f.name }))

-- What is left of a request of a client, field by field. The limit of the tokens has the name that
-- the model wants; n, presence_penalty, frequency_penalty and user have no field here: they are lost.
abbrev pub same_request : OpenAi.OpenAiChatRequest → OpenAiChatRequest
same_request req = record {
  model = req.model;
  messages = map same_message req.messages;
  temperature = req.temperature;
  top_p = req.top_p;
  max_tokens = if is_gpt5 req.model then none else req.max_tokens;
  max_completion_tokens = if is_gpt5 req.model then req.max_tokens else none;
  stream = some (value_or req.stream false);
  stop = non_empty (value_or req.stop []);
  tools = listed same_tool req.tools;
  tool_choice = and_then req.tool_choice same_choice;
}

non_empty-map :
    {A B : Type 0} (f : A → B) (xs : List A)
    → map_some (map f) (non_empty xs) ≡ non_empty (map f xs)
non_empty-map f [] = refl
non_empty-map f (x ∷ xs) = refl

is_empty-map : {A B : Type 0} (f : A → B) (xs : List A) → is_empty (map f xs) ≡ is_empty xs
is_empty-map f [] = refl
is_empty-map f (x ∷ xs) = refl

call-same :
    (call : OpenAi.OpenAiToolCall) (tc : ToolCall)
    → to_tool_call call ≡ ok tc
    → to_openai_tool_call tc ≡ same_tool_call call
unfolding to_tool_call
call-same call tc h = ground arith

tool-same : (t : OpenAi.OpenAiTool) (u : Tool) → to_tool t ≡ ok u → to_openai_tool u ≡ same_tool t
unfolding to_tool
tool-same t u h =
    ground (arith, Result-cases (validate_tool_schema t.function.parameters t.function.name))

choice-same :
    (c : OpenAi.OpenAiToolChoice)
    → map_some to_openai_tool_choice (to_tool_choice c) ≡ same_choice c
unfolding to_openai_tool_choice to_tool_choice
choice-same (OpenAi.string s) = ground arith
choice-same (OpenAi.object kind f) = refl

role-same : (name : String) (role : Role) → role_of name ≡ some role → role_name role ≡ name
unfolding role_of role_name
role-same name role h = ground (
  arith,
  str_eq_iff name "system",
  str_eq_iff name "user",
  str_eq_iff name "assistant",
  str_eq_iff name "tool",
)

with_role-same :
    (o : Option Role) (m : OpenAi.OpenAiMessage) (n : Message)
    → role_of m.role ≡ o
    → with_role o m ≡ ok n
    → to_openai_message n ≡ same_message m
unfolding with_role to_openai_message
with_role-same none m n known h = cc
with_role-same (some role) m n known h =
    let (x, short, h') = >>=-eq-ok (check_content m.content) _ h in
    let (calls, taken, h'') = >>=-eq-ok (traverse to_tool_call (value_or m.tool_calls [])) _ h' in
    subst (λ n'. to_openai_message n' ≡ same_message m) (ok_inj h'')
      (rw (
        non_empty-map to_openai_tool_call calls,
        ← is_empty-map to_openai_tool_call calls,
        traverse-map to_tool_call to_openai_tool_call same_tool_call call-same
            (value_or m.tool_calls []) calls taken,
        role-same m.role role known,
      ))

message-same :
    (m : OpenAi.OpenAiMessage) (n : Message)
    → to_message m ≡ ok n
    → to_openai_message n ≡ same_message m
unfolding to_message
message-same m n h = with_role-same (role_of m.role) m n refl h

option-same :
    (o : Option OpenAi.OpenAiToolChoice)
    → map_some to_openai_tool_choice (and_then o to_tool_choice) ≡ and_then o same_choice
option-same none = refl
option-same (some c) = choice-same c

-- A request of an OpenAI client that the proxy accepts reaches OpenAI as `same_request` says: with the
-- model, the messages with their tool calls, the temperature, top_p, token limit, stop sequences,
-- stream and tools that the client sent, in their order. n, presence_penalty, frequency_penalty and
-- user are lost. An empty content is left out beside tool calls and made explicit elsewhere, empty
-- lists and unknown texts for a tool choice are left out, a tool choice that names a function gets the
-- type "function" whatever type was sent, stream is made explicit, and the token limit has the name
-- that the model wants.
pub to_openai_request-to_normalized :
    (lib : Library) (req : OpenAi.OpenAiChatRequest) (n : NormalizedRequest)
    → to_normalized lib req ≡ ok n
    → to_openai_request n ≡ same_request req
unfolding to_normalized to_openai_request
to_openai_request-to_normalized lib req n h =
    let (x, valid, h₁) = >>=-eq-ok (validate_request lib req) _ h in
    let (messages, read, h₂) = >>=-eq-ok (traverse to_message req.messages) _ h₁ in
    let (tools, allowed, h₃) = >>=-eq-ok (traverse to_tool (value_or req.tools [])) _ h₂ in
    subst (λ n'. to_openai_request n' ≡ same_request req) (ok_inj h₃)
      (rw (
        traverse-map to_message to_openai_message same_message message-same req.messages messages
            read,
        non_empty-map to_openai_tool tools,
        traverse-map to_tool to_openai_tool same_tool tool-same (value_or req.tools []) tools
            allowed,
        option-same req.tool_choice,
      ))
