-- ===== src/Dialects/OpenAiResponses.antt =====
-- A response of OpenAI on its way to an OpenAI client, through the normalized form.
use lunaroute.Prelude.{
  ◌≡◌, refl, ap, ap₂, not, ◌&&◌, ◌||◌, String, Option, none, some, List, [], ◌∷◌, map, arith,
  if◌then◌else◌, str_eq, str_eq_iff, map_some, and_then, value_or, non_empty, is_empty,
}
use lunaroute.Prelude.Texts.{is_empty_text}
use lunaroute.Ingress.OpenAi.{OpenAiChatResponse, OpenAiChoice, OpenAiToolCall}
use lunaroute.Ingress.OpenAi.Responses.{
  from_normalized, from_choice, from_tool_call, finish_reason_name,
}
use lunaroute.Egress.OpenAi
use lunaroute.Egress.OpenAi.Responses.{
  from_openai_response, from_openai_choice, from_openai_tool_call, finish_reason_of,
}

abbrev pub same_tool_call : OpenAi.OpenAiToolCall → OpenAiToolCall
same_tool_call call = record {
  id = call.id;
  tool_type = call.tool_type;
  function = record { name = call.function.name; arguments = call.function.arguments };
}

-- The four reasons of the API; any other is left out.
abbrev pub known_reason : String → Option String
known_reason reason =
    if str_eq reason "stop"
      || (str_eq reason "length" || (str_eq reason "tool_calls" || str_eq reason "content_filter"))
    then some reason
    else none

-- The choice as it was, with the assistant's role.
abbrev pub same_choice : OpenAi.OpenAiChoice → OpenAiChoice
same_choice c = record {
  index = c.index;
  message = record {
    role = "assistant";
    content =
        if is_empty_text (value_or c.message.content "")
          && not (is_empty (value_or c.message.tool_calls []))
        then none
        else some (value_or c.message.content "");
    name = c.message.name;
    tool_calls = non_empty (map same_tool_call (value_or c.message.tool_calls []));
    tool_call_id = c.message.tool_call_id;
  };
  finish_reason = and_then c.finish_reason known_reason;
}

abbrev pub same_response : OpenAi.OpenAiChatResponse → OpenAiChatResponse
same_response resp = record {
  id = resp.id;
  object_type = "chat.completion";
  created = resp.created;
  model = resp.model;
  choices = map same_choice resp.choices;
  usage = record {
    prompt_tokens = resp.usage.prompt_tokens;
    completion_tokens = resp.usage.completion_tokens;
    total_tokens = resp.usage.total_tokens;
    prompt_tokens_details = none;
    completion_tokens_details = none;
  };
}

calls-same :
    (calls : List OpenAi.OpenAiToolCall)
    → map_some (map from_tool_call) (non_empty (map from_openai_tool_call calls))
      ≡ non_empty (map same_tool_call calls)
calls-same [] = refl
calls-same (c ∷ calls) = ap (λ cs. some (same_tool_call c ∷ cs)) (tail-same calls)
  where
    tail-same :
        (cs : List OpenAi.OpenAiToolCall)
        → map from_tool_call (map from_openai_tool_call cs) ≡ map same_tool_call cs
    tail-same [] = refl
    tail-same (d ∷ cs) = ap (λ ds. same_tool_call d ∷ ds) (tail-same cs)

is_empty-map : {A B : Type 0} (f : A → B) (xs : List A) → is_empty (map f xs) ≡ is_empty xs
is_empty-map f [] = refl
is_empty-map f (x ∷ xs) = refl

reason-same :
    (reason : String) → map_some finish_reason_name (finish_reason_of reason) ≡ known_reason reason
unfolding finish_reason_name finish_reason_of
reason-same reason = ground (
  arith,
  str_eq_iff reason "stop",
  str_eq_iff reason "length",
  str_eq_iff reason "tool_calls",
  str_eq_iff reason "content_filter",
)

finish-same :
    (o : Option String)
    → map_some finish_reason_name (and_then o finish_reason_of) ≡ and_then o known_reason
finish-same none = refl
finish-same (some reason) = reason-same reason

choice-same : (c : OpenAi.OpenAiChoice) → from_choice (from_openai_choice c) ≡ same_choice c
unfolding from_choice from_openai_choice
choice-same c = rw (
  calls-same (value_or c.message.tool_calls []),
  is_empty-map from_openai_tool_call (value_or c.message.tool_calls []),
  finish-same c.finish_reason,
)

choices-same :
    (cs : List OpenAi.OpenAiChoice)
    → map from_choice (map from_openai_choice cs) ≡ map same_choice cs
choices-same [] = refl
choices-same (c ∷ cs) = ap₂ (λ d ds. d ∷ ds) (choice-same c) (choices-same cs)

-- Every response of OpenAI reaches an OpenAI client with its id, model, time, usage and choices, in
-- their order, each with its index, name, text, tool calls, tool call id and finish reason. What
-- changes is said by `same_response`: the role becomes the assistant's, a missing text is an empty
-- one, which is left out beside tool calls, and an unknown finish reason is left out.
pub from_normalized-from_openai_response :
    (resp : OpenAi.OpenAiChatResponse)
    → from_normalized (from_openai_response resp) ≡ same_response resp
unfolding from_normalized from_openai_response
from_normalized-from_openai_response resp = rw (choices-same resp.choices)
