-- ===== src/Dialects/Examples.antt =====
-- The theorems on the dialects at concrete inputs.
use lunaroute.Prelude.{
  ◌≡◌, refl, true, String, Option, none, some, List, [], ◌∷◌, ◌++◌, map, Result, ok, err, All, ◌≢◌,
  ◌≤◌,
}
use lunaroute.Prelude.Texts.{byte_length}
use lunaroute.Prelude.Int.{pos}
use lunaroute.Normalized.{
  Json, object, field, end, text, NormalizedRequest, Error, provider_error, start, end_event, delta,
  tool_call_delta, usage_event, tool_calls,
}
use lunaroute.Ingress.OpenAi.{OpenAiChatRequest}
use lunaroute.Ingress.OpenAi.Requests.{Library}
use lunaroute.Ingress.OpenAi.Requests as OpenAi
use lunaroute.Ingress.Anthropic.{AnthropicStreamEvent, AnthropicMessagesRequest}
use lunaroute.Ingress.Anthropic
use lunaroute.Ingress.Anthropic.Requests as Anthropic_requests
use lunaroute.Ingress.Anthropic.Messages.{Item, event, messages_stream}
use lunaroute.Egress.OpenAi.Requests.{to_openai_request}
use lunaroute.Egress.Anthropic.{AnthropicStreamMessage}
use lunaroute.Egress.Anthropic.Events.{SseItem, message, broken, create_anthropic_stream}
use lunaroute.Egress.Anthropic.Requests.{to_anthropic_request}
use lunaroute.Dialects.Protocol.{accept, waiting, finished}
use lunaroute.Dialects.ClientStream.{messages_stream-accept}
use lunaroute.Dialects.ErrorPanic.{error_in_tool_call_panics}
use lunaroute.Dialects.OpenAiRequests.{to_openai_request-to_normalized, same_request}
use lunaroute.Dialects.SystemPrompt.{system_prompt_is_lost}
use lunaroute.Dialects.PlainText.{tool_calls_are_lost, plain_messages}
use lunaroute.Egress.OpenAi as OpenAi_wire
use lunaroute.Egress.Anthropic as Anthropic_wire
use lunaroute.Egress.OpenAi.Responses.{from_openai_response}
use lunaroute.Ingress.OpenAi.Responses.{from_normalized}
use lunaroute.Dialects.OpenAiResponses.{from_normalized-from_openai_response, same_response}
use lunaroute.Dialects.Conformance.{of_delta, of_tool}
use lunaroute.Dialects.StreamEnd.{create_anthropic_stream-ends, ends}

abbrev hash : String → String
hash s = s

abbrev show : Error → String
show e = "error"

abbrev lib : Library
lib = record { in_range = λ lo hi x. true; show_f32 = λ x. ""; to_lowercase = λ s. s }

abbrev schema : Json
schema = object (field "type" (text "object") end)

abbrev greeting : OpenAiChatRequest
greeting = record {
  model = "gpt-4o";
  messages =
      record {
        role = "user";
        content = some "weather?";
        name = none;
        tool_calls = none;
        tool_call_id = none;
      }
      ∷ record {
        role = "assistant";
        content = none;
        name = none;
        tool_calls = some (
            record {
              id = "call_1";
              tool_type = "function";
              function = record { name = "weather"; arguments = "{}" };
            }
            ∷ []);
        tool_call_id = none;
      }
      ∷ record {
        role = "tool";
        content = some "rain";
        name = none;
        tool_calls = none;
        tool_call_id = some "call_1";
      }
      ∷ [];
  temperature = none;
  top_p = none;
  max_tokens = some 100;
  stream = none;
  stop = none;
  n = some 2;
  presence_penalty = none;
  frequency_penalty = none;
  user = some "ann";
  tools = some (
      record {
        tool_type = "function";
        function = record { name = "weather"; description = none; parameters = schema };
      }
      ∷ []);
  tool_choice = none;
}

greeting_read : (n : NormalizedRequest) × (OpenAi.to_normalized lib greeting ≡ ok n)
unfolding OpenAi.to_normalized byte_length
greeting_read = (_, refl)

to_openai_request-to_normalized_example : to_openai_request greeting_read.0 ≡ same_request greeting
to_openai_request-to_normalized_example =
    to_openai_request-to_normalized lib greeting greeting_read.0 greeting_read.1

abbrev no_json : String → Option Json
no_json s = none

tool_calls_are_lost_example :
    (to_anthropic_request no_json greeting_read.0).messages ≡ plain_messages greeting.messages
tool_calls_are_lost_example =
    tool_calls_are_lost no_json lib greeting greeting_read.0 greeting_read.1

abbrev to_string : Json → Result String String
to_string v = ok "{}"

abbrev prompted : AnthropicMessagesRequest
prompted = record {
  model = "claude";
  messages =
      record { role = "user"; content = some (Anthropic.text_content "Hi") }
      ∷ record {
        role = "assistant";
        content = some (
            Anthropic.blocks
              (Anthropic.text "Hm" ∷ Anthropic.tool_use "toolu_1" "look" schema ∷ []));
      }
      ∷ record {
        role = "user";
        content = some (Anthropic.blocks (Anthropic.tool_result "toolu_1" "seen" none ∷ []));
      }
      ∷ [];
  system = some (Anthropic.text_system "Be brief.");
  max_tokens = some 100;
  temperature = none;
  top_p = none;
  top_k = none;
  stream = none;
  stop_sequences = none;
  tools = none;
}

prompted_read :
    (n : NormalizedRequest) × (Anthropic_requests.to_normalized lib to_string prompted ≡ ok n)
unfolding Anthropic_requests.to_normalized byte_length
prompted_read = (_, refl)

system_prompt_is_lost_example :
    ((to_anthropic_request no_json prompted_read.0).system ≡ none)
    × All (λ m. m.role ≢ "system") (to_openai_request prompted_read.0).messages
system_prompt_is_lost_example =
    system_prompt_is_lost lib to_string no_json prompted prompted_read.0 prompted_read.1

abbrev words : String → Item
words s = ("u", ok (delta 0 (record { role = none; content = some s })))

abbrev part : Option String → Option String → Option String → Item
part id name arguments =
    ("u", ok (tool_call_delta 0 0 id (some (record { name = name; arguments = arguments }))))

abbrev body : List Item
body =
    words "Let me "
    ∷ words "look."
    ∷ part (some "call_1") (some "look") none
    ∷ part none none (some "{}")
    ∷ words "Done."
    ∷ []

abbrev report : Item
report =
    ("u", ok (usage_event (record { prompt_tokens = 1; completion_tokens = 2; total_tokens = 3 })))

messages_stream-accept_example :
    (es : List AnthropicStreamEvent) × (messages_stream hash show "msg_1" "claude" (
        ("u", ok (start "chatcmpl-1" "gpt-4o")) ∷ body
        ++ ("u", ok (end_event tool_calls)) ∷ report ∷ [])
      ≡ some (map event es))
    × (accept waiting es ≡ some finished)
messages_stream-accept_example =
    messages_stream-accept hash show "msg_1" "claude" "u" "u" "chatcmpl-1" "gpt-4o" tool_calls body
      (report ∷ [])
      (of_delta _ _, (of_delta _ _, (of_tool _ _ _ _, (of_tool _ _ _ _, (of_delta _ _, tt)))))
      ((_, refl), tt)

error_in_tool_call_panics_example :
    messages_stream hash show "msg_1" "claude" (
      ("u", ok (start "chatcmpl-1" "gpt-4o"))
      ∷ part (some "call_1") (some "look") none
      ∷ ("u", err (provider_error "timeout"))
      ∷ part none none (some "{}")
      ∷ words "Done."
      ∷ [])
    ≡ none
error_in_tool_call_panics_example =
    error_in_tool_call_panics hash show "msg_1" "claude" "u" "u" "u" "u" "chatcmpl-1" "gpt-4o"
      "call_1" "look" 0 0 0 none none none "{}" (provider_error "timeout") (words "Done." ∷ [])

abbrev opening : AnthropicStreamMessage
opening = record {
  id = "msg_1";
  message_type = "message";
  role = "assistant";
  model = "claude";
  usage = record { input_tokens = 1; output_tokens = 0 };
}

-- Two ends of the provider, after an error.
abbrev restless : List SseItem
restless =
    message (ok (Anthropic_wire.message_start opening))
    ∷ broken "reset"
    ∷ message (
        ok (
          Anthropic_wire.message_delta
            (record { stop_reason = some "end_turn"; stop_sequence = none })
            (record { output_tokens = 3 })))
    ∷ message (
        ok (
          Anthropic_wire.message_delta
            (record { stop_reason = some "end_turn"; stop_sequence = none })
            (record { output_tokens = 4 })))
    ∷ []

create_anthropic_stream-ends_example : ends (create_anthropic_stream restless) ≤ 1
create_anthropic_stream-ends_example = create_anthropic_stream-ends restless

-- A response of OpenAI without a text, with a reason of its own.
abbrev answer : OpenAi_wire.OpenAiChatResponse
answer = record {
  id = "chatcmpl-1";
  created = pos 5;
  model = "gpt-4o";
  choices =
      record {
        index = 0;
        message = record {
          role = "assistant";
          content = none;
          tool_calls = some (
              record {
                id = "call_1";
                tool_type = "function";
                function = record { name = "look"; arguments = "{}" };
              }
              ∷ []);
          name = none;
          tool_call_id = none;
        };
        finish_reason = some "tool_calls";
      }
      ∷ [];
  usage = record { prompt_tokens = 1; completion_tokens = 2; total_tokens = 3 };
}

from_normalized-from_openai_response_example :
    from_normalized (from_openai_response answer) ≡ same_response answer
from_normalized-from_openai_response_example = from_normalized-from_openai_response answer
