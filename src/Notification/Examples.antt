-- ===== src/Notification/Examples.antt =====
-- Tests of the notifications, and their theorems at concrete inputs.
use lunaroute.Prelude.{◌≡◌, refl, false, none, []}
use lunaroute.Prelude.Texts.{replace}
use lunaroute.Normalized.{NormalizedRequest}
use lunaroute.Notification.{substitute_template_variables}

abbrev request : NormalizedRequest
request = record {
  messages = [];
  system = none;
  model = "gpt-4";
  max_tokens = none;
  temperature = none;
  top_p = none;
  top_k = none;
  stop_sequences = [];
  stream = false;
  tools = [];
  tool_choice = none;
  tool_results = [];
  metadata = [];
}

substitutes :
    substitute_template_variables "${reason} at ${original_provider}, not ${new_provider}: ${model}"
      "a" "b" "r" "m"
    ≡ "r at a, not b: m"
unfolding substitute_template_variables replace
substitutes = refl
