-- ===== src/Dialects/SystemPrompt.antt =====
-- The system prompt of an Anthropic client.
use lunaroute.Prelude.{
  ◌≡◌, ◌≢◌, refl, subst, false, String, Option, none, some, List, [], ◌∷◌, map, arith, str_eq_iff,
  Result, ok, >>=-eq-ok, ok_inj, traverse, traverse-All, All, value_or,
}
use lunaroute.Normalized.{
  Json, NormalizedRequest, Message, Role, system, user, assistant, tool, ToolResult,
}
use lunaroute.Ingress.OpenAi.Requests.{Library}
use lunaroute.Ingress.Anthropic.{AnthropicMessagesRequest, AnthropicMessage}
use lunaroute.Ingress.Anthropic.Requests.{
  to_normalized, validate_request, to_tool, to_message, with_role, parse_content, role_of,
}
use lunaroute.Egress.OpenAi.Requests.{to_openai_request, to_openai_message}
use lunaroute.Egress.Anthropic.Requests.{to_anthropic_request, find_system, is_system}
use lunaroute.Egress.OpenAi.Requests

-- The role of a user or of the assistant.
abbrev IsSpoken : Role → Type 0
IsSpoken role = (is_system role ≡ false) × (Requests.role_name role ≢ "system")

user_is_not_system : ◌≢◌ {A = String} "user" "system"
user_is_not_system e = cc ((str_eq_iff "user" "system").1 e)

assistant_is_not_system : ◌≢◌ {A = String} "assistant" "system"
assistant_is_not_system e = cc ((str_eq_iff "assistant" "system").1 e)

role_of-IsSpoken : (name : String) (role : Role) → role_of name ≡ some role → IsSpoken role
unfolding role_of is_system Requests.role_name
role_of-IsSpoken name system h = absurd (ground arith)
role_of-IsSpoken name user h = (refl, user_is_not_system)
role_of-IsSpoken name assistant h = (refl, assistant_is_not_system)
role_of-IsSpoken name tool h = absurd (ground arith)

find_none : (ms : List Message) → All (λ m. IsSpoken m.role) ms → find_system ms ≡ none
unfolding find_system
find_none [] a = refl
find_none (m ∷ ms) a = rw (a.0.0, find_system) (find_none ms a.1)

openai_roles :
    (ms : List Message)
    → All (λ m. IsSpoken m.role) ms
    → All (λ m. m.role ≢ "system") (map to_openai_message ms)
unfolding to_openai_message
openai_roles [] a = tt
openai_roles (m ∷ ms) a = (a.0.1, openai_roles ms a.1)

module _ (lib : Library) (to_string : Json → Result String String) where
  with_role-IsSpoken :
      (o : Option Role) (msg : AnthropicMessage) (out : Message × List ToolResult)
      → role_of msg.role ≡ o
      → with_role lib to_string o msg ≡ ok out
      → IsSpoken out.0.role
  unfolding with_role
  with_role-IsSpoken none msg out e h = cc
  with_role-IsSpoken (some role) msg out e h =
      let (g, read, made) = >>=-eq-ok (parse_content lib to_string (value_or msg.content _)) _ h in
      subst (λ out'. IsSpoken out'.0.role) (ok_inj made) (role_of-IsSpoken msg.role role e)

  message-IsSpoken :
      (msg : AnthropicMessage) (out : Message × List ToolResult)
      → to_message lib to_string msg ≡ ok out
      → IsSpoken out.0.role
  unfolding to_message
  message-IsSpoken msg out h = with_role-IsSpoken (role_of msg.role) msg out refl h

  messages-IsSpoken :
      (ms : List (Message × List ToolResult))
      → All (λ m. IsSpoken m.0.role) ms
      → All (λ m. IsSpoken m.role) (map (λ m. m.0) ms)
  messages-IsSpoken [] a = tt
  messages-IsSpoken (m ∷ ms) a = (a.0, messages-IsSpoken ms a.1)

  -- Whatever system prompt an Anthropic client gives in a request that the proxy accepts, none is
  -- sent: the request to Anthropic has no system prompt, and the request to OpenAI has no message
  -- with the role of the system.
  pub system_prompt_is_lost :
      (from_str : String → Option Json) (req : AnthropicMessagesRequest) (n : NormalizedRequest)
      → to_normalized lib to_string req ≡ ok n
      → ((to_anthropic_request from_str n).system ≡ none)
        × All (λ m. m.role ≢ "system") (to_openai_request n).messages
  unfolding to_normalized to_anthropic_request to_openai_request
  system_prompt_is_lost from_str req n h =
      let (x, valid, h₁) = >>=-eq-ok (validate_request lib to_string req) _ h in
      let (tools, allowed, h₂) = >>=-eq-ok (traverse to_tool (value_or req.tools [])) _ h₁ in
      let (messages, read, h₃) =
        >>=-eq-ok (traverse (to_message lib to_string) req.messages) _ h₂ in
      let spoken = messages-IsSpoken messages (
        traverse-All (to_message lib to_string) (λ m. IsSpoken m.0.role) message-IsSpoken
          req.messages messages read) in
      subst
        (λ n'.
          (find_system n'.messages ≡ none)
          × All (λ m. m.role ≢ "system") (map to_openai_message n'.messages))
        (ok_inj h₃)
        (find_none (map (λ m. m.0) messages) spoken, openai_roles (map (λ m. m.0) messages) spoken)
