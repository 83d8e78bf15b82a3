-- ===== src/Dialects/PlainText.antt =====
-- Tool calls and tool results of a client, on their way to Anthropic.
use lunaroute.Prelude.{
  ◌≡◌, refl, sym, ap₂, subst, false, String, Option, none, some, List, [], ◌∷◌, arith, ok,
  >>=-eq-ok, ok_inj, traverse, value_or, Bool-cases, inl, inr, str_eq, if◌then◌else◌,
}
use lunaroute.Normalized.{Json, NormalizedRequest, Message, text_content, Role}
use lunaroute.Ingress.OpenAi.{OpenAiChatRequest, OpenAiMessage}
use lunaroute.Ingress.OpenAi.Requests.{
  Library, to_normalized, validate_request, to_message, to_tool, with_role, role_of, check_content,
  to_tool_call,
}
use lunaroute.Egress.Anthropic.{AnthropicMessage}
use lunaroute.Egress.Anthropic
use lunaroute.Egress.Anthropic.Requests.{
  to_anthropic_request, to_anthropic_messages, to_anthropic_message, is_system, role_name,
  content_of,
}

-- The name of a role at Anthropic: a tool speaks as the user.
abbrev pub sent_role : String → String
sent_role role =
    if str_eq role "user" then "user" else (if str_eq role "assistant" then "assistant" else "user")

-- All that is left of a message: its role and its text.
abbrev pub plain_message : OpenAiMessage → AnthropicMessage
plain_message msg = record {
  role = sent_role msg.role;
  content = Anthropic.text_content (value_or msg.content "");
}

-- The messages of a client but for those of the system, each as its role and its text.
unfoldable pub plain_messages : List OpenAiMessage → List AnthropicMessage
plain_messages [] = []
plain_messages (msg ∷ msgs) =
    let rest = plain_messages msgs in
    if str_eq msg.role "system" then rest else plain_message msg ∷ rest

role_of-is_system :
    (name : String) (role : Role) → role_of name ≡ some role → is_system role ≡ str_eq name "system"
unfolding role_of is_system
role_of-is_system name role h = ground arith

role_of-role_name :
    (name : String) (role : Role)
    → role_of name ≡ some role
    → str_eq name "system" ≡ false
    → role_name role ≡ sent_role name
unfolding role_of role_name
role_of-role_name name role h spoken = ground arith

-- A message that the ingress takes.
abbrev Taken : OpenAiMessage → Message → Type 0
Taken msg m =
    (role_of msg.role ≡ some m.role) × (m.content ≡ text_content (value_or msg.content ""))

with_role-Taken :
    (o : Option Role) (msg : OpenAiMessage) (m : Message)
    → with_role o msg ≡ ok m
    → (o ≡ some m.role) × (m.content ≡ text_content (value_or msg.content ""))
unfolding with_role
with_role-Taken none msg m h = cc
with_role-Taken (some role) msg m h =
    let (x, short, h') = >>=-eq-ok (check_content msg.content) _ h in
    let (calls, taken, h'') = >>=-eq-ok (traverse to_tool_call (value_or msg.tool_calls [])) _ h' in
    subst (λ n. (some role ≡ some n.role) × (n.content ≡ text_content (value_or msg.content "")))
      (ok_inj h'') (refl, refl)

to_message-Taken : (msg : OpenAiMessage) (m : Message) → to_message msg ≡ ok m → Taken msg m
unfolding to_message
to_message-Taken msg m h = with_role-Taken (role_of msg.role) msg m h

module _ (from_str : String → Option Json) where
  to_anthropic_message-plain_message :
      (msg : OpenAiMessage) (m : Message)
      → Taken msg m
      → str_eq msg.role "system" ≡ false
      → to_anthropic_message from_str m ≡ plain_message msg
  unfolding to_anthropic_message
  to_anthropic_message-plain_message msg m (role, text) spoken =
      rw (text, content_of, role_of-role_name msg.role m.role role spoken) refl

  to_anthropic_messages-plain_messages :
      (msgs : List OpenAiMessage) (ms : List Message)
      → traverse to_message msgs ≡ ok ms
      → to_anthropic_messages from_str ms ≡ plain_messages msgs
  unfolding to_anthropic_messages plain_messages
  to_anthropic_messages-plain_messages [] ms h =
      subst (λ ms'. to_anthropic_messages from_str ms' ≡ []) (ok_inj h) refl
  to_anthropic_messages-plain_messages (msg ∷ msgs) ms h =
      let (m, here, h') = >>=-eq-ok (to_message msg) _ h in
      let (ms', there, h'') = >>=-eq-ok (traverse to_message msgs) _ h' in
      let taken = to_message-Taken msg m here in
      let rest = to_anthropic_messages-plain_messages msgs ms' there in
      let said = role_of-is_system msg.role m.role taken.0 in
      rw (sym (ok_inj h'')) (elim (Bool-cases (str_eq msg.role "system")) [
        | inl of_system ↦ rw (to_anthropic_messages, said, of_system) rest
        | inr spoken ↦
            rw (to_anthropic_messages, said, spoken)
              (ap₂ (λ x xs. x ∷ xs) (to_anthropic_message-plain_message msg m taken spoken) rest)
      ])

  -- The messages that Anthropic gets of a request of an OpenAI client that the proxy accepts are those
  -- of the client but for the ones of the role system, each as its role and its text alone: no message
  -- carries a tool call or the id of a tool call, a tool call without a text is an empty text, and the
  -- result of a tool is a plain text of the user.
  pub tool_calls_are_lost :
      (lib : Library) (req : OpenAiChatRequest) (n : NormalizedRequest)
      → to_normalized lib req ≡ ok n
      → (to_anthropic_request from_str n).messages ≡ plain_messages req.messages
  unfolding to_normalized to_anthropic_request
  tool_calls_are_lost lib req n h =
      let (x, valid, h₁) = >>=-eq-ok (validate_request lib req) _ h in
      let (messages, read, h₂) = >>=-eq-ok (traverse to_message req.messages) _ h₁ in
      let (tools, allowed, h₃) = >>=-eq-ok (traverse to_tool (value_or req.tools [])) _ h₂ in
      subst (λ n'. to_anthropic_messages from_str n'.messages ≡ plain_messages req.messages)
        (ok_inj h₃) (to_anthropic_messages-plain_messages req.messages messages read)
