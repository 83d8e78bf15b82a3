-- ===== src/Ingress/Anthropic/ToolIds.antt =====
-- crates/lunaroute-ingress/src/anthropic.rs: `to_anthropic_tool_id`. The hash of an id, in eight
-- hexadecimal digits, and a new uuid come from the standard library and the uuid crate, and are
-- arguments.
use Prim.Native.Char.{code}
use Prim.Native.String.{◌++◌ as str_append}
use lunaroute.Prelude.{ℕ, Bool, ◌&&◌, ◌||◌, String, leb, ◌==◌, if◌then◌else◌, str_eq}
use lunaroute.Prelude.Texts.{begins_with, is_empty_text, all_chars}

-- `c.is_ascii_alphanumeric() || c == '_' || c == '-'`.
unfoldable pub is_id_char : ℕ → Bool
is_id_char c =
    leb b'a' c && leb c b'z'
    || (leb b'A' c && leb c b'Z' || (leb b'0' c && leb c b'9' || (c == b'_' || c == b'-')))

-- Each character that an id may not have becomes `_`.
unfoldable pub sanitize : String → String
unfolding is_id_char
sanitize String.[] = String.[]
sanitize (String.◌∷◌ c s) =
    let rest = sanitize s in if is_id_char (code c) then String.◌∷◌ c rest else String.◌∷◌ "_" rest

unfoldable pub with_hash : (String → String) → String → String → String
with_hash hash id sanitized =
    if str_eq sanitized id then sanitized else str_append sanitized (str_append "_" (hash id))

unfoldable pub with_prefix : String → String
with_prefix base = if begins_with "toolu_" base then base else str_append "toolu_" base

unfoldable pub to_anthropic_tool_id : (String → String) → String → String → String
unfolding sanitize with_hash with_prefix
to_anthropic_tool_id hash uuid id =
    let sanitized = sanitize id in
    if is_empty_text sanitized || all_chars (λ c. c == b'_') sanitized
    then str_append "toolu_" uuid
    else with_prefix (with_hash hash id sanitized)
