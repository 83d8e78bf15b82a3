-- ===== src/Notification/Idempotence.antt =====
-- A request carries at most one notification.
use lunaroute.Prelude.{
  ◌≡◌, refl, sym, ◌∙◌, ◌≢◌, ◌⊎◌, inl, inr, Bool, true, false, ◌&&◌, String, Option, none, some, ◌∷◌,
  arith, ◌==◌, Bool-cases,
}
use lunaroute.Prelude.Texts.{begins_with, replace}
use lunaroute.Normalized.{NormalizedRequest, Message, user}
use lunaroute.Notification.{
  SwitchReason, to_generic_message, ProviderSwitchNotificationConfig, build_notification_message,
  has_notification_already, notification_message, inject_notification_if_needed, unwrap_or,
}
use Prim.Native.Char.{Char, code}
use lunaroute.Prelude.Texts.{replace_from}

-- The text has no such character.
abbrev Lacks : Char → String → Type 0
Lacks d String.[] = Unit
Lacks d (String.◌∷◌ c s) = ((code d == code c) ≡ false) × Lacks d s

begins_with-cons :
    (c d : Char) (p s : String)
    → begins_with (String.◌∷◌ c p) (String.◌∷◌ d s) ≡ ((code c == code d) && begins_with p s)
unfolding begins_with
begins_with-cons c d p s = ground arith

other_first :
    (e c d : Char) (f s : String)
    → (code e == code c) ≡ false
    → (code c == code d) ≡ true
    → begins_with (String.◌∷◌ e f) (String.◌∷◌ d s) ≡ false
unfolding begins_with
other_first e c d f s h k = ground arith

replace_from-other :
    (from to s : String) (d : Char)
    → begins_with from (String.◌∷◌ d s) ≡ false
    → replace_from from to 0 (String.◌∷◌ d s) ≡ String.◌∷◌ d (replace_from from to 0 s)
unfolding replace_from
replace_from-other from to s d h = ground arith

and_parts : (a b : Bool) → (a && b) ≡ true → (a ≡ true) × (b ≡ true)
and_parts a b h = ground arith

-- Replacing a pattern that starts with a character which the prefix lacks keeps the prefix.
replace_from-begins_with :
    (e : Char) (p f to s : String)
    → Lacks e p
    → begins_with p s ≡ true
    → begins_with p (replace_from (String.◌∷◌ e f) to 0 s) ≡ true
replace_from-begins_with e String.[] f to s l h = unfold begins_with in refl
replace_from-begins_with e (String.◌∷◌ c p) f to String.[] l h = absurd (nothing h)
  where
    nothing : begins_with (String.◌∷◌ c p) String.[] ≢ true
    nothing k = unfold begins_with in cc
replace_from-begins_with e (String.◌∷◌ c p) f to (String.◌∷◌ d s) l h =
    let both =
      and_parts (code c == code d) (begins_with p s) (sym (begins_with-cons c d p s) ∙ h) in
    rw
      (
        replace_from-other (String.◌∷◌ e f) to s d (other_first e c d f s l.0 both.0),
        begins_with-cons c d p (replace_from (String.◌∷◌ e f) to 0 s),
        both.0,
      )
      (replace_from-begins_with e p f to s l.1 both.1)

-- The mark by which a notification is known again.
abbrev pub important : String
important = "IMPORTANT:"

lacks : Lacks "$" important
lacks = (refl, (refl, (refl, (refl, (refl, (refl, (refl, (refl, (refl, (refl, tt))))))))))

replace-marked :
    (f to s : String)
    → begins_with important s ≡ true
    → begins_with important (replace s (String.◌∷◌ "$" f) to) ≡ true
unfolding replace
replace-marked f to s h = replace_from-begins_with "$" important f to s lacks h

build-marked :
    (original new_provider model : String) (reason : SwitchReason) (o : Option String)
    (config : ProviderSwitchNotificationConfig)
    → begins_with important (unwrap_or o config.default_message) ≡ true
    → begins_with important (build_notification_message original new_provider reason model o config)
      ≡ true
unfolding build_notification_message
build-marked original new_provider model reason o config h = replace-marked _ model _ (
    replace-marked _ (to_generic_message reason) _ (
      replace-marked _ new_provider _
        (replace-marked _ original (unwrap_or o config.default_message) h)))

-- When the template in use begins with the mark, which the default message does, injecting into a
-- request a second time, for whatever switch, changes nothing and reports that nothing was put in.
pub inject_once :
    (config : ProviderSwitchNotificationConfig) (o o' : Option String) (q : NormalizedRequest)
    (original original' new_provider new_provider' : String) (reason reason' : SwitchReason)
    → begins_with important (unwrap_or o config.default_message) ≡ true
    → config.enabled ≡ true
    → let q' = (inject_notification_if_needed (some config) o q original new_provider reason).0 in
      inject_notification_if_needed (some config) o' q' original' new_provider' reason'
      ≡ (q', false)
unfolding inject_notification_if_needed
inject_once config o o' q original original' new_provider new_provider' reason reason' h on =
    ground (arith, build-marked original new_provider q.model reason o config h)

-- An injection leaves the messages of the request in place: it adds one before them, or none.
pub inject_keeps_messages :
    (config : Option ProviderSwitchNotificationConfig) (o : Option String) (q : NormalizedRequest)
    (original new_provider : String) (reason : SwitchReason)
    → let (q', injected) = inject_notification_if_needed config o q original new_provider reason in
      ((injected ≡ false) × (q' ≡ q))
      ⊎ ((injected ≡ true)
          × ((m : Message) × (m.role ≡ user) × (q' ≡ record q { messages = m ∷ q.messages })))
unfolding inject_notification_if_needed
inject_keeps_messages none o q original new_provider reason = inl (refl, refl)
inject_keeps_messages (some config) o q original new_provider reason =
    elim (Bool-cases config.enabled) [
      | inr off ↦ inl (ground arith, ground arith)
      | inl on ↦ elim (Bool-cases (has_notification_already q)) [
        | inl already ↦ inl (ground arith, ground arith)
        | inr fresh ↦ inr (
          ground arith,
          (
            notification_message
                (build_notification_message original new_provider reason q.model o config),
            (unfold notification_message in refl),
            ground arith,
          ),
        )
      ]
    ]
