-- ===== src/Router/Contacts.antt =====
-- Which providers a request reaches, with what, and where its answer comes from.
use lunaroute.Prelude.{
  ◌≡◌, sym, ap, ◌∙◌, ◌≢◌, ◌⊎◌, inl, inr, true, String, Option, none, some, List, [], ◌∷◌, ◌++◌,
  arith, All, Result, ok, err,
}
use lunaroute.Prelude.Maps.{lookup}
use lunaroute.Normalized.{NormalizedRequest, NormalizedResponse, Error}
use lunaroute.Notification.{SwitchReason}
use lunaroute.Router.{Sent, Provider, Router, inject}
use lunaroute.Router.Sending.{contains, LoopEnd, answered, gave_up, out_of_fuel}
use mathlib.Core.List.{append_assoc, append-nil}
use lunaroute.Normalized.{Message, user}
use lunaroute.Notification.Idempotence.{inject_keeps_messages}
use lunaroute.Router.{message_of}
use lunaroute.Router.Attempt.{Tried, skipped, contacted}

-- The request as the client sent it, or with one notification in front of its messages.
abbrev pub IsFrom : NormalizedRequest → NormalizedRequest → Type 0
IsFrom q q' =
    (q' ≡ q) ⊎ ((m : Message) × (m.role ≡ user) × (q' ≡ record q { messages = m ∷ q.messages }))

-- A request for the client's request, sent to one of the candidates.
abbrev pub IsAllowed : List String → NormalizedRequest → Sent → Type 0
IsAllowed candidates q s = (contains candidates s.provider ≡ true) × IsFrom q s.request

-- The response is the reply to the last request in the log.
abbrev pub IsLastReply : {F : Type 0} → Router F → Router F → NormalizedResponse → Type 0
IsLastReply r r' response =
    (before : List Sent) × (s : Sent) × (v : Provider) × (r'.log ≡ before ++ s ∷ [])
    × (lookup s.provider r.providers ≡ some v)
    × (v.send before s.request ≡ ok response)

-- What has been done for a request: only allowed requests have been added to the log, and an answer
-- is the last reply.
pub record Served {F : Type 0} (candidates : List String) (q : NormalizedRequest) (r r' : Router F)
    (answer : Option NormalizedResponse) : Type 0 where
  pub sent : List Sent
  pub log_grows : r'.log ≡ r.log ++ sent
  pub allowed : All (IsAllowed candidates q) sent
  pub same_providers : r'.providers ≡ r.providers
  pub last_reply :
      (response : NormalizedResponse) → answer ≡ some response → IsLastReply r r' response

unfoldable pub answer_of : Result Error NormalizedResponse → Option NormalizedResponse
answer_of (ok response) = some response
answer_of (err e) = none

unfoldable pub end_answer : LoopEnd → Option NormalizedResponse
end_answer (answered response) = some response
end_answer gave_up = none
end_answer out_of_fuel = none

All-append : {A : Type 0} (P : A → Type 0) (xs ys : List A) → All P xs → All P ys → All P (xs ++ ys)
All-append P [] ys hx hy = hy
All-append P (x ∷ xs) ys hx hy = (hx.0, All-append P xs ys hx.1 hy)

none_ne_some : (response : NormalizedResponse) → none ≢ some response
none_ne_some response e = cc

module _ {F : Type 0} (candidates : List String) (q : NormalizedRequest) where
  -- Nothing was sent.
  pub quiet :
      (r r' : Router F)
      → r'.log ≡ r.log
      → r'.providers ≡ r.providers
      → Served candidates q r r' none
  quiet r r' l p = record {
    sent = [];
    log_grows = l ∙ sym (append-nil r.log);
    allowed = tt;
    same_providers = p;
    last_reply = λ response e. absurd (none_ne_some response e);
  }

  pub then-Served :
      (r r' r'' : Router F) (o o' : Option NormalizedResponse)
      → Served candidates q r r' o
      → Served candidates q r' r'' o'
      → Served candidates q r r'' o'
  then-Served r r' r'' o o' a b = record {
    sent = a.sent ++ b.sent;
    log_grows =
        b.log_grows ∙ (ap (λ l. l ++ b.sent) a.log_grows ∙ append_assoc r.log a.sent b.sent);
    allowed = All-append (IsAllowed candidates q) a.sent b.sent a.allowed b.allowed;
    same_providers = b.same_providers ∙ a.same_providers;
    last_reply = λ response e.
        let (before, s, v, l, here, reply) = b.last_reply response e in
        (before, s, v, l, ap (lookup s.provider) (sym a.same_providers) ∙ here, reply);
  }

  pub Tried-Served :
      (r r' : Router F) (p : String) (q' : NormalizedRequest)
      (result : Result Error NormalizedResponse)
      → contains candidates p ≡ true
      → IsFrom q q'
      → Tried r r' p q' result
      → Served candidates q r r' (answer_of result)
  unfolding answer_of
  Tried-Served r r' p q' result c f (skipped e failed other l v) = rw failed (quiet r r' l v)
  Tried-Served r r' p q' result c f (contacted v here reply l same) = record {
    sent = record { provider = p; request = q' } ∷ [];
    log_grows = l;
    allowed = ((c, f), tt);
    same_providers = same;
    last_reply = λ response e. (
      r.log,
      record { provider = p; request = q' },
      v,
      l,
      here,
      sym reply ∙ answer-ok result response e,
    );
  }
    where
      answer-ok :
          (x : Result Error NormalizedResponse) (y : NormalizedResponse)
          → answer_of x ≡ some y
          → x ≡ ok y
      answer-ok x y e = ground arith

  pub inject-IsFrom :
      (r : Router F) (original p : String) (reason : SwitchReason)
      → IsFrom q (inject r q original p reason)
  unfolding inject
  inject-IsFrom r original p reason =
      elim (inject_keeps_messages r.notification_config (message_of (lookup p r.providers)) q
        original p reason) [ inl (n, e) ↦ inl e | inr (y, (m, u, e)) ↦ inr (m, u, e) ]
