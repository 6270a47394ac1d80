-- ===== src/Webhook/Authentic.antt =====
-- Which requests reach the dispatcher (src/gateway/webhook.py).
use Prim.Native.String.{◌++◌ as text_append}
use cloglog.Base.{
  ℕ, String, ◌≡◌, refl, sym, subst, ◌⊎◌, inl, inr, true, Option, none, some, List, [], arith,
  truthy, Bool-cases,
}
use text.Mathlib.TextEquality.{eq_iff}
use cloglog.Models.{Json}
use cloglog.Webhook.Dispatcher.{WebhookEvent, WebhookDispatcher, dispatch}
use cloglog.Webhook.Requests.{
  Request, dispatched, verify_signature, receive_webhook, parse_webhook_event, ◌>>=◌,
}

abbrev pub IsAuthentic : (String → String → String) → String → Request → Type 0
IsAuthentic hexdigest secret q =
    (truthy secret ≡ true) × (q.signature ≡ text_append "sha256=" (hexdigest secret q.body))

-- What a request does: nothing, or the dispatch of the event that its body says.
abbrev pub DispatchesIf :
    Type 0
    → (List String → List String)
    → Option (Option WebhookEvent)
    → WebhookDispatcher
    → WebhookDispatcher × List ℕ
    → Type 0
DispatchesIf P listing parsed d after =
    (after ≡ (d, []))
    ⊎ (P × (e : WebhookEvent) × (parsed ≡ some (some e)) × (after ≡ dispatch listing e d))

-- The event that the body of a request says, `none` where reading it raises.
abbrev pub parsed : (String → Option Json) → Request → Option (Option WebhookEvent)
parsed decode q =
    decode q.body >>= λ payload. parse_webhook_event q.event_type q.delivery_id payload

dispatched-DispatchesIf :
    (P : Type 0) (listing : List String → List String) (parsed : Option (Option WebhookEvent))
    (d : WebhookDispatcher)
    → P
    → DispatchesIf P listing parsed d (dispatched listing parsed d).1
dispatched-DispatchesIf P listing none d p = inl refl
dispatched-DispatchesIf P listing (some none) d p = inl refl
dispatched-DispatchesIf P listing (some (some e)) d p = inr (p, e, refl, refl)

verify_signature-IsAuthentic :
    (hexdigest : String → String → String) (decode : String → Option Json) (secret : String)
    (q : Request)
    → truthy secret ≡ true
    → verify_signature hexdigest decode q.body secret q.signature ≡ true
    → IsAuthentic hexdigest secret q
unfolding verify_signature
verify_signature-IsAuthentic hexdigest decode secret q set h = (
  set,
  sym ((eq_iff (text_append "sha256=" (hexdigest secret q.body)) q.signature).0 (ground arith)),
)

receive_webhook-eq :
    (hexdigest : String → String → String) (decode : String → Option Json) (secret : String)
    (listing : List String → List String) (q : Request) (d : WebhookDispatcher)
    → truthy secret ≡ true
    → verify_signature hexdigest decode q.body secret q.signature ≡ true
    → receive_webhook hexdigest decode secret listing q d ≡ dispatched listing (parsed decode q) d
unfolding receive_webhook
receive_webhook-eq hexdigest decode secret listing q d h k = rw (h, k) refl

-- A request changes nothing and creates no task, or it is authentic: a secret is set and its signature
-- is the hash of the body by the secret; then the event that its body says is dispatched.
pub receive_webhook-DispatchesIf :
    (hexdigest : String → String → String) (decode : String → Option Json) (secret : String)
    (listing : List String → List String) (q : Request) (d : WebhookDispatcher)
    → DispatchesIf
        (IsAuthentic hexdigest secret q)
        listing
        (parsed decode q)
        d
        (receive_webhook hexdigest decode secret listing q d).1
unfolding receive_webhook
receive_webhook-DispatchesIf hexdigest decode secret listing q d =
    elim (Bool-cases (truthy secret)) [
      | inr h ↦ rw h (inl refl)
      | inl h ↦ elim (Bool-cases (verify_signature hexdigest decode q.body secret q.signature)) [
        | inr k ↦ rw (h, k) (inl refl)
        | inl k ↦
            subst
              (λ x. DispatchesIf (IsAuthentic hexdigest secret q) listing (parsed decode q) d x.1)
              (sym (receive_webhook-eq hexdigest decode secret listing q d h k))
              (dispatched-DispatchesIf (IsAuthentic hexdigest secret q) listing (parsed decode q) d
                (verify_signature-IsAuthentic hexdigest decode secret q h k))
      ]
    ]
