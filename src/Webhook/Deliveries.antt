-- ===== src/Webhook/Deliveries.antt =====
-- What happens to a delivery that comes again (src/gateway/webhook_dispatcher.py).
use text.Mathlib.TextPositions.{eq_refl}
use cloglog.Base.{suc, ◌+◌, String, ◌≡◌, refl, true, List, [], ◌∷◌, arith, leb, length}
use cloglog.Webhook.Dispatcher.{
  WebhookEvent, WebhookDispatcher, has_id, remember, dispatch, max_seen,
}

module _ (listing : List String → List String) where
  -- Deliveries one after another.
  abbrev pub dispatch_all : List WebhookEvent → WebhookDispatcher → WebhookDispatcher
  dispatch_all [] d = d
  dispatch_all (e ∷ es) d = dispatch_all es (dispatch listing e d).0

  -- While the set is not full, a dispatch forgets no id, and the set grows by one at most.
  dispatch-remembers :
      (e : WebhookEvent) (d : WebhookDispatcher) (id : String)
      → leb (suc (length d.seen_delivery_ids)) 10000 ≡ true
      → has_id d.seen_delivery_ids id ≡ true
      → let d' = (dispatch listing e d).0 in
        (has_id d'.seen_delivery_ids id ≡ true)
        × (leb (length d'.seen_delivery_ids) (suc (length d.seen_delivery_ids)) ≡ true)
  unfolding dispatch remember max_seen
  dispatch-remembers e d id room known = (ground arith, ground arith)

  dispatch-records :
      (e : WebhookEvent) (d : WebhookDispatcher)
      → leb (suc (length d.seen_delivery_ids)) 10000 ≡ true
      → let d' = (dispatch listing e d).0 in
        (has_id d'.seen_delivery_ids e.delivery_id ≡ true)
        × (leb (length d'.seen_delivery_ids) (suc (length d.seen_delivery_ids)) ≡ true)
  unfolding dispatch remember max_seen
  dispatch-records e d room =
      (ground (arith, eq_refl e.delivery_id), ground (arith, eq_refl e.delivery_id))

  dispatch_all-remembers :
      (es : List WebhookEvent) (d : WebhookDispatcher) (id : String)
      → leb (length d.seen_delivery_ids + length es) 10000 ≡ true
      → has_id d.seen_delivery_ids id ≡ true
      → has_id (dispatch_all es d).seen_delivery_ids id ≡ true
  dispatch_all-remembers [] d id room known = known
  dispatch_all-remembers (e ∷ es) d id room known =
      let d' : WebhookDispatcher = (dispatch listing e d).0 in
      let (still, grown) = dispatch-remembers e d id (ground arith) known in
      dispatch_all-remembers es d' id (ground arith) still

  dispatch-skips :
      (e : WebhookEvent) (d : WebhookDispatcher)
      → has_id d.seen_delivery_ids e.delivery_id ≡ true
      → dispatch listing e d ≡ (d, [])
  unfolding dispatch
  dispatch-skips e d known = rw known refl

  -- A delivery that comes again, under whatever event, creates no task and changes nothing, as long as
  -- the ids that were there, the delivery's and those that came in between are 10,000 at most.
  pub dispatch-once :
      (e e' : WebhookEvent) (es : List WebhookEvent) (d : WebhookDispatcher)
      → e'.delivery_id ≡ e.delivery_id
      → leb (suc (length d.seen_delivery_ids) + length es) 10000 ≡ true
      → let later = dispatch_all es (dispatch listing e d).0 in
        dispatch listing e' later ≡ (later, [])
  dispatch-once e e' es d same room =
      let d' : WebhookDispatcher = (dispatch listing e d).0 in
      let (known, grown) = dispatch-records e d (ground arith) in
      dispatch-skips e' (dispatch_all es d')
        (rw same (dispatch_all-remembers es d' e.delivery_id (ground arith) known))
