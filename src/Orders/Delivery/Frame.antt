-- ===== src/Orders/Delivery/Frame.antt =====
-- A delivery keeps whatever its steps keep.
use modishlog.Prelude.{ℕ, Option, none, some, List, [], ◌∷◌, is_some, not, ◌&&◌}
use text.Mathlib.Text.{◌==◌ as str_eq}
use modishlog.Inventory.Stock.{Adjustment, adjust_stock, ensure_inventory_level_exists}
use modishlog.Inventory.Fifo.{Arrival, create_batch}
use modishlog.Orders.Model.{PurchaseOrder, OrderLineItem}
use modishlog.Orders.Status.{put_order}
use modishlog.Orders.Delivery.{
  StatusTransition, landed_fx_rate, line_items_of, logistics_per_unit, put_units, receipt_of,
  arrival_of, deliver_item, deliver_items, dated, invalidate_todays_projection, deliver,
}
use modishlog.Store.{Store, missing_delivery_fx_rate}
use modishlog.Store.Keeps.{
  Keeps, bind-Keeps, then-Keeps, raise_if-Keeps, when-Keeps, modify_store-Keeps, gets-Keeps,
  pure-Keeps,
}

module _ (I : Store → Type 0) (adjust : (a : Adjustment) → Keeps I (adjust_stock a))
    (ensure : (p : ℕ) (v : Option ℕ) (g : Option ℕ)
      → Keeps I (ensure_inventory_level_exists p v none g))
    (batch : (a : Arrival) → Keeps I (create_batch a))
    (units : (n : Option ℕ) (i : ℕ) (s : Store) → I s → I (put_units n i s))
    (project : (u b : ℕ) (s : Store) → I s → I (invalidate_todays_projection u b s)) where
  deliver_item-Keeps :
      (o : PurchaseOrder) (rate logistics u : ℕ) (g : Option ℕ) (i : OrderLineItem)
      → Keeps I (deliver_item o rate logistics u g i)
  unfolding deliver_item
  deliver_item-Keeps o rate logistics u g i =
      then-Keeps
        (modify_store-Keeps (put_units (some i.quantity) i.id) (units (some i.quantity) i.id))
        (then-Keeps (when-Keeps (is_some i.variant_id) (ensure i.product_id i.variant_id g)) (
          then-Keeps (adjust (receipt_of o i u))
            (then-Keeps (batch (arrival_of o i rate logistics)) (pure-Keeps tt))))

  deliver_items-Keeps :
      (o : PurchaseOrder) (rate logistics u : ℕ) (g : Option ℕ) (is : List OrderLineItem)
      → Keeps I (deliver_items o rate logistics u g is)
  unfolding deliver_items
  deliver_items-Keeps o rate logistics u g [] = pure-Keeps tt
  deliver_items-Keeps o rate logistics u g (i ∷ is) =
      then-Keeps (deliver_item-Keeps o rate logistics u g i)
        (deliver_items-Keeps o rate logistics u g is)

  pub deliver-Keeps :
      (order : PurchaseOrder) (t : StatusTransition) (u : ℕ) (g : Option ℕ)
      → ((today : ℕ) (s : Store) → I s → I (put_order (dated t today order) s))
      → Keeps I (deliver order t u g)
  unfolding deliver
  deliver-Keeps order t u g put =
      then-Keeps
        (raise_if-Keeps
          (not (str_eq order.currency "NGN")
            && (not (is_some g) && not (is_some t.fx_rate_at_delivery)))
          (missing_delivery_fx_rate order.id))
        (bind-Keeps (gets-Keeps (λ s. s.today)) (λ today.
          let o = dated t today order in
          then-Keeps (modify_store-Keeps (put_order o) (put today)) (
            bind-Keeps (gets-Keeps (line_items_of o.id)) (λ items.
              then-Keeps
                (deliver_items-Keeps o (landed_fx_rate o t.fx_rate_at_delivery)
                  (logistics_per_unit o items) u g items)
                (modify_store-Keeps (invalidate_todays_projection u o.business_id)
                  (project u o.business_id))))))
