-- ===== src/Orders/Delivery/Journal.antt =====
-- The stock journal under the calls of the orders service that move stock.
use modishlog.Prelude.{ℕ, refl, Option, none, some, not, List, [], ◌∷◌}
use modishlog.Inventory.Stock.Journal.{IsJournaled, same_stock, adjust_stock-Keeps}
use modishlog.Inventory.Stock.Opening.{ensure_inventory_level_exists-Keeps}
use modishlog.Inventory.Fifo.{Arrival, create_batch}
use modishlog.Inventory.Model.{InventoryBatch}
use modishlog.Orders.Model.{PurchaseOrder, delivered, cleared}
use modishlog.Orders.Status.{same_status, get_order, put_order, add_history}
use modishlog.Orders.Delivery.{
  StatusTransition, deliver, transition_status, batches_of, any_touched, any_consumed, removal_of,
  delete_batch, remove_batches, clear_units, revert_delivered_order,
}
use modishlog.Orders.Delivery.Frame.{deliver-Keeps}
use modishlog.Store.{
  Store, order_not_found, invalid_status_transition, order_not_delivered, order_already_consumed,
}
use modishlog.Store.Keeps.{
  Keeps, bind-Keeps, then-Keeps, raise_if-Keeps, when-Keeps, modify_store-Keeps, gets-Keeps,
  expect-Keeps, pure-Keeps,
}

get_order-Keeps : (i : ℕ) (b : Option ℕ) → Keeps IsJournaled (get_order i b)
unfolding get_order
get_order-Keeps i b = bind-Keeps (gets-Keeps _) (λ found. expect-Keeps found (order_not_found i))

create_batch-Keeps : (a : Arrival) → Keeps IsJournaled (create_batch a)
unfolding create_batch
create_batch-Keeps a = record { kept = λ s. same_stock s _ refl refl }

deliver-Journaled :
    (order : PurchaseOrder) (t : StatusTransition) (u : ℕ) (g : Option ℕ)
    → Keeps IsJournaled (deliver order t u g)
deliver-Journaled order t u g =
    deliver-Keeps IsJournaled adjust_stock-Keeps
      (λ p v g. ensure_inventory_level_exists-Keeps p v none g) create_batch-Keeps
      (λ n i s. same_stock s _ refl refl) (λ u b s. same_stock s _ refl refl) order t u g
      (λ today s. same_stock s _ refl refl)

transition_status-Keeps :
    (i : ℕ) (t : StatusTransition) (u : ℕ) (g : Option ℕ)
    → Keeps IsJournaled (transition_status i t u g)
unfolding transition_status
transition_status-Keeps i t u g = bind-Keeps (get_order-Keeps i none) (λ order.
    let o = record order { status = t.new_status } in
    then-Keeps (raise_if-Keeps _ (invalid_status_transition i order.status t.new_status)) (
      then-Keeps (modify_store-Keeps (put_order o) (λ s. same_stock s _ refl refl)) (
        then-Keeps (when-Keeps (same_status t.new_status delivered) (deliver-Journaled o t u g)) (
          modify_store-Keeps (add_history o order.status u t.notes)
            (λ s. same_stock s _ refl refl)))))

remove_batches-Keeps :
    (o : PurchaseOrder) (u : ℕ) (bs : List InventoryBatch)
    → Keeps IsJournaled (remove_batches o u bs)
unfolding remove_batches
remove_batches-Keeps o u [] = pure-Keeps tt
remove_batches-Keeps o u (b ∷ bs) = then-Keeps (adjust_stock-Keeps (removal_of o b u)) (
    then-Keeps (modify_store-Keeps (delete_batch b.id) (λ s. same_stock s _ refl refl))
      (remove_batches-Keeps o u bs))

revert_delivered_order-Keeps :
    (i u : ℕ) (b : Option ℕ) → Keeps IsJournaled (revert_delivered_order i u b)
unfolding revert_delivered_order
revert_delivered_order-Keeps i u b = bind-Keeps (get_order-Keeps i b) (λ order.
    let o = record order {
      status = cleared;
      actual_delivery_date = none;
      fx_rate_at_delivery = none;
    } in
    then-Keeps
      (raise_if-Keeps (not (same_status order.status delivered))
        (order_not_delivered i order.status))
      (bind-Keeps (gets-Keeps (batches_of i)) (λ batches.
        then-Keeps (raise_if-Keeps (any_touched batches) (order_already_consumed i)) (
          bind-Keeps (gets-Keeps (λ s. s.batches.entries)) (λ entries.
            then-Keeps (raise_if-Keeps (any_consumed batches entries) (order_already_consumed i)) (
              then-Keeps (remove_batches-Keeps order u batches) (
                then-Keeps (modify_store-Keeps (clear_units i) (λ s. same_stock s _ refl refl)) (
                  then-Keeps (modify_store-Keeps (put_order o) (λ s. same_stock s _ refl refl)) (
                    modify_store-Keeps
                      (add_history o order.status u
                        (some "Reverted: order was marked DELIVERED in error"))
                      (λ s. same_stock s _ refl refl))))))))))

-- A call of the orders service that moves stock.
pub data StockCall : Store → Store → Type 0 where
  moved_on :
      (i : ℕ) (t : StatusTransition) (u : ℕ) (g : Option ℕ) (s : Store)
      → StockCall s (transition_status i t u g s).1
  reverted : (i u : ℕ) (b : Option ℕ) (s : Store) → StockCall s (revert_delivered_order i u b s).1

-- However a call of `transition_status` or `revert_delivered_order` ends, deliveries included: if
-- before it every stock level equals the sum of the logged changes of its product and variant and is
-- not negative, and every movement has a level, then so it is afterwards.
pub StockCall-IsJournaled : {s s' : Store} → StockCall s s' → IsJournaled s → IsJournaled s'
StockCall-IsJournaled (moved_on i t u g s) j = (transition_status-Keeps i t u g).kept s j
StockCall-IsJournaled (reverted i u b s) j = (revert_delivered_order-Keeps i u b).kept s j
