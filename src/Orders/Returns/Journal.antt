-- ===== src/Orders/Returns/Journal.antt =====
-- The stock journal under purchase returns.
use modishlog.Prelude.{ℕ, refl, Option, some, List, [], ◌∷◌, String}
use modishlog.Inventory.Stock.Journal.{IsJournaled, same_stock, adjust_stock-Keeps}
use modishlog.Orders.Model.{PurchaseOrder, OrderLineItem}
use modishlog.Orders.Status.{get_order}
use modishlog.Orders.Delivery.{line_items_of}
use modishlog.Orders.Returns.{
  ReturnLine, PurchaseReturnCreate, cost_of, return_of, return_lines, add_return, row_of,
  create_purchase_return,
}
use modishlog.Store.{Store, order_not_found, order_line_item, null_business}
use modishlog.Store.Keeps.{
  Keeps, bind-Keeps, then-Keeps, modify_store-Keeps, gets-Keeps, expect-Keeps, pure-Keeps,
}

return_lines-Keeps :
    (o : PurchaseOrder) (items : List OrderLineItem) (u : ℕ) (ls : List ReturnLine)
    → Keeps IsJournaled (return_lines o items u ls)
unfolding return_lines
return_lines-Keeps o items u [] = pure-Keeps 0
return_lines-Keeps o items u (l ∷ ls) =
    bind-Keeps
      (expect-Keeps (cost_of items l.product_id l.variant_id)
        (order_line_item (some o.id) (l.product_id ∷ [])))
      (λ cost.
        then-Keeps (adjust_stock-Keeps (return_of o l u))
          (bind-Keeps (return_lines-Keeps o items u ls) (λ rest. pure-Keeps _)))

create_purchase_return-Keeps :
    (ref : String) (d : PurchaseReturnCreate) (u : ℕ) (b : Option ℕ)
    → Keeps IsJournaled (create_purchase_return ref d u b)
unfolding create_purchase_return get_order
create_purchase_return-Keeps ref d u b =
    bind-Keeps
      (bind-Keeps (gets-Keeps _)
        (λ found. expect-Keeps found (order_not_found d.original_order_id)))
      (λ o. bind-Keeps (gets-Keeps (line_items_of o.id)) (λ items.
        bind-Keeps (return_lines-Keeps o items u d.line_items) (λ total.
          bind-Keeps (gets-Keeps (λ s. s.today)) (λ today.
            bind-Keeps (expect-Keeps b null_business) (λ owner.
              modify_store-Keeps (add_return (row_of ref d u owner today total))
                (λ s. same_stock s _ refl refl))))))

-- A purchase return, however it ends, keeps the stock journal: if at first every level shows what the
-- movements of its product and variant add up to, and every movement has a level, then so it is
-- afterwards.
pub create_purchase_return-IsJournaled :
    (ref : String) (d : PurchaseReturnCreate) (u : ℕ) (b : Option ℕ) (s : Store)
    → IsJournaled s
    → IsJournaled (create_purchase_return ref d u b s).1
create_purchase_return-IsJournaled ref d u b s h = (create_purchase_return-Keeps ref d u b).kept s h
