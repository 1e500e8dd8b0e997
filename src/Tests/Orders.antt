-- ===== src/Tests/Orders.antt =====
-- The theorems on orders at a concrete shop.
use modishlog.Prelude.{inl, ◌+◌, ◌≡◌, refl, ◌⊎◌, none, some, [], ◌∷◌, find, arith}
use modishlog.Prelude.Int.{◌+ℤ◌}
use modishlog.Inventory.Stock.{adjust_stock, check_business, apply_adjustment}
use modishlog.Inventory.Stock.Journal.{IsJournaled}
use modishlog.Inventory.Fifo.{create_batch}
use modishlog.Orders.Model.{PurchaseOrder, PaymentMethod, cleared, delivered, cancelled}
use modishlog.Orders.Status.{get_order, valid_transitions, is_order, status_number}
use modishlog.Orders.Delivery.{
  StatusTransition, transition_status, deliver, deliver_items, deliver_item,
}
use modishlog.Orders.Delivery.Journal.{moved_on, StockCall-IsJournaled}
use modishlog.Orders.Delivery.Transition.{Moved, transition_status-Moved}
use modishlog.Orders.Delivery.Runs.{start, next, Transitions-number}
use modishlog.Orders.Payments.{
  PaymentCreate, derive_payment_status, total_paid, record_payment, void_payment,
}
use modishlog.Orders.Payments.Settled.{IsSettled}
use modishlog.Orders.Payments.Invariant.{
  recorded, voided, call, start as no_calls, PaymentCalls-IsSettled,
}
use modishlog.Tests.Shop.{order, shop, shop-IsJournaled}
use modishlog.Store.{Store, ok}

-- The shop before its order arrives.
abbrev waiting : Store
waiting = record shop { orders = record order { status = cleared } ∷ [] }

abbrev arrival : StatusTransition
arrival = record {
  new_status = delivered;
  actual_delivery_date = some 29;
  fx_rate_at_delivery = some 1_600_000_000;
  notes = none;
}

arrived : (transition_status 7 arrival 3 none waiting).0 ≡ ok tt
unfolding transition_status get_order valid_transitions deliver deliver_items deliver_item
    adjust_stock check_business apply_adjustment create_batch ◌+ℤ◌
arrived = refl

waiting-IsJournaled : IsJournaled waiting
waiting-IsJournaled = record {
  levels_logged = shop-IsJournaled.levels_logged;
  moves_have_levels = shop-IsJournaled.moves_have_levels;
}

StockCall-IsJournaled_example : IsJournaled (transition_status 7 arrival 3 none waiting).1
StockCall-IsJournaled_example =
    StockCall-IsJournaled (moved_on 7 arrival 3 none waiting) waiting-IsJournaled

transition_status-Moved_example :
    Moved 7 arrival 3 waiting (transition_status 7 arrival 3 none waiting).1
transition_status-Moved_example = transition_status-Moved 7 arrival 3 none waiting arrived

Transitions-number_example :
    (o' : PurchaseOrder) × (find
        (is_order 7 none)
        (transition_status 7 arrival 3 none waiting).1.orders
      ≡ some o')
    × ((status_number o'.status ≡ status_number cancelled)
        ⊎ (status_number o'.status ≡ status_number cleared + 1))
Transitions-number_example =
    Transitions-number (next arrival 3 none arrived start) (record order { status = cleared }) refl

abbrev instalment : PaymentCreate
instalment = record {
  amount = 5_000_000;
  currency = "USD";
  fx_rate = none;
  payment_date = 30;
  payment_method = PaymentMethod.cash;
  reference = none;
  notes = none;
}

shop-IsSettled : IsSettled shop
unfolding total_paid derive_payment_status
shop-IsSettled = record {
  accounts = ((omega arith, inl (refl, refl), tt), tt);
  distinct = tt;
  used = tt;
}

abbrev paid_once : Store
paid_once = (record_payment 7 instalment 3 none shop).1

PaymentCalls-IsSettled_example : IsSettled (void_payment 7 50 3 paid_once).1
PaymentCalls-IsSettled_example =
    PaymentCalls-IsSettled
      (call (recorded 7 instalment 3 none shop) (call (voided 7 50 3 paid_once) no_calls))
      shop-IsSettled
