-- ===== src/Sales/Amend.antt =====
-- backend/src/sales/service.py: `get_sale`, `update_sale` and `void_sale`.
pub mod Void
pub mod Correction
pub mod Rematch
pub mod Final
pub mod Amended
pub mod Moves
pub mod Outcome
use text.Mathlib.Text.{◌==◌ as str_eq}
use modishlog.Prelude.{
  ℕ, ◌+◌, ◌-◌, ◌*◌, Bool, true, false, not, ◌&&◌, ◌||◌, Option, none, some, List, [], ◌∷◌, ◌++◌,
  String, ◌==◌, if◌then◌else◌, find, modify, is_some, or_else, same_id,
}
use modishlog.Prelude.Int.{ℤ, pos, sub_ℕ}
use modishlog.Ledger.{or_zero}
use modishlog.Inventory.Model.{sale_depletion, sale_reversal, sale_quantity_updated, Reason}
use modishlog.Inventory.Stock.{Adjustment, adjust_stock}
use modishlog.Inventory.Fifo.{reverse_fifo_consumption}
use modishlog.Sales.Model.{Sale, SaleStatus, SaleChannel, SaleField, SaleAuditEntry, AuditAction}
use modishlog.Sales.Lots.{reverse_lot_consumption}
use modishlog.Sales.Record.{apply_fifo_deduction, apply_lot_deduction}
use modishlog.Sales.Request.{SaleUpdate, is_empty_update}
use modishlog.Store.{
  Store, Service, pure, gets, expect, raise_if, modify_store, when, ◌>>=◌, ◌>>◌, sale_not_found,
  sale_already_voided,
}

abbrev pub is_sale : ℕ → Option ℕ → Sale → Bool
is_sale sale_id none x = x.id == sale_id
is_sale sale_id (some b) x = (x.id == sale_id) && (x.business_id == b)

unfoldable pub get_sale : ℕ → Option ℕ → Service Sale
get_sale sale_id business_id = do
  found ← gets (λ s. find (is_sale sale_id business_id) s.sales)
  expect found (sale_not_found sale_id)

abbrev pub is_voided : Sale → Bool
is_voided sale = elim sale.status [ SaleStatus.voided ↦ true | _ ↦ false ]

abbrev same_channel : SaleChannel → SaleChannel → Bool
same_channel SaleChannel.online SaleChannel.online = true
same_channel SaleChannel.retail SaleChannel.retail = true
same_channel SaleChannel.wholesale SaleChannel.wholesale = true
same_channel _ _ = false

abbrev same_text : Option String → Option String → Bool
same_text none none = true
same_text (some a) (some b) = str_eq a b
same_text _ _ = false

-- A field of the request whose value differs from the old one, in front of the other changes.
abbrev changed :
    {A : Type 0} → (A → A → Bool) → SaleField → A → Option A → List SaleField → List SaleField
changed same f old none fs = fs
changed same f old (some new) fs = if same old new then fs else f ∷ fs

-- The keys of `field_changes`.
unfoldable pub field_changes_of : SaleUpdate → Sale → List SaleField
field_changes_of u x = changed ◌==◌ SaleField.quantity x.quantity u.quantity (
    changed ◌==◌ SaleField.unit_price x.unit_price u.unit_price (
      changed same_id SaleField.discount_amount x.discount_amount u.discount_amount (
        changed ◌==◌ SaleField.sale_date x.sale_date u.sale_date (
          changed same_channel SaleField.channel x.channel u.channel (
            changed same_text SaleField.payment_method x.payment_method u.payment_method (
              changed same_text SaleField.payment_status x.payment_status u.payment_status
                (changed same_text SaleField.notes x.notes u.notes [])))))))

-- The updates applied, and the total computed again if the request has one of its factors.
unfoldable pub updated_sale : SaleUpdate → Sale → Sale
updated_sale u x =
    let quantity = or_else u.quantity x.quantity in
    let unit_price = or_else u.unit_price x.unit_price in
    let discount = or_else u.discount_amount x.discount_amount in
    record x {
      quantity = quantity;
      unit_price = unit_price;
      discount_amount = discount;
      sale_date = or_else u.sale_date x.sale_date;
      channel = or_else u.channel x.channel;
      payment_method = or_else u.payment_method x.payment_method;
      payment_status = or_else u.payment_status x.payment_status;
      notes = or_else u.notes x.notes;
      total_amount =
          if is_some u.quantity || (is_some u.unit_price || is_some u.discount_amount)
          then sub_ℕ (unit_price * quantity) (or_zero discount)
          else x.total_amount;
    }

abbrev pub put_sale : Sale → Store → Store
put_sale sale s = record s { sales = modify (λ (x : Sale). x.id == sale.id) (λ x. sale) s.sales }

abbrev pub is_nil : {A : Type 0} → List A → Bool
is_nil [] = true
is_nil (x ∷ xs) = false

abbrev pub add_audit : ℕ → AuditAction → List SaleField → ℕ → Option String → Store → Store
add_audit sale_id action changes user_id reason s =
    let audit : SaleAuditEntry = record {
      sale_id = sale_id;
      action = action;
      field_changes = changes;
      performed_by = user_id;
      reason = reason;
      created_at = s.now;
    } in
    record s { audits = s.audits ++ (audit ∷ []) }

abbrev pub correction_of : ℕ → Sale → ℕ → Adjustment
correction_of old_quantity sale user_id = record {
  product_id = sale.product_id;
  variant_id = sale.variant_id;
  quantity_change = sub_ℕ old_quantity sale.quantity;
  movement_type = sale_depletion;
  reason = sale_quantity_updated sale.id old_quantity sale.quantity;
  user_id = user_id;
  reference_id = some sale.id;
  reference_type = some "sale_update";
  business_id = none;
  migration_id = none;
}

-- FIFO costs and lots matched again to the corrected quantity of a sale.
unfoldable pub resync : Sale → Store → Store
resync sale s = apply_lot_deduction sale (
    reverse_lot_consumption (sale.id ∷ [])
      (apply_fifo_deduction sale (reverse_fifo_consumption (sale.id ∷ []) s)))

unfoldable pub update_sale : ℕ → SaleUpdate → ℕ → Option ℕ → Service (Unit {0})
unfolding get_sale field_changes_of updated_sale resync
update_sale sale_id u user_id business_id = do
  old ← get_sale sale_id business_id
  raise_if (is_voided old) (sale_already_voided sale_id)
  let sale = updated_sale u old
  let changes = field_changes_of u old
  when (not (is_empty_update u)) (do
    modify_store (put_sale sale)
    when (not (is_nil changes))
        (modify_store (add_audit sale.id AuditAction.updated changes user_id none))
    when (is_some u.quantity && not (sale.quantity == old.quantity)) (do
      adjust_stock (correction_of old.quantity sale user_id)
      when (is_some sale.fifo_cogs) (modify_store (resync sale))))

abbrev pub restoration_of : Sale → String → ℕ → Adjustment
restoration_of sale reason user_id = record {
  product_id = sale.product_id;
  variant_id = sale.variant_id;
  quantity_change = pos sale.quantity;
  movement_type = sale_reversal;
  reason = Reason.sale_voided sale.id reason;
  user_id = user_id;
  reference_id = some sale.id;
  reference_type = some "sale_void";
  business_id = none;
  migration_id = none;
}

-- Void a sale and restore inventory.
unfoldable pub void_sale : ℕ → String → ℕ → Option ℕ → Service (Unit {0})
unfolding get_sale reverse_fifo_consumption reverse_lot_consumption
void_sale sale_id reason user_id business_id = do
  old ← get_sale sale_id business_id
  raise_if (is_voided old) (sale_already_voided sale_id)
  let sale = record old { status = SaleStatus.voided }
  modify_store (put_sale sale)
  modify_store (add_audit sale.id AuditAction.voided (SaleField.status ∷ []) user_id (some reason))
  adjust_stock (restoration_of sale reason user_id)
  modify_store (reverse_fifo_consumption (sale.id ∷ []))
  modify_store (reverse_lot_consumption (sale.id ∷ []))
