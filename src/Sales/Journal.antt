-- ===== src/Sales/Journal.antt =====
-- The stock journal under the calls of the sales service.
use modishlog.Prelude.{
  inl, inr, ℕ, refl, Option, none, some, [], ◌∷◌, String, not, ◌&&◌, is_some, ◌==◌,
}
use modishlog.Inventory.Stock.Journal.{IsJournaled, same_stock, adjust_stock-Keeps}
use modishlog.Inventory.Fifo.{reverse_fifo_consumption}
use modishlog.Sales.Lots.{reverse_lot_consumption}
use modishlog.Sales.Model.{Sale, SaleStatus, SaleField, AuditAction}
use modishlog.Sales.Request.{SaleCreate, SaleUpdate, is_empty_update}
use modishlog.Sales.Record.{
  create_sale, checked_sale, insert_sale, apply_fifo_deduction, apply_lot_deduction, depletion_of,
}
use modishlog.Sales.Record.Outcome.{checked_sale-cases}
use modishlog.Sales.Amend.{
  get_sale, update_sale, resync, void_sale, updated_sale, field_changes_of, is_voided, put_sale,
  is_nil, add_audit, correction_of, restoration_of,
}
use modishlog.Store.{Store, sale_not_found, sale_already_voided}
use modishlog.Store.Keeps.{
  Keeps, bind-Keeps, then-Keeps, raise_if-Keeps, when-Keeps, modify_store-Keeps, gets-Keeps,
  expect-Keeps, pure-Keeps,
}

checked_sale-Keeps : (d : SaleCreate) (u b : ℕ) → Keeps IsJournaled (checked_sale d u b)
checked_sale-Keeps d u b = record {
  kept = λ s j. elim (checked_sale-cases d u b s) [
    | inl (e, h) ↦ rw h j
    | inr (sale, checked, h) ↦ rw h j
  ];
}

insert_sale-IsJournaled :
    (sale : Sale) (u : ℕ) (s : Store) → IsJournaled s → IsJournaled (insert_sale sale u s)
unfolding insert_sale
insert_sale-IsJournaled sale u s j = record {
  levels_logged = j.levels_logged;
  moves_have_levels = j.moves_have_levels;
}

create_sale-Keeps : (d : SaleCreate) (u b : ℕ) → Keeps IsJournaled (create_sale d u b)
unfolding create_sale apply_fifo_deduction apply_lot_deduction
create_sale-Keeps d u b = bind-Keeps (checked_sale-Keeps d u b) (λ sale.
    then-Keeps (modify_store-Keeps (insert_sale sale u) (insert_sale-IsJournaled sale u)) (
      then-Keeps (adjust_stock-Keeps (depletion_of sale u)) (
        then-Keeps (modify_store-Keeps (apply_fifo_deduction sale) (λ s. same_stock s _ refl refl))
          (then-Keeps
            (modify_store-Keeps (apply_lot_deduction sale) (λ s. same_stock s _ refl refl))
            (pure-Keeps sale.id)))))

get_sale-Keeps : (i : ℕ) (b : Option ℕ) → Keeps IsJournaled (get_sale i b)
unfolding get_sale
get_sale-Keeps i b = bind-Keeps (gets-Keeps _) (λ found. expect-Keeps found (sale_not_found i))

resync-IsJournaled : (sale : Sale) (s : Store) → IsJournaled s → IsJournaled (resync sale s)
unfolding resync apply_fifo_deduction apply_lot_deduction reverse_fifo_consumption
    reverse_lot_consumption
resync-IsJournaled sale s = same_stock s _ refl refl

update_sale-Keeps :
    (i : ℕ) (u : SaleUpdate) (user : ℕ) (b : Option ℕ) → Keeps IsJournaled (update_sale i u user b)
unfolding update_sale
update_sale-Keeps i u user b = bind-Keeps (get_sale-Keeps i b) (λ old.
    let sale = updated_sale u old in
    let changes = field_changes_of u old in
    then-Keeps (raise_if-Keeps (is_voided old) (sale_already_voided i)) (
      when-Keeps (not (is_empty_update u)) (
        then-Keeps (modify_store-Keeps (put_sale sale) (λ s. same_stock s _ refl refl)) (
          then-Keeps
            (when-Keeps (not (is_nil changes)) (
              modify_store-Keeps (add_audit sale.id AuditAction.updated changes user none)
                (λ s. same_stock s _ refl refl)))
            (when-Keeps (is_some u.quantity && not (sale.quantity == old.quantity)) (
              then-Keeps (adjust_stock-Keeps (correction_of old.quantity sale user)) (
                when-Keeps (is_some sale.fifo_cogs)
                  (modify_store-Keeps (resync sale) (resync-IsJournaled sale)))))))))

void_sale-Keeps :
    (i : ℕ) (reason : String) (user : ℕ) (b : Option ℕ)
    → Keeps IsJournaled (void_sale i reason user b)
unfolding void_sale reverse_fifo_consumption reverse_lot_consumption
void_sale-Keeps i reason user b = bind-Keeps (get_sale-Keeps i b) (λ old.
    let sale = record old { status = SaleStatus.voided } in
    then-Keeps (raise_if-Keeps (is_voided old) (sale_already_voided i)) (
      then-Keeps (modify_store-Keeps (put_sale sale) (λ s. same_stock s _ refl refl)) (
        then-Keeps
          (modify_store-Keeps
            (add_audit sale.id AuditAction.voided (SaleField.status ∷ []) user (some reason))
            (λ s. same_stock s _ refl refl))
          (then-Keeps (adjust_stock-Keeps (restoration_of sale reason user)) (
            then-Keeps
              (modify_store-Keeps (reverse_fifo_consumption (sale.id ∷ []))
                (λ s. same_stock s _ refl refl))
              (modify_store-Keeps (reverse_lot_consumption (sale.id ∷ []))
                (λ s. same_stock s _ refl refl)))))))

-- A call of the sales service that changes the session.
pub data SalesCall : Store → Store → Type 0 where
  created : (d : SaleCreate) (u b : ℕ) (s : Store) → SalesCall s (create_sale d u b s).1
  updated :
      (i : ℕ) (d : SaleUpdate) (u : ℕ) (b : Option ℕ) (s : Store)
      → SalesCall s (update_sale i d u b s).1
  voided :
      (i : ℕ) (reason : String) (u : ℕ) (b : Option ℕ) (s : Store)
      → SalesCall s (void_sale i reason u b s).1

-- However a call of `create_sale`, `update_sale` or `void_sale` ends: if before it every stock level
-- equals the sum of the logged changes of its product and variant and is not negative, and every
-- movement has a level, then so it is afterwards.
pub SalesCall-IsJournaled : {s s' : Store} → SalesCall s s' → IsJournaled s → IsJournaled s'
SalesCall-IsJournaled (created d u b s) j = (create_sale-Keeps d u b).kept s j
SalesCall-IsJournaled (updated i d u b s) j = (update_sale-Keeps i d u b).kept s j
SalesCall-IsJournaled (voided i reason u b s) j = (void_sale-Keeps i reason u b).kept s j
