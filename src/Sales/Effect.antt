-- ===== src/Sales/Effect.antt =====
-- What a successful `create_sale` leaves in the session.
use modishlog.Prelude.{ℕ, ◌*◌, ◌≡◌, refl, some, [], ◌∷◌, ◌++◌, inl, inr, ==-refl, same_id_refl}
use modishlog.Prelude.Int.{ℤ, pos, neg, ◌+ℤ◌, ◌-ℤ◌, ◌≤ℤ◌, discounted, covered}
use modishlog.Ledger.{or_zero}
use modishlog.Inventory.Stock.{apply_adjustment}
use modishlog.Inventory.Stock.OnHand.{on_hand, on_hand-adjusted_self}
use modishlog.Sales.Model.{Sale}
use modishlog.Sales.Request.{SaleCreate}
use modishlog.Sales.Record.{
  create_sale, insert_sale, apply_fifo_deduction, apply_lot_deduction, depletion_of, with_cogs,
  new_sale,
}
use modishlog.Sales.Record.Outcome.{Checked, create_sale-cases}
use modishlog.Sales.Amend.Void.{IsNewId, Checked-IsRecorded, recorded_cogs, recorded-sales}
use modishlog.Store.{Store, ok}

-- The session `s'` is `s` with a sale recorded under the id `i` for the request `d`.
pub record SaleRecorded (d : SaleCreate) (s s' : Store) (i : ℕ) : Type 0 where
  pub sale : Sale
  pub before : ℤ
  pub row : s'.sales ≡ s.sales ++ (sale ∷ [])
  pub id_of : (sale.id ≡ i) × (i ≡ s.next_id)
  pub product_of : (sale.product_id ≡ d.product_id) × (sale.variant_id ≡ d.variant_id)
  pub quantity_of : sale.quantity ≡ d.quantity
  pub total :
      sale.total_amount
      ≡ pos (sale.unit_price * sale.quantity) -ℤ pos (or_zero sale.discount_amount)
  pub total_positive : pos 0 ≤ℤ sale.total_amount
  pub cogs : sale.fifo_cogs ≡ some (recorded_cogs sale s)
  pub profit : sale.fifo_gross_profit ≡ some (sale.total_amount -ℤ pos (recorded_cogs sale s))
  pub stock : on_hand d.product_id d.variant_id s.levels ≡ some before
  pub depleted : on_hand d.product_id d.variant_id s'.levels ≡ some (before +ℤ neg d.quantity)
  pub enough : pos d.quantity ≤ℤ before

module _ (d : SaleCreate) (u b : ℕ) (s : Store) (sale : Sale) (checked : Checked d u b s sale) where
  pub sold :
      (sale.product_id ≡ d.product_id)
      × (sale.variant_id ≡ d.variant_id)
      × (sale.quantity ≡ d.quantity)
      × (sale.total_amount
          ≡ pos (sale.unit_price * sale.quantity) -ℤ pos (or_zero sale.discount_amount))
      × (pos 0 ≤ℤ sale.total_amount)
  unfolding new_sale
  sold =
      let (product, price, le, e) = checked in
      rw e (refl, refl, refl, refl, discounted (price * d.quantity) (or_zero d.discount_amount) le)

-- For every sale that `create_sale` records in a session where the next id is in use nowhere: the
-- sale is the new last row under the next id, for the requested product, variant and quantity; its
-- total is price times quantity less the discount, and not negative; its cost of goods is that of
-- the FIFO deduction, and its gross profit the total less that cost; and the quantity on hand, which
-- covered the request, has gone down by it.
pub create_sale-SaleRecorded :
    (d : SaleCreate) (u b : ℕ) (s : Store) {i : ℕ}
    → IsNewId s
    → (create_sale d u b s).0 ≡ ok i
    → SaleRecorded d s (create_sale d u b s).1 i
unfolding insert_sale apply_fifo_deduction apply_lot_deduction apply_adjustment
create_sale-SaleRecorded d u b s {i} new created = elim (create_sale-cases d u b s) [
  | inl (e, h) ↦ absurd (cc (rw h at created))
  | inr (inl (e, sale, checked, h)) ↦ absurd (cc (rw h at created))
  | inr (inr (sale, l, checked, adjusts, h)) ↦
      let same : sale.id ≡ i = cc (rw h at created) in
      let rec = Checked-IsRecorded d u b s sale checked in
      let (ep, ev, eq, total, positive) = sold d u b s sale checked in
      let level =
        on_hand-adjusted_self (depletion_of sale u) (l.quantity_on_hand +ℤ neg sale.quantity) s.now
          sale.product_id sale.variant_id s.levels l
          (rw (==-refl sale.product_id, same_id_refl sale.variant_id) refl) adjusts.0 in
      rw h (record {
        sale = with_cogs (recorded_cogs sale s) sale;
        before = l.quantity_on_hand;
        row = recorded-sales s b u sale l new rec adjusts;
        id_of = (same, cc (rec.id_new, same));
        product_of = (ep, ev);
        quantity_of = eq;
        total = total;
        total_positive = positive;
        cogs = refl;
        profit = refl;
        stock = rw (← ep, ← ev) level.1;
        depleted = rw (← ep, ← ev, ← eq) level.0;
        enough = rw (← eq) (covered l.quantity_on_hand sale.quantity adjusts.1);
      })
]
