-- ===== src/Sales/Amend/Rematch.antt =====
-- Correcting the quantity of a sale against recording it with that quantity in the first place.
use modishlog.Prelude.{ℕ, ◌≡◌, refl, ap, false, Option, some, inl, inr, ◌==◌}
use modishlog.Ledger.Draws.{IsKeyed}
use modishlog.Inventory.Model.{InventoryLevel, batch_target}
use modishlog.Inventory.Stock.{apply_adjustment}
use modishlog.Inventory.Stock.Journal.{adjusted_store}
use modishlog.Inventory.Fifo.{fifo_deduct, reverse_fifo_consumption}
use modishlog.Inventory.Fifo.Reversal.{reverse-fifo_deduct}
use modishlog.Orders.Model.{lot_target}
use modishlog.Sales.Model.{Sale}
use modishlog.Sales.Lots.{deduct_lot_units, reverse_lot_consumption}
use modishlog.Sales.Lots.Reversal.{reverse-deduct_lot_units}
use modishlog.Sales.Request.{SaleCreate}
use modishlog.Sales.Record.{
  create_sale, insert_sale, apply_fifo_deduction, apply_lot_deduction, with_cogs,
}
use modishlog.Sales.Record.Outcome.{recorded_store, create_sale-cases}
use modishlog.Sales.Effect.{sold}
use modishlog.Sales.Amend.{update_sale, updated_sale, resync, correction_of}
use modishlog.Sales.Amend.Correction.{requantify, corrected_store, requantify-cases}
use modishlog.Sales.Amend.Void.{
  IsNewId, IsRecorded, Checked-IsRecorded, recorded_cogs, find-recorded,
}
use modishlog.Store.{Store, ok}

-- The stock rows of `s'` are those of `s` after the product's deduction of `q` units for the sale `i`.
abbrev pub IsMatched : ℕ → Option ℕ → ℕ → ℕ → Store → Store → Type 0
IsMatched p v q i s s' =
    (s'.batches ≡ (fifo_deduct p q v (some i) s.batches).ledger)
    × (s'.lots ≡ deduct_lot_units s.orders p q v (some i) s.lots)

module _ (s : Store) (b u u' q : ℕ) (sale : Sale) (l l' : InventoryLevel)
    (keyed : IsKeyed s.batches.rows) (lots_keyed : IsKeyed s.lots.rows) (new : IsNewId s)
    (rec : IsRecorded s b sale) where
  abbrev costed : Sale
  costed = with_cogs (recorded_cogs sale s) sale

  rematched :
      let x' = updated_sale (requantify q) costed in
      IsMatched sale.product_id sale.variant_id q sale.id s (
        resync x' (
          adjusted_store
            (correction_of sale.quantity x' u')
            (corrected_store q costed u' (recorded_store sale u s l))
            l'))
  unfolding resync updated_sale apply_fifo_deduction apply_lot_deduction reverse_fifo_consumption
      reverse_lot_consumption apply_adjustment insert_sale
  rematched = (
    ap (λ x. (fifo_deduct sale.product_id q sale.variant_id (some sale.id) x).ledger)
        (reverse-fifo_deduct sale.product_id sale.quantity sale.variant_id sale.id s.batches keyed
          (rw rec.id_new new.batches_new)),
    ap (λ x. deduct_lot_units s.orders sale.product_id q sale.variant_id (some sale.id) x)
        (reverse-deduct_lot_units s.orders sale.product_id sale.quantity sale.variant_id sale.id
          s.lots lots_keyed (rw rec.id_new new.lots_new)),
  )

-- For every sale that `create_sale` records, in a session whose batches and lots have distinct ids and
-- whose next id is in use nowhere: if its quantity is then corrected to another one by `update_sale`,
-- which returns, the batches, the lots and both consumption ledgers are exactly what they would be had
-- the stock been drawn for the corrected quantity in the first place.
pub update_sale-create_sale :
    (d : SaleCreate) (u b : ℕ) (s : Store) {i : ℕ}
    → IsKeyed s.batches.rows
    → IsKeyed s.lots.rows
    → IsNewId s
    → (create_sale d u b s).0 ≡ ok i
    → (q u' : ℕ) → (d.quantity == q) ≡ false
    → (update_sale i (requantify q) u' (some b) (create_sale d u b s).1).0 ≡ ok tt
    → IsMatched d.product_id d.variant_id q i s
        (update_sale i (requantify q) u' (some b) (create_sale d u b s).1).1
update_sale-create_sale d u b s {i} kb kl new created q u' differs done =
    elim (create_sale-cases d u b s) [
      | inl (e, h) ↦ absurd (cc (rw h at created))
      | inr (inl (e, sale, checked, h)) ↦ absurd (cc (rw h at created))
      | inr (inr (sale, l, checked, adjusts, h)) ↦
          let same : sale.id ≡ i = cc (rw h at created) in
          let rec = Checked-IsRecorded d u b s sale checked in
          let (ep, ev, eq, _, _) = sold d u b s sale checked in
          let found = find-recorded s b u sale l new rec adjusts in
          let differs' : (sale.quantity == q) ≡ false = rw eq differs in
          elim (requantify-cases sale.id q u' (some b) (recorded_store sale u s l)
            (with_cogs (recorded_cogs sale s) sale) found rec.active differs' refl) [
              | inl (e, raised) ↦ absurd (cc (rw (h, ← same, raised) at done))
              | inr (l', adjusts', returned) ↦
                  rw (h, ← same, returned, ← ep, ← ev)
                    (rematched s b u u' q sale l l' kb kl new rec)
            ]
    ]
