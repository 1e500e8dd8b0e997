-- ===== src/Sales/Amend/Void.antt =====
-- `void_sale`: what it undoes, and when it is refused.
use modishlog.Prelude.{
  ℕ, ◌≡◌, refl, sym, ap, ◌∙◌, false, ◌&&◌, Option, none, some, List, [], ◌∷◌, ◌++◌, Bool-cases, inl,
  inr, find, find-append_new, modify-append_new, modify, All, ◌==◌, ==-refl, arith, String, same_id,
}
use modishlog.Prelude.Int.{pos, neg, ◌+ℤ◌, neg_cancel, nonneg_add}
use modishlog.Ledger.Laws.{IsUnused}
use modishlog.Ledger.Draws.{IsKeyed}
use modishlog.Inventory.Model.{InventoryLevel, batch_target}
use modishlog.Inventory.Stock.{adjusted_level, apply_adjustment, is_level}
use modishlog.Inventory.Stock.Journal.{Adjusts, adjusted_store, adjust_stock-ok}
use modishlog.Inventory.Stock.OnHand.{
  on_hand, find-adjusted, on_hand-adjusted_other, on_hand-adjusted_self,
}
use modishlog.Inventory.Fifo.{reverse_fifo_consumption, fifo_deduct}
use modishlog.Inventory.Fifo.Reversal.{reverse-fifo_deduct}
use modishlog.Orders.Model.{lot_target}
use modishlog.Sales.Model.{Sale, SaleStatus, SaleField, AuditAction}
use modishlog.Sales.Lots.{reverse_lot_consumption}
use modishlog.Sales.Lots.Reversal.{reverse-deduct_lot_units}
use modishlog.Sales.Request.{SaleCreate}
use modishlog.Sales.Record.{
  create_sale, insert_sale, apply_fifo_deduction, apply_lot_deduction, depletion_of, with_cogs,
  new_sale,
}
use modishlog.Sales.Record.Outcome.{Checked, recorded_store, create_sale-cases}
use modishlog.Sales.Amend.{
  is_sale, get_sale, is_voided, put_sale, add_audit, restoration_of, void_sale,
}
use modishlog.Store.{Store, Result, ok}

abbrev pub voided : Sale → Sale
voided x = record x { status = SaleStatus.voided }

-- The session after the sale is marked and its audit entry added.
abbrev pub marked_store : Sale → String → ℕ → Store → Store
marked_store x reason user_id s =
    add_audit x.id AuditAction.voided (SaleField.status ∷ []) user_id (some reason)
      (put_sale (voided x) s)

-- The session after a sale was voided and its stock, batches and lots restored.
abbrev pub voided_store : Sale → String → ℕ → Store → InventoryLevel → Store
voided_store x reason user_id s l = reverse_lot_consumption (x.id ∷ []) (
    reverse_fifo_consumption (x.id ∷ []) (
      adjusted_store (restoration_of (voided x) reason user_id) (marked_store x reason user_id s)
        l))

void_sale-ok :
    (sale_id : ℕ) (reason : String) (user_id : ℕ) (b : Option ℕ) (s : Store) (x : Sale)
    (l : InventoryLevel)
    → find (is_sale sale_id b) s.sales ≡ some x
    → is_voided x ≡ false
    → Adjusts (restoration_of (voided x) reason user_id) (marked_store x reason user_id s) l
    → void_sale sale_id reason user_id b s ≡ (ok tt, voided_store x reason user_id s l)
unfolding void_sale get_sale
void_sale-ok sale_id reason u b s x l found open_ h = ground (
  arith,
  adjust_stock-ok (restoration_of (voided x) reason u) (marked_store x reason u s) l refl h,
)

-- The next id is in use nowhere: no sale has it, and no ledger entry.
pub record IsNewId (s : Store) : Type 0 where
  pub sales_new : All (λ (x : Sale). (x.id == s.next_id) ≡ false) s.sales
  pub batches_new : IsUnused (s.next_id ∷ []) s.batches.entries
  pub lots_new : IsUnused (s.next_id ∷ []) s.lots.entries

not_sale :
    (i : ℕ) (b : Option ℕ) (xs : List Sale)
    → All (λ (x : Sale). (x.id == i) ≡ false) xs
    → All (λ (x : Sale). is_sale i b x ≡ false) xs
not_sale i b [] h = tt
not_sale i none (x ∷ xs) h = (h.0, not_sale i none xs h.1)
not_sale i (some b) (x ∷ xs) h = (ground arith, not_sale i (some b) xs h.1)

-- What a sale recorded by `create_sale` has by construction.
pub record IsRecorded (s : Store) (business_id : ℕ) (sale : Sale) : Type 0 where
  pub id_new : sale.id ≡ s.next_id
  pub of_business : sale.business_id ≡ business_id
  pub active : is_voided sale ≡ false

pub Checked-IsRecorded :
    (d : SaleCreate) (u b : ℕ) (s : Store) (sale : Sale)
    → Checked d u b s sale
    → IsRecorded s b sale
Checked-IsRecorded d u b s sale (product, price, le, e) =
    rw e (unfold new_sale in record { id_new = refl; of_business = refl; active = refl })

-- The COGS that `create_sale` stamps on a sale.
abbrev pub recorded_cogs : Sale → Store → ℕ
recorded_cogs sale s =
    (fifo_deduct sale.product_id sale.quantity sale.variant_id (some sale.id) s.batches).cogs

module _ (s : Store) (b u : ℕ) (sale : Sale) (l : InventoryLevel) (new : IsNewId s)
    (rec : IsRecorded s b sale)
    (adjusts : Adjusts (depletion_of sale u) (insert_sale sale u s) l) where
  abbrev stamped : Sale
  stamped = with_cogs (recorded_cogs sale s) sale

  unsold : All (λ (x : Sale). (x.id == sale.id) ≡ false) s.sales
  unsold = rw rec.id_new new.sales_new

  -- The sale is the new last row, with its costs.
  pub recorded-sales : (recorded_store sale u s l).sales ≡ s.sales ++ (stamped ∷ [])
  unfolding insert_sale apply_fifo_deduction apply_lot_deduction apply_adjustment
  recorded-sales =
      modify-append_new (λ (x : Sale). x.id == sale.id) (with_cogs (recorded_cogs sale s)) s.sales
        sale unsold (==-refl sale.id)

  pub find-recorded :
      find (is_sale sale.id (some b)) (recorded_store sale u s l).sales ≡ some stamped
  find-recorded = rw recorded-sales (
      find-append_new (is_sale sale.id (some b)) s.sales stamped
        (not_sale sale.id (some b) s.sales unsold)
        (rw (==-refl sale.id, rec.of_business) (==-refl b)))

  -- Voiding finds the level that the sale depleted.
  restores :
      (reason : String) (u' : ℕ)
      → Adjusts
          (restoration_of (voided stamped) reason u')
          (marked_store stamped reason u' (recorded_store sale u s l))
          (adjusted_level (depletion_of sale u) (l.quantity_on_hand +ℤ neg sale.quantity) s.now l)
  unfolding insert_sale apply_fifo_deduction apply_lot_deduction apply_adjustment
  restores reason u' = (
    find-adjusted (depletion_of sale u) (l.quantity_on_hand +ℤ neg sale.quantity) s.now s.levels l
        adjusts.0,
    nonneg_add (l.quantity_on_hand +ℤ neg sale.quantity) sale.quantity adjusts.1,
  )

  void-recorded :
      (reason : String) (u' : ℕ)
      → void_sale sale.id reason u' (some b) (recorded_store sale u s l) ≡ (
        ok tt,
        voided_store stamped reason u' (recorded_store sale u s l) (
            adjusted_level (depletion_of sale u) (l.quantity_on_hand +ℤ neg sale.quantity) s.now l),
      )
  void-recorded reason u' =
      void_sale-ok sale.id reason u' (some b) (recorded_store sale u s l) stamped _ find-recorded
        rec.active (restores reason u')

  on_hand-restored :
      (reason : String) (u' p : ℕ) (v : Option ℕ)
      → on_hand p v
          (voided_store stamped reason u' (recorded_store sale u s l) (
            adjusted_level
              (depletion_of sale u)
              (l.quantity_on_hand +ℤ neg sale.quantity)
              s.now
              l)).levels
        ≡ on_hand p v s.levels
  unfolding insert_sale apply_fifo_deduction apply_lot_deduction apply_adjustment
      reverse_fifo_consumption reverse_lot_consumption
  on_hand-restored reason u' p v =
      let down = depletion_of sale u in
      let up = restoration_of (voided stamped) reason u' in
      let less = l.quantity_on_hand +ℤ neg sale.quantity in
      let sold =
        modify (is_level sale.product_id sale.variant_id) (adjusted_level down less s.now)
          s.levels in
      elim (Bool-cases ((sale.product_id == p) && same_id sale.variant_id v)) [
        | inl own ↦
            (on_hand-adjusted_self up (less +ℤ pos sale.quantity) s.now p v sold
              (adjusted_level down less s.now l) own (restores reason u').0).0
            ∙ (ap some (neg_cancel l.quantity_on_hand sale.quantity)
                ∙ sym (on_hand-adjusted_self down less s.now p v s.levels l own adjusts.0).1)
        | inr other ↦
            on_hand-adjusted_other up (less +ℤ pos sale.quantity) s.now p v sold other
            ∙ on_hand-adjusted_other down less s.now p v s.levels other
      ]

-- The session is back where it was, as far as stock goes.
abbrev pub Undone : Store → Result (Unit {0}) × Store → Type 0
Undone s r =
    (r.0 ≡ ok tt)
    × (r.1.batches ≡ s.batches)
    × (r.1.lots ≡ s.lots)
    × ((p : ℕ) (v : Option ℕ) → on_hand p v r.1.levels ≡ on_hand p v s.levels)

Undone-recorded :
    (s : Store) (b u : ℕ) (sale : Sale) (l : InventoryLevel)
    → IsKeyed s.batches.rows
    → IsKeyed s.lots.rows
    → IsNewId s
    → IsRecorded s b sale
    → Adjusts (depletion_of sale u) (insert_sale sale u s) l
    → (reason : String) (u' : ℕ)
    → Undone s (void_sale sale.id reason u' (some b) (recorded_store sale u s l))
Undone-recorded s b u sale l kb kl new rec adjusts reason u' =
    rw (void-recorded s b u sale l new rec adjusts reason u') (
      refl,
      (unfold reverse_fifo_consumption reverse_lot_consumption apply_adjustment insert_sale
            apply_fifo_deduction apply_lot_deduction in
          reverse-fifo_deduct sale.product_id sale.quantity sale.variant_id sale.id s.batches kb
            (rw rec.id_new new.batches_new)),
      (unfold reverse_fifo_consumption reverse_lot_consumption apply_adjustment insert_sale
            apply_fifo_deduction apply_lot_deduction in
          reverse-deduct_lot_units s.orders sale.product_id sale.quantity sale.variant_id sale.id
            s.lots kl (rw rec.id_new new.lots_new)),
      on_hand-restored s b u sale l new rec adjusts reason u',
    )

-- For every sale that `create_sale` records, in a session whose batches and lots have distinct ids
-- and whose next id is in use nowhere: voiding it at once succeeds, and then the batches, the lots,
-- both consumption ledgers, and the quantity on hand of every product and variant are what they were
-- before the sale.
pub void_sale-create_sale :
    (d : SaleCreate) (u b : ℕ) (s : Store) {i : ℕ}
    → IsKeyed s.batches.rows
    → IsKeyed s.lots.rows
    → IsNewId s
    → (create_sale d u b s).0 ≡ ok i
    → (reason : String) (u' : ℕ) → Undone s (void_sale i reason u' (some b) (create_sale d u b s).1)
void_sale-create_sale d u b s {i} kb kl new created reason u' = elim (create_sale-cases d u b s) [
  | inl (e, h) ↦ absurd (cc (rw h at created))
  | inr (inl (e, sale, checked, h)) ↦ absurd (cc (rw h at created))
  | inr (inr (sale, l, checked, adjusts, h)) ↦
      let same : sale.id ≡ i = cc (rw h at created) in
      rw (h, ← same)
        (Undone-recorded s b u sale l kb kl new (Checked-IsRecorded d u b s sale checked) adjusts
          reason u')
]
