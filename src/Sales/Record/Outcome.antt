-- ===== src/Sales/Record/Outcome.antt =====
-- How a call of `create_sale` ends.
use modishlog.Prelude.{
  ℕ, ◌*◌, ◌≤◌, ◌≡◌, refl, ◌⊎◌, not, ◌&&◌, Option, none, some, Bool-cases, Option-cases, inl, inr,
  ltb, find, ◌==◌, is_some, arith,
}
use modishlog.Ledger.{or_zero}
use modishlog.Inventory.Model.{InventoryLevel}
use modishlog.Inventory.Stock.Journal.{Adjusts, adjusted_store, adjust_stock-cases}
use modishlog.Sales.Model.{Product, ProductVariant, Sale}
use modishlog.Sales.Request.{SaleCreate}
use modishlog.Sales.Record.{
  requested_variant, new_sale, checked_sale, insert_sale, apply_fifo_deduction, apply_lot_deduction,
  depletion_of, create_sale, find_product_variant, resolve_unit_price,
}
use modishlog.Store.{
  Store, Error, ok, err, variant_not_found, product_not_found, product_inactive, variant_required,
  discount_exceeds_gross,
}

requested_variant-pure :
    (v : Option ℕ) (p : Product) (s : Store)
    → ((e : Error) × (requested_variant v p s ≡ (err e, s)))
      ⊎ ((o : Option ProductVariant) × (requested_variant v p s ≡ (ok o, s)))
unfolding requested_variant
requested_variant-pure none p s = inr (none, refl)
requested_variant-pure (some v) p s = elim (Option-cases (find_product_variant v p.id s.variants)) [
  | inl e ↦ inl (variant_not_found, ground arith)
  | inr (x, e) ↦ inr (some x, ground arith)
]

-- The sale that passed the checks: a product at a price, with no more discount than the gross amount.
abbrev pub Checked : SaleCreate → ℕ → ℕ → Store → Sale → Type 0
Checked d user_id business_id s sale =
    (product : Product) × (price : ℕ) × (or_zero d.discount_amount ≤ price * d.quantity)
    × (sale ≡ new_sale d product price user_id business_id s)

pub checked_sale-cases :
    (d : SaleCreate) (user_id business_id : ℕ) (s : Store)
    → ((e : Error) × (checked_sale d user_id business_id s ≡ (err e, s)))
      ⊎ ((sale : Sale) × Checked d user_id business_id s sale
          × (checked_sale d user_id business_id s ≡ (ok sale, s)))
unfolding checked_sale
checked_sale-cases d u b s =
    elim (Option-cases
      (find (λ (p : Product). (p.id == d.product_id) && (p.business_id == b)) s.products)) [
        | inl e ↦ inl (product_not_found, ground arith)
        | inr (product, found) ↦ elim (Bool-cases (not product.is_active)) [
          | inl e ↦ inl (product_inactive, ground arith)
          | inr active ↦ elim (Bool-cases (product.has_variants && not (is_some d.variant_id))) [
            | inl e ↦ inl (variant_required, ground arith)
            | inr given ↦ elim (requested_variant-pure d.variant_id product s) [
              | inl (er, e) ↦ inl (er, ground arith)
              | inr (variant, e) ↦
                  let price = resolve_unit_price d.unit_price variant product in
                  elim (Bool-cases (ltb (price * d.quantity) (or_zero d.discount_amount))) [
                    | inl big ↦ inl (discount_exceeds_gross, ground arith)
                    | inr fits ↦ inr (
                      new_sale d product price u b s,
                      (product, price, ground arith, refl),
                      ground arith,
                    )
                  ]
            ]
          ]
        ]
      ]

-- The session after a sale was recorded and its stock depleted.
abbrev pub recorded_store : Sale → ℕ → Store → InventoryLevel → Store
recorded_store sale user_id s l = apply_lot_deduction sale (
    apply_fifo_deduction sale
      (adjusted_store (depletion_of sale user_id) (insert_sale sale user_id s) l))

-- A call of `create_sale` is refused by a check and changes nothing; or the sale is inserted and the
-- stock adjustment raises, which leaves the inserted sale in the session; or all steps are made.
pub create_sale-cases :
    (d : SaleCreate) (user_id business_id : ℕ) (s : Store)
    → ((e : Error) × (create_sale d user_id business_id s ≡ (err e, s)))
      ⊎ ((e : Error) × (sale : Sale) × Checked d user_id business_id s sale
          × (create_sale d user_id business_id s ≡ (err e, insert_sale sale user_id s)))
      ⊎ ((sale : Sale) × (l : InventoryLevel) × Checked d user_id business_id s sale
          × Adjusts (depletion_of sale user_id) (insert_sale sale user_id s) l
          × (create_sale d user_id business_id s ≡ (ok sale.id, recorded_store sale user_id s l)))
unfolding create_sale
create_sale-cases d u b s = elim (checked_sale-cases d u b s) [
  | inl (e, raised) ↦ inl (e, ground arith)
  | inr (sale, checked, passed) ↦
      elim (adjust_stock-cases (depletion_of sale u) (insert_sale sale u s)) [
        | inl (e, raised) ↦ inr (inl (e, sale, checked, ground arith))
        | inr (l, adjusts, done) ↦ inr (inr (sale, l, checked, adjusts, ground arith))
      ]
]
