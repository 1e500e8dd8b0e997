-- ===== src/Sales/Amend/Moves.antt =====
-- The steps of `update_sale`: the row is edited, and the stock follows a new quantity.
use modishlog.Prelude.{
  ℕ, ◌≡◌, refl, true, false, not, ◌&&◌, Option, none, some, Bool-cases, Option-cases, inl, inr,
  find, modify, ◌==◌, ==_iff, is_some, if◌then◌else◌, arith,
}
use modishlog.Inventory.Model.{InventoryLevel, batch_target}
use modishlog.Inventory.Stock.{adjust_stock}
use modishlog.Inventory.Stock.Journal.{Adjusts, adjusted_store, adjust_stock-cases}
use modishlog.Sales.Model.{Sale, AuditAction}
use modishlog.Sales.Request.{SaleUpdate, is_empty_update}
use modishlog.Sales.Amend.{
  is_sale, get_sale, is_voided, put_sale, add_audit, correction_of, update_sale, updated_sale,
  resync, field_changes_of, is_nil,
}
use modishlog.Store.{Store, Service, Error, ok, err, when, modify_store, ◌>>◌}

-- The session with the corrected row and its audit entry.
abbrev pub edited_store : SaleUpdate → Sale → ℕ → Store → Store
edited_store d x u s =
    if is_nil (field_changes_of d x)
    then put_sale (updated_sale d x) s
    else add_audit (updated_sale d x).id AuditAction.updated (field_changes_of d x) u none
        (put_sale (updated_sale d x) s)

-- What of the call follows for another quantity.
abbrev pub move_stock : SaleUpdate → Sale → ℕ → Service (Unit {0})
move_stock d x u = when (is_some d.quantity && not ((updated_sale d x).quantity == x.quantity)) (do
  adjust_stock (correction_of x.quantity (updated_sale d x) u)
  when (is_some (updated_sale d x).fifo_cogs) (modify_store (resync (updated_sale d x))))

pub update_sale-edited :
    (i : ℕ) (d : SaleUpdate) (u : ℕ) (b : Option ℕ) (s : Store) (x : Sale)
    → find (is_sale i b) s.sales ≡ some x
    → is_voided x ≡ false
    → is_empty_update d ≡ false
    → update_sale i d u b s ≡ move_stock d x u (edited_store d x u s)
unfolding update_sale get_sale
update_sale-edited i d u b s x found open_ some_ =
    elim (Bool-cases (is_nil (field_changes_of d x))) [
      | inl same ↦ ground arith
      | inr differs ↦ ground arith
    ]

pub update_sale-empty :
    (i : ℕ) (d : SaleUpdate) (u : ℕ) (b : Option ℕ) (s : Store) (x : Sale)
    → find (is_sale i b) s.sales ≡ some x
    → is_voided x ≡ false
    → is_empty_update d ≡ true
    → update_sale i d u b s ≡ (ok tt, s)
unfolding update_sale get_sale
update_sale-empty i d u b s x found open_ none_ = ground arith

-- Only the sales and the audit entries are edited.
pub record IsEdited (d : SaleUpdate) (x : Sale) (s s' : Store) : Type 0 where
  pub sales : s'.sales ≡ modify (λ (y : Sale). y.id == x.id) (λ y. updated_sale d x) s.sales
  pub levels : s'.levels ≡ s.levels
  pub batches : s'.batches ≡ s.batches
  pub lots : s'.lots ≡ s.lots

pub edited_store-IsEdited :
    (d : SaleUpdate) (x : Sale) (u : ℕ) (s : Store) → IsEdited d x s (edited_store d x u s)
unfolding updated_sale
edited_store-IsEdited d x u s = elim (Bool-cases (is_nil (field_changes_of d x))) [
  | inl same ↦ rw same (record { sales = refl; levels = refl; batches = refl; lots = refl })
  | inr differs ↦ rw differs (record { sales = refl; levels = refl; batches = refl; lots = refl })
]

-- The correction does not fit the stock, or it has none to fit, which takes another quantity.
abbrev pub IsRefused : SaleUpdate → Sale → Error → Type 0
IsRefused d x e = (q : ℕ) × (d.quantity ≡ some q) × ((q == x.quantity) ≡ false)

-- How the stock follows.
pub data Moved (d : SaleUpdate) (x : Sale) (u : ℕ) (s : Store) : Type 0 where
  unmoved :
      (updated_sale d x).quantity ≡ x.quantity → move_stock d x u s ≡ (ok tt, s) → Moved d x u s
  refused : (e : Error) → IsRefused d x e → (move_stock d x u s).0 ≡ err e → Moved d x u s
  uncosted :
      (l : InventoryLevel)
      → ((updated_sale d x).quantity == x.quantity) ≡ false
      → Adjusts (correction_of x.quantity (updated_sale d x) u) s l
      → x.fifo_cogs ≡ none
      → move_stock d x u s
        ≡ (ok tt, adjusted_store (correction_of x.quantity (updated_sale d x) u) s l)
      → Moved d x u s
  recosted :
      (l : InventoryLevel)
      → ((updated_sale d x).quantity == x.quantity) ≡ false
      → Adjusts (correction_of x.quantity (updated_sale d x) u) s l
      → move_stock d x u s ≡ (
        ok tt,
        resync
            (updated_sale d x)
            (adjusted_store (correction_of x.quantity (updated_sale d x) u) s l),
      )
      → Moved d x u s

pub move_stock-Moved : (d : SaleUpdate) (x : Sale) (u : ℕ) (s : Store) → Moved d x u s
unfolding updated_sale
move_stock-Moved d x u s = elim (Option-cases d.quantity) [
  | inl kept ↦ unmoved (ground arith) (ground arith)
  | inr (q, given) ↦ elim (Bool-cases (q == x.quantity)) [
    | inl same ↦ unmoved (rw given ((==_iff q x.quantity).0 same)) (ground arith)
    | inr other ↦
        let new : ((updated_sale d x).quantity == x.quantity) ≡ false = rw given other in
        elim (adjust_stock-cases (correction_of x.quantity (updated_sale d x) u) s) [
          | inl (e, raised) ↦ refused e (q, given, other) (ground arith)
          | inr (l, adjusts, done) ↦ elim (Option-cases x.fifo_cogs) [
            | inl never ↦ uncosted l new adjusts never (ground arith)
            | inr (c, costed) ↦ recosted l new adjusts (ground arith)
          ]
        ]
  ]
]
