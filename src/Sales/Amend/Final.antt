-- ===== src/Sales/Amend/Final.antt =====
-- A voided sale stays as it is.
use modishlog.Prelude.{
  ℕ, ◌≡◌, refl, ◌⊎◌, true, false, Option, none, some, List, [], ◌∷◌, String, Bool-cases,
  Option-cases, inl, inr, find, find-passes, modify, ◌==◌, arith,
}
use modishlog.Inventory.Model.{InventoryLevel}
use modishlog.Inventory.Stock.{apply_adjustment}
use modishlog.Inventory.Stock.Journal.{adjust_stock-cases}
use modishlog.Inventory.Fifo.{reverse_fifo_consumption}
use modishlog.Sales.Model.{Sale}
use modishlog.Sales.Lots.{reverse_lot_consumption}
use modishlog.Sales.Request.{SaleUpdate}
use modishlog.Sales.Amend.{is_sale, get_sale, is_voided, restoration_of, void_sale, update_sale}
use modishlog.Sales.Amend.Void.{voided, marked_store, voided_store}
use modishlog.Store.{Store, Error, ok, err, sale_not_found, sale_already_voided}

-- How a call of `void_sale` ends.
pub void_sale-cases :
    (i : ℕ) (reason : String) (u : ℕ) (b : Option ℕ) (s : Store)
    → ((e : Error) × ((void_sale i reason u b s).0 ≡ err e))
      ⊎ ((x : Sale) × (l : InventoryLevel) × (find (is_sale i b) s.sales ≡ some x)
          × (is_voided x ≡ false)
          × (void_sale i reason u b s ≡ (ok tt, voided_store x reason u s l)))
unfolding void_sale get_sale
void_sale-cases i reason u b s = elim (Option-cases (find (is_sale i b) s.sales)) [
  | inl missing ↦ inl (sale_not_found i, ground arith)
  | inr (x, found) ↦ elim (Bool-cases (is_voided x)) [
    | inl closed ↦ inl (sale_already_voided i, ground arith)
    | inr open_ ↦
        elim (adjust_stock-cases (restoration_of (voided x) reason u) (marked_store x reason u s)) [
          | inl (e, raised) ↦ inl (e, ground arith)
          | inr (l, adjusts, done) ↦ inr (x, l, found, open_, ground arith)
        ]
  ]
]

find-voided :
    (i : ℕ) (b : Option ℕ) (x : Sale) (xs : List Sale)
    → find (is_sale i b) xs ≡ some x
    → is_sale i b x ≡ true
    → (x.id == i) ≡ true
    → find (is_sale i b) (modify (λ (y : Sale). y.id == x.id) (λ y. voided x) xs) ≡ some (voided x)
find-voided i b x [] f own e = cc
find-voided i none x (y ∷ ys) f own e = ground (arith, find-voided i none x ys)
find-voided i (some b) x (y ∷ ys) f own e = ground (arith, find-voided i (some b) x ys)

pub is_sale-id : (i : ℕ) (b : Option ℕ) (x : Sale) → is_sale i b x ≡ true → (x.id == i) ≡ true
is_sale-id i none x e = e
is_sale-id i (some b) x e = ground arith

closed-refused :
    (i : ℕ) (b : Option ℕ) (s : Store) (x : Sale)
    → find (is_sale i b) s.sales ≡ some x
    → is_voided x ≡ true
    → ((reason : String) (u : ℕ) → void_sale i reason u b s ≡ (err (sale_already_voided i), s))
      × ((d : SaleUpdate) (u : ℕ) → update_sale i d u b s ≡ (err (sale_already_voided i), s))
unfolding void_sale update_sale get_sale
closed-refused i b s x found closed = (λ reason u. ground arith, λ d u. ground arith)

-- After a `void_sale` that returned, every further `void_sale` or `update_sale` of the sale by the same
-- business is refused as already voided, and changes nothing.
pub void_sale-final :
    (i : ℕ) (reason : String) (u : ℕ) (b : Option ℕ) (s : Store)
    → (void_sale i reason u b s).0 ≡ ok tt
    → let s' = (void_sale i reason u b s).1 in
      ((reason' : String) (u' : ℕ)
        → void_sale i reason' u' b s' ≡ (err (sale_already_voided i), s'))
      × ((d : SaleUpdate) (u' : ℕ) → update_sale i d u' b s' ≡ (err (sale_already_voided i), s'))
unfolding reverse_fifo_consumption reverse_lot_consumption apply_adjustment
void_sale-final i reason u b s done = elim (void_sale-cases i reason u b s) [
  | inl (e, raised) ↦ absurd (cc (rw raised at done))
  | inr (x, l, found, open_, returned) ↦
      let own = find-passes (is_sale i b) s.sales x found in
      rw returned (
        closed-refused i b (voided_store x reason u s l) (voided x)
          (find-voided i b x s.sales found own (is_sale-id i b x own)) refl)
]
