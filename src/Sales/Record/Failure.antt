-- ===== src/Sales/Record/Failure.antt =====
-- What a `create_sale` that raises leaves in the session.
use modishlog.Prelude.{ℕ, ◌≡◌, refl, ◌⊎◌, inl, inr, none, [], ◌∷◌, ◌++◌}
use modishlog.Sales.Model.{Sale, SaleStatus}
use modishlog.Sales.Request.{SaleCreate}
use modishlog.Sales.Record.{create_sale, insert_sale, new_sale}
use modishlog.Sales.Record.Outcome.{Checked, create_sale-cases}
use modishlog.Store.{Store, Error, err}

-- A completed sale without costs was added, and no stock taken for it.
pub record IsStranded (s s' : Store) : Type 0 where
  pub sale : Sale
  pub row : s'.sales ≡ s.sales ++ (sale ∷ [])
  pub completed : sale.status ≡ SaleStatus.completed
  pub uncosted : sale.fifo_cogs ≡ none
  pub levels_same : s'.levels ≡ s.levels
  pub movements_same : s'.movements ≡ s.movements
  pub batches_same : s'.batches ≡ s.batches
  pub lots_same : s'.lots ≡ s.lots

stranded :
    (d : SaleCreate) (u b : ℕ) (s : Store) (sale : Sale)
    → Checked d u b s sale
    → IsStranded s (insert_sale sale u s)
unfolding insert_sale
stranded d u b s sale (product, price, le, e) = record {
  sale = sale;
  row = refl;
  completed = rw e (unfold new_sale in refl);
  uncosted = rw e (unfold new_sale in refl);
  levels_same = refl;
  movements_same = refl;
  batches_same = refl;
  lots_same = refl;
}

-- For every `create_sale` that raises: the session is as it was, or it differs in stranding a completed
-- sale, for which no stock was taken and no cost stamped.
pub create_sale-failed :
    (d : SaleCreate) (u b : ℕ) (s : Store) (e : Error)
    → (create_sale d u b s).0 ≡ err e
    → ((create_sale d u b s).1 ≡ s) ⊎ IsStranded s (create_sale d u b s).1
create_sale-failed d u b s e raised = elim (create_sale-cases d u b s) [
  | inl (e', h) ↦ inl (rw h refl)
  | inr (inl (e', sale, checked, h)) ↦ inr (rw h (stranded d u b s sale checked))
  | inr (inr (sale, l, checked, adjusts, h)) ↦ absurd (cc (rw h at raised))
]
