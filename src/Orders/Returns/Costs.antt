-- ===== src/Orders/Returns/Costs.antt =====
-- The costs at which a purchase return takes its lines.
use modishlog.Prelude.{
  ℕ, ◌+◌, ◌*◌, ◌≡◌, refl, ◌∙◌, Bool, ◌&&◌, Option, none, some, List, [], ◌∷◌, ◌++◌, ◌==◌,
  Bool-cases, Option-cases, inl, inr, find, same_id, same_id→eq, ==_iff, arith,
}
use modishlog.Orders.Model.{OrderLineItem}
use modishlog.Orders.Returns.{ReturnLine, cost_of}

abbrev pub is_item_of : ℕ → Option ℕ → OrderLineItem → Bool
is_item_of p v i = (i.product_id == p) && same_id i.variant_id v

-- The line item is the last one of the order for the product and variant.
pub record IsLastItem (p : ℕ) (v : Option ℕ) (items : List OrderLineItem) (i : OrderLineItem)
    : Type 0 where
  pub same_product : i.product_id ≡ p
  pub same_variant : i.variant_id ≡ v
  pub place :
      (before : List OrderLineItem) × (after : List OrderLineItem) × (items ≡ before ++ (i ∷ after))
      × (find (is_item_of p v) after ≡ none)

-- The total has every line's units at the cost of the order's last line item for its product and variant.
abbrev pub IsPriced : List OrderLineItem → List ReturnLine → ℕ → Type 0
IsPriced items [] total = total ≡ 0
IsPriced items (l ∷ ls) total =
    (i : OrderLineItem) × (rest : ℕ) × IsLastItem l.product_id l.variant_id items i
    × IsPriced items ls rest
    × (total ≡ i.unit_cost * l.quantity + rest)

no_item :
    (p : ℕ) (v : Option ℕ) (items : List OrderLineItem)
    → cost_of items p v ≡ none
    → find (is_item_of p v) items ≡ none
no_item p v [] e = refl
no_item p v (i ∷ is) e = elim (Option-cases (cost_of is p v)) [
  | inl none_ ↦ elim (Bool-cases (is_item_of p v i)) [
    | inl hit ↦ absurd (cc (rw (none_, hit) at e))
    | inr miss ↦ rw miss (no_item p v is none_)
  ]
  | inr (c, some_) ↦ absurd (cc (rw some_ at e))
]

pub cost_of-IsLastItem :
    (p : ℕ) (v : Option ℕ) (items : List OrderLineItem) (c : ℕ)
    → cost_of items p v ≡ some c
    → (i : OrderLineItem) × IsLastItem p v items i × (i.unit_cost ≡ c)
cost_of-IsLastItem p v [] c e = absurd cc
cost_of-IsLastItem p v (i ∷ is) c e = elim (Option-cases (cost_of is p v)) [
  | inl none_ ↦ elim (Bool-cases (is_item_of p v i)) [
    | inl hit ↦ (
      i,
      record {
        same_product = (==_iff i.product_id p).0 (ground arith);
        same_variant = same_id→eq i.variant_id v (ground arith);
        place = ([], is, refl, no_item p v is none_);
      },
      cc (rw (none_, hit) at e),
    )
    | inr miss ↦ absurd (cc (rw (none_, miss) at e))
  ]
  | inr (c', some_) ↦
      let same : c' ≡ c = cc (rw some_ at e) in
      let (j, last, cost) = cost_of-IsLastItem p v is c' some_ in
      let (before, after, split, later) = last.place in
      (
        j,
        record {
          same_product = last.same_product;
          same_variant = last.same_variant;
          place = (i ∷ before, after, rw split refl, later);
        },
        cost ∙ same,
      )
]
