-- ===== src/Sales/Amend/Amended.antt =====
-- What a correction of a sale does, whether or not it changes the quantity.
use modishlog.Prelude.{
  ℕ, ◌*◌, ◌∙◌, ◌≡◌, refl, ◌⊎◌, true, false, not, ◌||◌, Option, none, some, List, [], ◌∷◌, find,
  find-passes, find-modify, modify, where_, where_-modify_other, or_else, ◌==◌, ==-refl, is_some,
  if◌then◌else◌, arith,
}
use modishlog.Prelude.Int.{ℤ, pos, sub_ℕ, ◌+ℤ◌, ◌-ℤ◌}
use modishlog.Ledger.{or_zero, reverse_ledger_consumption}
use modishlog.Inventory.Model.{batch_target}
use modishlog.Inventory.Stock.OnHand.{on_hand}
use modishlog.Inventory.Fifo.{fifo_deduct}
use modishlog.Sales.Model.{Sale}
use modishlog.Sales.Record.{with_cogs}
use modishlog.Sales.Request.{SaleUpdate, is_empty_update}
use modishlog.Sales.Amend.{is_sale, updated_sale}
use modishlog.Sales.Amend.Final.{is_sale-id}
use modishlog.Store.{Store}

-- The new value is the one that is given, and the old one where none is.
abbrev pub IsGiven : {A : Type 0} → Option A → A → A → Type 0
IsGiven none old new = new ≡ old
IsGiven (some a) old new = new ≡ a

-- The row of a sale after a correction, but for its cost of goods and gross profit.
pub record IsCorrected (d : SaleUpdate) (x x' : Sale) : Type 0 where
  pub quantity : IsGiven d.quantity x.quantity x'.quantity
  pub unit_price : IsGiven d.unit_price x.unit_price x'.unit_price
  pub discount_amount : IsGiven d.discount_amount x.discount_amount x'.discount_amount
  pub sale_date : IsGiven d.sale_date x.sale_date x'.sale_date
  pub channel : IsGiven d.channel x.channel x'.channel
  pub payment_method : IsGiven d.payment_method x.payment_method x'.payment_method
  pub payment_status : IsGiven d.payment_status x.payment_status x'.payment_status
  pub notes : IsGiven d.notes x.notes x'.notes
  pub total : x'.total_amount ≡ (
      if is_some d.quantity || (is_some d.unit_price || is_some d.discount_amount)
      then pos (x'.unit_price * x'.quantity) -ℤ pos (or_zero x'.discount_amount)
      else x.total_amount)
  pub same_id : x'.id ≡ x.id
  pub same_product : x'.product_id ≡ x.product_id
  pub same_variant : x'.variant_id ≡ x.variant_id
  pub same_status : x'.status ≡ x.status

IsGiven-self : {A : Type 0} (o : Option A) (a : A) → is_some o ≡ false → IsGiven o a a
IsGiven-self none a h = refl
IsGiven-self (some b) a h = absurd cc

IsGiven-or_else : {A : Type 0} (o : Option A) (a : A) → IsGiven o a (or_else o a)
IsGiven-or_else none a = refl
IsGiven-or_else (some b) a = refl

pub updated_sale-IsCorrected : (d : SaleUpdate) (x : Sale) → IsCorrected d x (updated_sale d x)
unfolding updated_sale ◌-ℤ◌
updated_sale-IsCorrected d x = record {
  quantity = IsGiven-or_else d.quantity x.quantity;
  unit_price = IsGiven-or_else d.unit_price x.unit_price;
  discount_amount = IsGiven-or_else d.discount_amount x.discount_amount;
  sale_date = IsGiven-or_else d.sale_date x.sale_date;
  channel = IsGiven-or_else d.channel x.channel;
  payment_method = IsGiven-or_else d.payment_method x.payment_method;
  payment_status = IsGiven-or_else d.payment_status x.payment_status;
  notes = IsGiven-or_else d.notes x.notes;
  total = ground arith;
  same_id = refl;
  same_product = refl;
  same_variant = refl;
  same_status = refl;
}

pub with_cogs-IsCorrected :
    (d : SaleUpdate) (x x' : Sale) (c : ℕ) → IsCorrected d x x' → IsCorrected d x (with_cogs c x')
with_cogs-IsCorrected d x x' c h = record {
  quantity = h.quantity;
  unit_price = h.unit_price;
  discount_amount = h.discount_amount;
  sale_date = h.sale_date;
  channel = h.channel;
  payment_method = h.payment_method;
  payment_status = h.payment_status;
  notes = h.notes;
  total = h.total;
  same_id = h.same_id;
  same_product = h.same_product;
  same_variant = h.same_variant;
  same_status = h.same_status;
}

pub empty-IsCorrected : (d : SaleUpdate) (x : Sale) → is_empty_update d ≡ true → IsCorrected d x x
empty-IsCorrected d x e =
    let no_quantity : is_some d.quantity ≡ false = ground arith in
    let no_price : is_some d.unit_price ≡ false = ground arith in
    let no_discount : is_some d.discount_amount ≡ false = ground arith in
    record {
      quantity = IsGiven-self d.quantity x.quantity no_quantity;
      unit_price = IsGiven-self d.unit_price x.unit_price no_price;
      discount_amount = IsGiven-self d.discount_amount x.discount_amount no_discount;
      sale_date = IsGiven-self d.sale_date x.sale_date (ground arith);
      channel = IsGiven-self d.channel x.channel (ground arith);
      payment_method = IsGiven-self d.payment_method x.payment_method (ground arith);
      payment_status = IsGiven-self d.payment_status x.payment_status (ground arith);
      notes = IsGiven-self d.notes x.notes (ground arith);
      total = rw (no_quantity, no_price, no_discount) refl;
      same_id = refl;
      same_product = refl;
      same_variant = refl;
      same_status = refl;
    }

-- Stock and costs where the quantity stays.
pub record IsUnmoved (x x' : Sale) (s s' : Store) : Type 0 where
  pub same_quantity : x'.quantity ≡ x.quantity
  pub same_levels : s'.levels ≡ s.levels
  pub same_batches : s'.batches ≡ s.batches
  pub same_lots : s'.lots ≡ s.lots
  pub same_cogs : x'.fifo_cogs ≡ x.fifo_cogs
  pub same_profit : x'.fifo_gross_profit ≡ x.fifo_gross_profit

-- The cost of the corrected quantity once the old draw is given back, where the sale was costed.
abbrev pub IsRecosted : Sale → Sale → Store → Type 0
IsRecosted x x' s =
    ((x.fifo_cogs ≡ none) × (x'.fifo_cogs ≡ none))
    ⊎ ((cogs : ℕ) × (cogs
          ≡ (fifo_deduct x.product_id x'.quantity x.variant_id (some x.id)
              (reverse_ledger_consumption (x.id ∷ []) s.batches)).cogs)
        × (x'.fifo_cogs ≡ some cogs)
        × (x'.fifo_gross_profit ≡ some (x'.total_amount -ℤ pos cogs)))

-- Stock and costs where the quantity changes.
pub record IsMoved (x x' : Sale) (s s' : Store) : Type 0 where
  pub new_quantity : (x'.quantity == x.quantity) ≡ false
  pub stock :
      (before : ℤ) × (on_hand x.product_id x.variant_id s.levels ≡ some before)
      × (on_hand x.product_id x.variant_id s'.levels
          ≡ some (before +ℤ sub_ℕ x.quantity x'.quantity))
  pub cost : IsRecosted x x' s

-- The session after a correction of the sale `x`.
pub record IsAmended (i : ℕ) (b : Option ℕ) (d : SaleUpdate) (x : Sale) (s s' : Store)
    : Type 0 where
  pub row : Sale
  pub stored : find (is_sale i b) s'.sales ≡ some row
  pub corrected : IsCorrected d x row
  pub others :
      where_ (λ (y : Sale). not (y.id == x.id)) s'.sales
      ≡ where_ (λ (y : Sale). not (y.id == x.id)) s.sales
  pub stock_and_cost : IsUnmoved x row s s' ⊎ IsMoved x row s s'

find-put :
    (i : ℕ) (b : Option ℕ) (x x' : Sale) (xs : List Sale)
    → find (is_sale i b) xs ≡ some x
    → is_sale i b x' ≡ true
    → (x.id == i) ≡ true
    → find (is_sale i b) (modify (λ (y : Sale). y.id == x.id) (λ y. x') xs) ≡ some x'
find-put i b x x' [] f own e = cc
find-put i none x x' (y ∷ ys) f own e = ground (arith, find-put i none x x' ys)
find-put i (some b) x x' (y ∷ ys) f own e = ground (arith, find-put i (some b) x x' ys)

is_sale-with_cogs :
    (i : ℕ) (b : Option ℕ) (c : ℕ) (y : Sale) → is_sale i b (with_cogs c y) ≡ is_sale i b y
is_sale-with_cogs i none c y = refl
is_sale-with_cogs i (some b) c y = refl

is_sale-updated :
    (i : ℕ) (b : Option ℕ) (d : SaleUpdate) (y : Sale)
    → is_sale i b (updated_sale d y) ≡ is_sale i b y
unfolding updated_sale
is_sale-updated i none d y = refl
is_sale-updated i (some b) d y = refl

-- The corrected row in the table, before and after the costs are stamped on it.
module _ (i : ℕ) (b : Option ℕ) (d : SaleUpdate) (x : Sale) (s : Store)
    (found : find (is_sale i b) s.sales ≡ some x) where
  abbrev pub put : List Sale
  put = modify (λ (y : Sale). y.id == x.id) (λ y. updated_sale d x) s.sales

  pub find-corrected : find (is_sale i b) put ≡ some (updated_sale d x)
  find-corrected =
      let own = find-passes (is_sale i b) s.sales x found in
      find-put i b x (updated_sale d x) s.sales found (is_sale-updated i b d x ∙ own)
        (is_sale-id i b x own)

  pub find-stamped :
      (c : ℕ)
      → find (is_sale i b) (modify (λ (y : Sale). y.id == (updated_sale d x).id) (with_cogs c) put)
        ≡ some (with_cogs c (updated_sale d x))
  find-stamped c =
      find-modify (is_sale i b) (λ (y : Sale). y.id == (updated_sale d x).id) (with_cogs c) put
        (updated_sale d x) (is_sale-with_cogs i b c) (==-refl (updated_sale d x).id) find-corrected

  pub others-put :
      where_ (λ (y : Sale). not (y.id == x.id)) put
      ≡ where_ (λ (y : Sale). not (y.id == x.id)) s.sales
  unfolding updated_sale
  others-put =
      let here = ==-refl x.id in
      where_-modify_other _ _ (λ y. updated_sale d x) s.sales (λ y hit. (rw hit refl, rw here refl))

  pub others-stamped :
      (c : ℕ)
      → where_
          (λ (y : Sale). not (y.id == x.id))
          (modify (λ (y : Sale). y.id == (updated_sale d x).id) (with_cogs c) put)
        ≡ where_ (λ (y : Sale). not (y.id == x.id)) s.sales
  unfolding updated_sale
  others-stamped c =
      where_-modify_other _ _ (with_cogs c) put (λ y hit. (rw hit refl, rw hit refl)) ∙ others-put
