-- ===== src/Ledger.antt =====
-- backend/src/core/query_helpers.py: the consumption ledgers. A sale draws units from target rows
-- (inventory batches, or order line items as lots) and records each draw in a ledger entry, so that
-- the draw can be reversed. `Target` is what the ledger needs of a target table; the two tables
-- fill it in Inventory/Model.antt.
pub mod Laws
pub mod Draws
use modishlog.Prelude.{
  ℕ, ◌+◌, ◌-◌, ◌≡◌, Bool, true, false, not, ◌||◌, Option, none, some, List, [], ◌∷◌, ◌++◌, map,
  ◌==◌, if◌then◌else◌, same_id, where_, modify,
}

-- A row of `fifo_consumptions` or `lot_consumptions`.
pub record Consumption : Type 0 where
  pub sale_id : ℕ
  pub target_id : ℕ
  pub quantity_consumed : ℕ

-- A target table with its primary key and its quantity column, which may be NULL.
pub record Target (A : Type 0) : Type 0 where
  pub key : A → ℕ
  pub quantity : A → Option ℕ
  pub set_quantity : ℕ → A → A
  pub key-set : (n : ℕ) (a : A) → key (set_quantity n a) ≡ key a
  pub quantity-set : (n : ℕ) (a : A) → quantity (set_quantity n a) ≡ some n
  pub set-set : (m n : ℕ) (a : A) → set_quantity m (set_quantity n a) ≡ set_quantity m a
  pub set_self : (n : ℕ) (a : A) → quantity a ≡ some n → set_quantity n a ≡ a

-- A target table and the ledger of what sales drew from it.
pub record Ledger (A : Type 0) : Type 0 where
  pub rows : List A
  pub entries : List Consumption

-- `variant_or_untagged_filter`, on the value of the variant column.
unfoldable pub variant_or_untagged : Option ℕ → Option ℕ → Bool
variant_or_untagged variant_id none = true
variant_or_untagged none (some tagged) = false
variant_or_untagged (some v) (some tagged) = tagged == v

-- `column.in_(ids)`
abbrev pub in_ids : List ℕ → ℕ → Bool
in_ids [] x = false
in_ids (i ∷ is) x = (x == i) || in_ids is x

abbrev pub or_zero : Option ℕ → ℕ
or_zero none = 0
or_zero (some n) = n

-- One consumed quantity added to the totals by target.
unfoldable pub add_delta : ℕ → ℕ → List (ℕ × ℕ) → List (ℕ × ℕ)
add_delta t n [] = (t, n) ∷ []
add_delta t n ((u, m) ∷ d) = if u == t then (u, m + n) ∷ d else (u, m) ∷ add_delta t n d

-- `select target_id, sum(quantity) ... where sale_id in (...) group by target_id`
unfoldable pub deltas_of : List ℕ → List Consumption → List (ℕ × ℕ)
unfolding add_delta
deltas_of sale_ids [] = []
deltas_of sale_ids (c ∷ cs) =
    let rest = deltas_of sale_ids cs in
    if in_ids sale_ids c.sale_id then add_delta c.target_id c.quantity_consumed rest else rest

abbrev pub delta_for : ℕ → List (ℕ × ℕ) → Option ℕ
delta_for t [] = none
delta_for t ((u, m) ∷ d) = if u == t then some m else delta_for t d

module _ {A : Type 0} ⦃t : Target A⦄ where
  -- `setattr(target, quantity, (current or zero) + deltas[target.id])`, if the target has a delta
  unfoldable pub credit : List (ℕ × ℕ) → A → A
  credit deltas a = elim (delta_for (t.key a) deltas) [
    | none ↦ a
    | some n ↦ t.set_quantity (or_zero (t.quantity a) + n) a
  ]

  -- `if not deltas: return`; else the targets are credited and the ledger rows deleted.
  unfoldable pub apply_deltas : List ℕ → List (ℕ × ℕ) → Ledger A → Ledger A
  unfolding credit
  apply_deltas ids [] l = l
  apply_deltas ids (d ∷ ds) l = record {
    rows = map (credit (d ∷ ds)) l.rows;
    entries = where_ (λ c. not (in_ids ids c.sale_id)) l.entries;
  }

  -- `if not sale_ids: return`
  unfoldable pub reverse_ledger_consumption : List ℕ → Ledger A → Ledger A
  unfolding apply_deltas deltas_of
  reverse_ledger_consumption [] l = l
  reverse_ledger_consumption (i ∷ is) l = apply_deltas (i ∷ is) (deltas_of (i ∷ is) l.entries) l

  -- One pass of a deduction loop over a target: `target.quantity -= n`, and the entry if the caller
  -- gave a sale.
  unfoldable pub consume : Option ℕ → ℕ → ℕ → Ledger A → Ledger A
  consume sale_id target n l = record {
    rows =
        modify (λ a. t.key a == target) (λ a. t.set_quantity (or_zero (t.quantity a) - n) a) l.rows;
    entries = elim sale_id [
      | none ↦ l.entries
      | some s ↦
          l.entries ++ (record { sale_id = s; target_id = target; quantity_consumed = n } ∷ [])
    ];
  }
