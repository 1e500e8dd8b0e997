-- ===== src/Orders/Delivery/Runs.antt =====
-- Sequences of successful transitions of one order.
use modishlog.Prelude.{ℕ, ◌+◌, ◌≡◌, ◌⊎◌, Option, none, some, find, sym, ◌∙◌}
use mathlib.Core.Option.{some-injective}
use modishlog.Orders.Model.{PurchaseOrder, cancelled}
use modishlog.Orders.Status.{is_order, status_number}
use modishlog.Orders.Status.Lifecycle.{Moves, stay, move, Moves-number}
use modishlog.Orders.Delivery.{StatusTransition, transition_status}
use modishlog.Orders.Delivery.Transition.{transition_status-Moved}
use modishlog.Store.{Store, ok}

-- `n` successful calls of `transition_status` for the order `i`.
pub data Transitions (i : ℕ) : Store → Store → ℕ → Type 0 where
  start : {s : Store} → Transitions i s s 0
  next :
      {s s' : Store} {n : ℕ} (t : StatusTransition) (u : ℕ) (g : Option ℕ)
      → (transition_status i t u g s).0 ≡ ok tt
      → Transitions i (transition_status i t u g s).1 s' n
      → Transitions i s s' (n + 1)

Transitions-Moves :
    {i : ℕ} {s s' : Store} {n : ℕ}
    → Transitions i s s' n
    → (o : PurchaseOrder) → find (is_order i none) s.orders ≡ some o
    → (o' : PurchaseOrder) × (find (is_order i none) s'.orders ≡ some o')
      × Moves o.status o'.status n
Transitions-Moves start o found = (o, found, stay)
Transitions-Moves {i} {s} (next t u g done rest) o found =
    let m = transition_status-Moved i t u g s done in
    let same : m.before ≡ o = some-injective m.before o (sym m.was ∙ found) in
    let (o', found', moves) = Transitions-Moves rest m.after m.is_now in
    (o', found', move (rw (← same, m.status) m.allowed) moves)

-- After any `n` successful transitions of an order it is still stored, and either it is cancelled or
-- its status is exactly `n` steps further on the way from ordered to delivered: no status is skipped
-- or gone back on.
pub Transitions-number :
    {i : ℕ} {s s' : Store} {n : ℕ}
    → Transitions i s s' n
    → (o : PurchaseOrder) → find (is_order i none) s.orders ≡ some o
    → (o' : PurchaseOrder) × (find (is_order i none) s'.orders ≡ some o')
      × ((status_number o'.status ≡ status_number cancelled)
          ⊎ (status_number o'.status ≡ status_number o.status + n))
Transitions-number run o found =
    let (o', found', moves) = Transitions-Moves run o found in (o', found', Moves-number moves)
