-- ===== src/Orders/Status/Lifecycle.antt =====
-- The order of the statuses that `VALID_TRANSITIONS` allows.
use modishlog.Prelude.{ℕ, ◌+◌, ◌≡◌, ◌⊎◌, inl, inr, true, arith}
use modishlog.Orders.Model.{
  OrderStatus, ordered, pending, in_production, shipping, cleared, delivered, cancelled,
}
use modishlog.Orders.Status.{valid_transitions, among, status_number}

-- A chain of allowed transitions, with its length.
pub data Moves : OrderStatus → OrderStatus → ℕ → Type 0 where
  stay : {a : OrderStatus} → Moves a a 0
  move :
      {a b c : OrderStatus} {n : ℕ}
      → among b (valid_transitions a) ≡ true
      → Moves b c n
      → Moves a c (n + 1)

-- An allowed transition cancels, or goes to the next status.
pub allowed-number :
    (a b : OrderStatus)
    → among b (valid_transitions a) ≡ true
    → (status_number b ≡ status_number cancelled) ⊎ (status_number b ≡ status_number a + 1)
unfolding valid_transitions
allowed-number ordered b h = ground arith
allowed-number pending b h = ground arith
allowed-number in_production b h = ground arith
allowed-number shipping b h = ground arith
allowed-number cleared b h = ground arith
allowed-number delivered b h = ground arith
allowed-number cancelled b h = ground arith

-- Nothing is allowed from a cancelled order.
cancelled-Moves :
    {b c : OrderStatus} {n : ℕ} → Moves b c n → status_number b ≡ 6 → status_number c ≡ 6
unfolding valid_transitions
cancelled-Moves stay e = e
cancelled-Moves {b} (move h m) e = absurd (final b _ e h)
  where
    final : (b x : OrderStatus) → status_number b ≡ 6 → among x (valid_transitions b) ≡ true → ⊥
    final cancelled x e h = cc
    final ordered x e h = omega arith
    final pending x e h = omega arith
    final in_production x e h = omega arith
    final shipping x e h = omega arith
    final cleared x e h = omega arith
    final delivered x e h = omega arith

-- Along any chain of allowed transitions an order ends up cancelled, or every transition took it
-- exactly one status further: none is skipped, repeated or gone back on.
pub Moves-number :
    {a c : OrderStatus} {n : ℕ}
    → Moves a c n
    → (status_number c ≡ status_number cancelled) ⊎ (status_number c ≡ status_number a + n)
Moves-number stay = inr (omega arith)
Moves-number (move {a} {b} {c} {n} h m) = elim (allowed-number a b h) [
  | inl e ↦ inl (cancelled-Moves m e)
  | inr next ↦ elim (Moves-number m) [ inl e ↦ inl e | inr e ↦ inr (omega arith) ]
]
