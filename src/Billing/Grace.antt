-- ===== src/Billing/Grace.antt =====
-- The grace period of a business whose payment failed.
use modishlog.Prelude.{
  find-modify, find-All, ℕ, ◌+◌, ◌-◌, ◌≤◌, ◌<◌, ◌≡◌, refl, ◌≢◌, true, false, none, some, List, [],
  ◌∷◌, All, ◌==◌, find, arith,
}
use modishlog.Accounts.Model.{Business, SubscriptionStatus, active, past_due, read_only, canceled}
use modishlog.Accounts.{Accounts}
use modishlog.Billing.{
  same_subscription_status, expire, is_expired, grace_period, Method, require_active_subscription,
  check_expired_grace_periods,
}
use modishlog.Billing.Lifecycle.{
  View, view, Step, stay, paid, subscribed, failed, disabled, lapsed, Evolves, Pairwise,
  find-Pairwise,
}
use modishlog.Billing.Calls.{
  BillingCall, BillingCalls, start, call, BillingCall-Evolves, BillingCall-now, BillingCalls-now,
}

-- Not read-only, with a grace period that starts at a time or later, if at all.
unfoldable Covered : ℕ → View → Type 0
Covered t (st, c) = (st ≢ read_only) × ((u : ℕ) → c ≡ some u → t ≤ u)

Step-Covered :
    (t now : ℕ) (v w : View)
    → t ≤ now
    → now < t + grace_period
    → Step now v w
    → Covered t v
    → Covered t w
unfolding Covered
Step-Covered t now v w le lt stay h = h
Step-Covered t now v w le lt (paid) h = ((λ e. cc), λ u e. absurd cc)
Step-Covered t now v w le lt (subscribed) h = ((λ e. cc), h.1)
Step-Covered t now v w le lt (failed {c = none}) h = ((λ e. cc), λ u e. ground arith)
Step-Covered t now v w le lt (failed {c = some c}) h = ((λ e. cc), λ u e. h.1 u e)
Step-Covered t now v w le lt (disabled) h = ((λ e. cc), h.1)
Step-Covered t now v w le lt (lapsed {t = c} due) h = absurd (let k = h.1 c refl in omega arith)

Evolves-ids : (now : ℕ) (a b : Business) → Evolves now a b → b.id ≡ a.id
Evolves-ids now a b h = h.0

-- A business is found again after a call, with one step made.
stepped :
    {s s' : Accounts} (i : ℕ) (b : Business)
    → BillingCall s s'
    → find (λ (x : Business). x.id == i) s.businesses ≡ some b
    → (b' : Business) × (find (λ (x : Business). x.id == i) s'.businesses ≡ some b')
      × Evolves s.now b b'
stepped {s} {s'} i b c found =
    find-Pairwise (Evolves s.now) i s.businesses s'.businesses b (Evolves-ids s.now)
      (BillingCall-Evolves c) found

calls-Covered :
    {s s' : Accounts} (t i : ℕ) (b : Business)
    → BillingCalls s s'
    → t ≤ s.now
    → s'.now < t + grace_period
    → find (λ (x : Business). x.id == i) s.businesses ≡ some b
    → Covered t (view b)
    → (b' : Business) × (find (λ (x : Business). x.id == i) s'.businesses ≡ some b')
      × Covered t (view b')
calls-Covered t i b start le lt found h = (b, found, h)
calls-Covered {s} t i b (call c cs) le lt found h =
    let (b', found', evolved) = stepped i b c found in
    let first = BillingCall-now c in
    let rest = BillingCalls-now cs in
    calls-Covered t i b' cs (omega arith) (omega arith) found'
      (Step-Covered t s.now (view b) (view b') le (omega arith) evolved.1 h)

differs : (st : SubscriptionStatus) → st ≢ read_only → same_subscription_status st read_only ≡ false
differs read_only h = absurd (h refl)
differs SubscriptionStatus.trialing h = refl
differs active h = refl
differs past_due h = refl
differs canceled h = refl

may_write :
    (m : Method) (b : Business)
    → b.subscription_status ≢ read_only
    → require_active_subscription m (some b) ≡ true
unfolding require_active_subscription
may_write m b h = let no = differs b.subscription_status h in ground arith

-- A business that is not read-only and has no grace period running may make every request for the next
-- three days: whatever webhook events, checkouts and expiry checks follow, in whatever order, while less
-- than the grace period has passed, `require_active_subscription` lets it pass.
pub BillingCalls-may_write :
    {s s' : Accounts} (i : ℕ) (b : Business) (m : Method)
    → BillingCalls s s'
    → find (λ (x : Business). x.id == i) s.businesses ≡ some b
    → b.subscription_status ≢ read_only
    → b.past_due_since ≡ none
    → s'.now < s.now + grace_period
    → (b' : Business) × (find (λ (x : Business). x.id == i) s'.businesses ≡ some b')
      × (require_active_subscription m (some b') ≡ true)
unfolding Covered
BillingCalls-may_write {s} i b m cs found st c lt =
    let (b', found', safe) =
      calls-Covered s.now i b cs (omega arith) lt found (st, λ u e. absurd cc) in
    (b', found', may_write m b' safe.0)

-- A past due business has a start of its grace period, and no start is in the future.
unfoldable pub IsTimed : ℕ → View → Type 0
IsTimed now (st, c) = (st ≡ past_due → (t : ℕ) × (c ≡ some t)) × ((t : ℕ) → c ≡ some t → t ≤ now)

Step-IsTimed :
    (now later : ℕ) (v w : View) → now ≤ later → Step now v w → IsTimed now v → IsTimed later w
unfolding IsTimed
Step-IsTimed now later v w le stay h = (h.0, λ t e. let k = h.1 t e in omega arith)
Step-IsTimed now later v w le (paid) h = ((λ e. absurd cc), λ t e. absurd cc)
Step-IsTimed now later v w le (subscribed) h =
    ((λ e. absurd cc), λ t e. let k = h.1 t e in omega arith)
Step-IsTimed now later v w le (failed {c = none}) h = ((λ e. (now, refl)), λ t e. ground arith)
Step-IsTimed now later v w le (failed {c = some c}) h =
    ((λ e. (c, refl)), λ t e. let k = h.1 t e in omega arith)
Step-IsTimed now later v w le (disabled) h =
    ((λ e. absurd cc), λ t e. let k = h.1 t e in omega arith)
Step-IsTimed now later v w le (lapsed {t = c} due) h =
    ((λ e. absurd cc), λ t e. let k = h.1 t e in omega arith)

Pairwise-IsTimed :
    (now later : ℕ) (xs ys : List Business)
    → now ≤ later
    → Pairwise (Evolves now) xs ys
    → All (λ (b : Business). IsTimed now (view b)) xs
    → All (λ (b : Business). IsTimed later (view b)) ys
Pairwise-IsTimed now later [] [] le h k = tt
Pairwise-IsTimed now later [] (y ∷ ys) le h k = elim h [ ]
Pairwise-IsTimed now later (x ∷ xs) [] le h k = elim h [ ]
Pairwise-IsTimed now later (x ∷ xs) (y ∷ ys) le h k = (
  Step-IsTimed now later (view x) (view y) le h.0.1 k.0,
  Pairwise-IsTimed now later xs ys le h.1 k.1,
)

-- Whatever billing calls are made: if at first every past due business has a start of its grace period
-- and no start is in the future, then so it is afterwards.
pub BillingCalls-IsTimed :
    {s s' : Accounts}
    → BillingCalls s s'
    → All (λ (b : Business). IsTimed s.now (view b)) s.businesses
    → All (λ (b : Business). IsTimed s'.now (view b)) s'.businesses
BillingCalls-IsTimed start h = h
BillingCalls-IsTimed {s} (call {s' = s'} c cs) h = BillingCalls-IsTimed cs (
    Pairwise-IsTimed s.now s'.now s.businesses s'.businesses (BillingCall-now c)
      (BillingCall-Evolves c) h)

is_due :
    (st : SubscriptionStatus) (t now : ℕ)
    → st ≡ past_due
    → t + grace_period ≤ now
    → (b : Business) → b.subscription_status ≡ st
    → b.past_due_since ≡ some t
    → is_expired now b ≡ true
is_due st t now e le b same since = rw same (rw e (rw since (ground arith)))

expires :
    (s : Accounts) (i : ℕ) (b : Business) (t : ℕ)
    → find (λ (x : Business). x.id == i) s.businesses ≡ some b
    → b.subscription_status ≡ past_due
    → b.past_due_since ≡ some t
    → t + grace_period ≤ s.now
    → find (λ (x : Business). x.id == i) (check_expired_grace_periods s).1.businesses
      ≡ some (expire b)
unfolding check_expired_grace_periods
expires s i b t found st since le =
    find-modify (λ x. x.id == i) (is_expired s.now) expire s.businesses b (λ y. refl)
      (is_due past_due t s.now refl le b st since) found

-- From businesses whose grace periods have starts, none in the future, and after any billing calls: a
-- business that is past due becomes read-only by the expiry check that is made after some wait, which is
-- at most the grace period.
pub past_due-expires :
    {s s' : Accounts} (i : ℕ) (b : Business)
    → BillingCalls s s'
    → All (λ (x : Business). IsTimed s.now (view x)) s.businesses
    → find (λ (x : Business). x.id == i) s'.businesses ≡ some b
    → b.subscription_status ≡ past_due
    → (n : ℕ) × (n ≤ grace_period)
      × (find
            (λ (x : Business). x.id == i)
            (check_expired_grace_periods (record s' { now = s'.now + n })).1.businesses
          ≡ some (expire b))
unfolding IsTimed
past_due-expires {s} {s'} i b cs timed found st =
    let h =
      find-All (λ (x : Business). IsTimed s'.now (view x)) (λ x. x.id == i) s'.businesses b found
        (BillingCalls-IsTimed cs timed) in
    let (t, since) = h.0 st in
    let past = h.1 t since in
    let later : Accounts = record s' { now = s'.now + (t + grace_period - s'.now) } in
    (t + grace_period - s'.now, omega arith, expires later i b t found st since (omega arith))
