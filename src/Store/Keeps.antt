-- ===== src/Store/Keeps.antt =====
-- Properties of the session that a call keeps, however it ends.
use modishlog.Prelude.{Bool, true, false, Option, none, some}
use modishlog.Store.{
  Store, Service, Result, Error, ok, err, pure, gets, expect, raise_if, modify_store, when, ◌>>=◌,
  ◌>>◌,
}

-- After the call `I` holds again, whether it returned or raised.
pub record Keeps (I : Store → Type 0) {A : Type 0} (m : Service A) : Type 0 where
  pub kept : (s : Store) → I s → I (m s).1

raise_if-kept : (I : Store → Type 0) (b : Bool) (e : Error) (s : Store) → I s → I (raise_if b e s).1
raise_if-kept I true e s i = i
raise_if-kept I false e s i = i

expect-kept :
    (I : Store → Type 0) {A : Type 0} (o : Option A) (e : Error) (s : Store)
    → I s
    → I (expect o e s).1
expect-kept I none e s i = i
expect-kept I (some a) e s i = i

module _ {I : Store → Type 0} where
  module _ {A B : Type 0} (m : Service A) (f : A → Service B) (hf : (a : A) → Keeps I (f a)) where
    after : (r : Result A × Store) (s : Store) → I r.1 → I (((λ s. r) >>= f) s).1
    after (ok a, s') s i = (hf a).kept s' i
    after (err e, s') s i = i

  pub bind-Keeps :
      {A B : Type 0} {m : Service A} {f : A → Service B}
      → Keeps I m
      → ((a : A) → Keeps I (f a))
      → Keeps I (m >>= f)
  bind-Keeps {A} {B} {m} {f} hm hf = record { kept = λ s i. after m f hf (m s) s (hm.kept s i) }

  pub then-Keeps :
      {A B : Type 0} {m : Service A} {k : Service B} → Keeps I m → Keeps I k → Keeps I (m >> k)
  then-Keeps {A} {B} {m} {k} hm hk = record {
    kept = λ s i. after m (λ x. k) (λ x. hk) (m s) s (hm.kept s i);
  }

  pub raise_if-Keeps : (b : Bool) (e : Error) → Keeps I (raise_if b e)
  raise_if-Keeps b e = record { kept = raise_if-kept I b e }

  when-kept : (b : Bool) (m : Service (Unit {0})) → Keeps I m → (s : Store) → I s → I (when b m s).1
  when-kept true m h s i = h.kept s i
  when-kept false m h s i = i

  pub when-Keeps : (b : Bool) {m : Service (Unit {0})} → Keeps I m → Keeps I (when b m)
  when-Keeps b {m} h = record { kept = when-kept b m h }

  pub expect-Keeps : {A : Type 0} (o : Option A) (e : Error) → Keeps I (expect o e)
  expect-Keeps o e = record { kept = expect-kept I o e }

  pub gets-Keeps : {A : Type 0} (f : Store → A) → Keeps I (gets f)
  gets-Keeps f = record { kept = λ s i. i }

  pub pure-Keeps : {A : Type 0} (a : A) → Keeps I (pure a)
  pure-Keeps a = record { kept = λ s i. i }

  pub modify_store-Keeps :
      (f : Store → Store) → ((s : Store) → I s → I (f s)) → Keeps I (modify_store f)
  modify_store-Keeps f h = record { kept = h }
