-- ===== src/Prelude/Keeps.antt =====
-- Predicates on the state that an action keeps, whether it returns or throws: a rule for each way in
-- which actions are put together.
use mathlib.Core.Bool.{Bool, true, false}
use mathlib.Core.Option.{Option, none, some}
use marhaba_delivery_v.Prelude.Tests.{if◌then◌else◌}
use marhaba_delivery_v.Prelude.Action.{
  Action, Outcome, ok, throws, Exception, pure, throw, gets, modify, transaction,
  commit_or_roll_back, continue, ◌>>=◌, ◌>>◌, throw_unless, or_throw, Table, find,
}

pub record Keeps {S A : Type 0} (P : S → Type 0) (m : Action S A) : Type 0 where
  pub kept : (s : S) → P s → P (m s).1

module _ {S : Type 0} (P : S → Type 0) where
  continue-keeps :
      {A B : Type 0} (r : Outcome A × S) (f : A → Action S B)
      → P r.1
      → ((a : A) → Keeps P (f a))
      → P (continue r f).1
  continue-keeps (ok a, s) f p h = (h a).kept s p
  continue-keeps (throws e, s) f p h = p

  or_throw-keeps : {A : Type 0} (o : Option A) (e : Exception) (s : S) → P s → P (or_throw o e s).1
  or_throw-keeps none e s p = p
  or_throw-keeps (some a) e s p = p

  roll_back-keeps :
      {A : Type 0} (s : S) (r : Outcome A × S) → P s → P r.1 → P (commit_or_roll_back s r).1
  roll_back-keeps s (ok a, s') p q = q
  roll_back-keeps s (throws e, s') p q = p

  throw_unless-keeps : (b : Bool) (e : Exception) (s : S) → P s → P (throw_unless b e s).1
  throw_unless-keeps true e s p = p
  throw_unless-keeps false e s p = p

module _ {S : Type 0} {P : S → Type 0} where
  module _ {A B : Type 0} where
    pub bind-Keeps :
        {m : Action S A} {f : A → Action S B}
        → Keeps P m
        → ((a : A) → Keeps P (f a))
        → Keeps P (m >>= f)
    bind-Keeps {m} {f} hm hf = record { kept = λ s p. continue-keeps P (m s) f (hm.kept s p) hf }

    pub then-Keeps : {m : Action S A} {n : Action S B} → Keeps P m → Keeps P n → Keeps P (m >> n)
    then-Keeps {m} {n} hm hn = record {
      kept = λ s p. continue-keeps P (m s) (λ _. n) (hm.kept s p) (λ a. hn);
    }

  module _ {A : Type 0} where
    pub pure-Keeps : (a : A) → Keeps P (pure a)
    pure-Keeps a = record { kept = λ s p. p }

    pub throw-Keeps : (e : Exception) → Keeps {A = A} P (throw e)
    throw-Keeps e = record { kept = λ s p. p }

    pub gets-Keeps : (f : S → A) → Keeps P (gets f)
    gets-Keeps f = record { kept = λ s p. p }

    pub or_throw-Keeps : (o : Option A) (e : Exception) → Keeps P (or_throw o e)
    or_throw-Keeps o e = record { kept = λ s p. or_throw-keeps P o e s p }

    pub transaction-Keeps : {m : Action S A} → Keeps P m → Keeps P (transaction m)
    transaction-Keeps {m} h = record { kept = λ s p. roll_back-keeps P s (m s) p (h.kept s p) }

    pub either-Keeps :
        (b : Bool) {m n : Action S A} → Keeps P m → Keeps P n → Keeps P (if b then m else n)
    either-Keeps true hm hn = hm
    either-Keeps false hm hn = hn

    pub find-Keeps : (t : Table S A) (q : A → Bool) → Keeps P (find t q)
    find-Keeps t q = record { kept = λ s p. p }

  pub throw_unless-Keeps : (b : Bool) (e : Exception) → Keeps P (throw_unless b e)
  throw_unless-Keeps b e = record { kept = λ s p. throw_unless-keeps P b e s p }

  pub modify-Keeps : (f : S → S) → ((s : S) → P s → P (f s)) → Keeps P (modify f)
  modify-Keeps f h = record { kept = λ s p. h s p }

  pub state-Keeps : {A : Type 0} (m : Action S A) → ((s : S) → P s → P (m s).1) → Keeps P m
  state-Keeps m h = record { kept = h }
