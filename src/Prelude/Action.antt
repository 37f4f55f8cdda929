-- ===== src/Prelude/Action.antt =====
-- Request handlers: an action reads and writes a state, and returns or throws. What was written
-- before a throw stays written, unless the writes stand in a transaction.
use mathlib.Core.Path.{◌≡◌, refl}
use mathlib.Core.Logic.{◌⊎◌, inl, inr}
use mathlib.Core.Bool.{Bool, true, false}
use mathlib.Core.Option.{Option, none, some}
use mathlib.Core.List.{List, [], ◌∷◌, ◌++◌}
use Prim.Native.String.{String}
use marhaba_delivery_v.Prelude.Rows.{find_first, update_many}

-- The HTTP exceptions of the framework, with their messages, and errors that nobody catches: the database
-- client's, on an update of a missing row and on a duplicate unique key, and a type error.
pub data Exception : Type 0 where
  bad_request unauthorized forbidden not_found conflict : String → Exception
  too_many_requests service_unavailable : String → Exception
  record_not_found unique_violation type_error : Exception

pub data Outcome (A : Type 0) : Type 0 where
  ok : A → Outcome A
  throws : Exception → Outcome A

abbrev pub Action : Type 0 → Type 0 → Type 0
Action S A = S → Outcome A × S

module _ {S : Type 0} {A : Type 0} where
  abbrev pub pure : A → Action S A
  pure a s = (ok a, s)

  abbrev pub throw : Exception → Action S A
  throw e s = (throws e, s)

  abbrev pub gets : (S → A) → Action S A
  gets f s = (ok (f s), s)

  abbrev pub commit_or_roll_back : S → Outcome A × S → Outcome A × S
  commit_or_roll_back s (ok a, s') = (ok a, s')
  commit_or_roll_back s (throws e, s') = (throws e, s)

  -- `prisma.$transaction`: a throw inside undoes every write of the block.
  abbrev pub transaction : Action S A → Action S A
  transaction m s = commit_or_roll_back s (m s)

abbrev pub modify : {S : Type 0} → (S → S) → Action S (Unit {0})
modify f s = (ok tt, f s)

module _ {S A B : Type 0} where
  abbrev pub continue : Outcome A × S → (A → Action S B) → Outcome B × S
  continue (ok a, s) f = f a s
  continue (throws e, s) f = (throws e, s)

  infixl 10 ◌>>=◌ ◌>>◌
  abbrev pub ◌>>=◌ : Action S A → (A → Action S B) → Action S B
  ◌>>=◌ m f s = continue (m s) f

  abbrev pub ◌>>◌ : Action S A → Action S B → Action S B
  ◌>>◌ m n s = continue (m s) (λ _. n)

abbrev pub throw_unless : {S : Type 0} → Bool → Exception → Action S (Unit {0})
throw_unless true e s = (ok tt, s)
throw_unless false e s = (throws e, s)

abbrev pub or_throw : {S A : Type 0} → Option A → Exception → Action S A
or_throw none e s = (throws e, s)
or_throw (some a) e s = (ok a, s)

-- One table of the state.
pub record Table (S V : Type 0) : Type 0 where
  pub rows : S → List V
  pub write : List V → S → S

module _ {S V : Type 0} (t : Table S V) where
  -- `create` of a row whose unique columns are fresh.
  abbrev pub create : V → Action S V
  create r s = (ok r, t.write (t.rows s ++ r ∷ []) s)

  -- `update` of the row that meets a condition on a unique column; a missing row is an error.
  abbrev pub update_row : Option V → (V → Bool) → (V → V) → Action S V
  update_row none p f s = (throws record_not_found, s)
  update_row (some r) p f s = (ok (f r), t.write (update_many p f (t.rows s)) s)

  abbrev pub update : (V → Bool) → (V → V) → Action S V
  update p f s = update_row (find_first p (t.rows s)) p f s

  abbrev pub upsert_row : Option V → (V → Bool) → V → (V → V) → Action S V
  upsert_row none p r f s = (ok r, t.write (t.rows s ++ r ∷ []) s)
  upsert_row (some r') p r f s = (ok (f r'), t.write (update_many p f (t.rows s)) s)

  -- `upsert`: update the row that meets the condition, or create it.
  abbrev pub upsert : (V → Bool) → V → (V → V) → Action S V
  upsert p r f s = upsert_row (find_first p (t.rows s)) p r f s

  abbrev pub find : (V → Bool) → Action S (Option V)
  find p s = (ok (find_first p (t.rows s)), s)

pub outcome-cases :
    {A : Type 0} (r : Outcome A) → ((a : A) × (r ≡ ok a)) ⊎ ((e : Exception) × (r ≡ throws e))
outcome-cases (ok a) = inl (a, refl)
outcome-cases (throws e) = inr (e, refl)

module _ {S A B : Type 0} where
  continue-ok :
      (r : Outcome A × S) (f : A → Action S B) (b : B)
      → (continue r f).0 ≡ ok b
      → (a : A) × (r.0 ≡ ok a) × (continue r f ≡ f a r.1)
  continue-ok (ok a, s) f b h = (a, refl, refl)
  continue-ok (throws e, s) f b h = cc

  -- Where a sequence of steps succeeds, its first step does.
  pub bind-ok :
      (m : Action S A) (f : A → Action S B) (s : S) (b : B)
      → ((m >>= f) s).0 ≡ ok b
      → (a : A) × ((m s).0 ≡ ok a) × ((m >>= f) s ≡ f a (m s).1)
  bind-ok m f s b h = continue-ok (m s) f b h

-- What is returned after an action has no effect on the state.
returned : {S A B : Type 0} (r : Outcome A × S) (b : B) → (continue r (λ _. pure b)).1 ≡ r.1
returned (ok a, t) b = refl
returned (throws e, t) b = refl

pub then_pure : {S A B : Type 0} (m : Action S A) (b : B) (s : S) → ((m >> pure b) s).1 ≡ (m s).1
then_pure m b s = returned (m s) b
