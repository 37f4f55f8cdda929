-- ===== src/Prelude/Counting.antt =====
-- How many rows of a table meet a condition, and the sum of a weight over the rows, under the queries
-- and updates of the tables.
use mathlib.Core.List.{Memᴰ}
use Prim.Native.Nat.{ℕ, zero, suc, ◌+◌, ◌≤◌, ◌<◌}
use mathlib.Core.Path.{◌≡◌, refl}
use mathlib.Core.Logic.{inl, inr}
use mathlib.Core.Bool.{Bool, true, false}
use mathlib.Core.List.{List, [], ◌∷◌}
use native.Mathlib.Omega.{arith}
use marhaba_delivery_v.Prelude.Lists.{take}
use marhaba_delivery_v.Prelude.Rows.{find_many, update_many, count, mem-cons-cases}
use marhaba_delivery_v.Prelude.Sorting.{sort_by, insert_by}

module _ {V : Type 0} where
  pub count_of_mem :
      (p : V → Bool) (r : V) (rows : List V) → Memᴰ r rows → p r ≡ true → 0 < count p rows
  unfolding count
  count_of_mem p r [] m meets = elim m [ ]
  count_of_mem p r (x ∷ rows) m meets = elim (mem-cons-cases m) [
    | inl e ↦ let there : p x ≡ true = rw e at meets in ground (arith, there)
    | inr later ↦ omega (arith, count_of_mem p r rows later meets)
  ]

  pub count-take : (p : V → Bool) (n : ℕ) (rows : List V) → count p (take n rows) ≤ count p rows
  unfolding count
  count-take p zero rows = omega arith
  count-take p (suc n) [] = omega arith
  count-take p (suc n) (x ∷ rows) = omega (arith, count-take p n rows)

  pub count-find_many : (p q : V → Bool) (rows : List V) → count p (find_many q rows) ≤ count p rows
  unfolding count find_many
  count-find_many p q [] = omega arith
  count-find_many p q (x ∷ rows) = ground (arith, count-find_many p q rows)

  count-insert_by :
      (p : V → Bool) (weight : V → ℕ) (r : V) (rows : List V)
      → count p (insert_by weight r rows) ≡ count p (r ∷ rows)
  unfolding count insert_by
  count-insert_by p weight r [] = refl
  count-insert_by p weight r (x ∷ rows) = ground (arith, count-insert_by p weight r rows)

  pub count-sort_by :
      (p : V → Bool) (weight : V → ℕ) (rows : List V) → count p (sort_by weight rows) ≡ count p rows
  unfolding count sort_by
  count-sort_by p weight [] = refl
  count-sort_by p weight (r ∷ rows) =
      ground (arith, count-insert_by p weight r (sort_by weight rows), count-sort_by p weight rows)

  pub update_many_none :
      (q : V → Bool) (f : V → V) (rows : List V) → count q rows ≡ 0 → update_many q f rows ≡ rows
  unfolding count update_many
  update_many_none q f [] none_ = refl
  update_many_none q f (x ∷ rows) none_ = ground (arith, update_many_none q f rows)

  pub mem-update_many :
      (q : V → Bool) (f : V → V) (x : V) (rows : List V)
      → Memᴰ x rows
      → q x ≡ false
      → Memᴰ x (update_many q f rows)
  unfolding update_many
  mem-update_many q f x [] m other = elim m [ ]
  mem-update_many q f x (r ∷ rows) m other = elim (mem-cons-cases m) [
    | inl e ↦ rw (← e, other) (Memᴰ.head refl)
    | inr later ↦ Memᴰ.tail (mem-update_many q f x rows later other)
  ]

  -- The sum of a weight over the rows.
  unfoldable pub total : (V → ℕ) → List V → ℕ
  total weight [] = 0
  total weight (r ∷ rows) = weight r + total weight rows

  -- An update of the one row that meets a condition moves the sum by what the row's weight moves.
  pub total-update_many :
      (weight : V → ℕ) (q : V → Bool) (f : V → V) (r : V) (rows : List V)
      → Memᴰ r rows
      → q r ≡ true
      → count q rows ≤ 1
      → total weight (update_many q f rows) + weight r ≡ total weight rows + weight (f r)
  unfolding total count update_many
  total-update_many weight q f r [] m meets one = elim m [ ]
  total-update_many weight q f r (x ∷ rows) m meets one = elim (mem-cons-cases m) [
    | inl e ↦
        let there : q x ≡ true = rw e at meets in
        let rest : update_many q f rows ≡ rows =
          update_many_none q f rows (ground (arith, there)) in
        rw (e, there, rest) (omega arith)
    | inr later ↦
        let more = count_of_mem q r rows later meets in
        let away : q x ≡ false = ground (arith, more) in
        rw away
          (omega (arith, total-update_many weight q f r rows later meets (ground (arith, away))))
  ]
