-- ===== src/Prelude/Sorting.antt =====
-- `ORDER BY weight ASC`: insertion sort of the rows by a weight.
use Prim.Native.Nat.{ℕ, ◌≤◌}
use mathlib.Core.Path.{◌≡◌, refl}
use mathlib.Core.Logic.{◌⊎◌, inl, inr}
use mathlib.Core.List.{Memᴰ, List, [], ◌∷◌}
use native.Mathlib.Omega.{arith}
use marhaba_delivery_v.Prelude.Tests.{Bool-cases, leb, if◌then◌else◌}
use marhaba_delivery_v.Prelude.Lists.{All}
use marhaba_delivery_v.Prelude.Rows.{mem-cons-cases}

module _ {V : Type 0} (weight : V → ℕ) where
  unfoldable pub insert_by : V → List V → List V
  insert_by r [] = r ∷ []
  insert_by r (q ∷ rows) =
      let rest = insert_by r rows in if leb (weight r) (weight q) then r ∷ q ∷ rows else q ∷ rest

  unfoldable pub sort_by : List V → List V
  sort_by [] = []
  sort_by (r ∷ rows) = insert_by r (sort_by rows)

  abbrev pub IsSorted : List V → Type 0
  IsSorted [] = Unit
  IsSorted (r ∷ rows) = All (λ q. weight r ≤ weight q) rows × IsSorted rows

  mem-insert_by : (r q : V) (rows : List V) → Memᴰ q (insert_by r rows) → (q ≡ r) ⊎ Memᴰ q rows
  unfolding insert_by
  mem-insert_by r q [] m = mem-cons-cases m
  mem-insert_by r q (x ∷ rows) m = elim (Bool-cases (leb (weight r) (weight x))) [
    | inl before ↦ mem-cons-cases (rw (before, insert_by) at m)
    | inr after ↦ elim (mem-cons-cases (rw (after, insert_by) at m)) [
      | inl e ↦ inr (Memᴰ.head e)
      | inr later ↦ elim (mem-insert_by r q rows later) [
        | inl e ↦ inl e
        | inr k ↦ inr (Memᴰ.tail k)
      ]
    ]
  ]

  -- Sorting invents no row.
  pub mem_of_sort_by : (q : V) (rows : List V) → Memᴰ q (sort_by rows) → Memᴰ q rows
  unfolding sort_by
  mem_of_sort_by q [] m = m
  mem_of_sort_by q (r ∷ rows) m = elim (mem-insert_by r q (sort_by rows) m) [
    | inl e ↦ Memᴰ.head e
    | inr later ↦ Memᴰ.tail (mem_of_sort_by q rows later)
  ]

  mem_insert_self : (r : V) (rows : List V) → Memᴰ r (insert_by r rows)
  unfolding insert_by
  mem_insert_self r [] = Memᴰ.head refl
  mem_insert_self r (x ∷ rows) = elim (Bool-cases (leb (weight r) (weight x))) [
    | inl before ↦ rw (before, insert_by) (Memᴰ.head refl)
    | inr after ↦ rw (after, insert_by) (Memᴰ.tail (mem_insert_self r rows))
  ]

  mem_insert_other : (r q : V) (rows : List V) → Memᴰ q rows → Memᴰ q (insert_by r rows)
  unfolding insert_by
  mem_insert_other r q [] m = Memᴰ.tail m
  mem_insert_other r q (x ∷ rows) m = elim (Bool-cases (leb (weight r) (weight x))) [
    | inl before ↦ rw (before, insert_by) (Memᴰ.tail m)
    | inr after ↦ elim (mem-cons-cases m) [
      | inl e ↦ rw (after, insert_by) (Memᴰ.head e)
      | inr later ↦ rw (after, insert_by) (Memᴰ.tail (mem_insert_other r q rows later))
    ]
  ]

  -- Sorting loses no row.
  pub mem-sort_by : (q : V) (rows : List V) → Memᴰ q rows → Memᴰ q (sort_by rows)
  unfolding sort_by
  mem-sort_by q [] m = m
  mem-sort_by q (r ∷ rows) m = elim (mem-cons-cases m) [
    | inl e ↦ rw e (mem_insert_self r (sort_by rows))
    | inr later ↦ mem_insert_other r q (sort_by rows) (mem-sort_by q rows later)
  ]

  All-insert_by :
      (low : ℕ) (r : V) (rows : List V)
      → low ≤ weight r
      → All (λ q. low ≤ weight q) rows
      → All (λ q. low ≤ weight q) (insert_by r rows)
  unfolding insert_by
  All-insert_by low r [] h k = (h, tt)
  All-insert_by low r (x ∷ rows) h k = elim (Bool-cases (leb (weight r) (weight x))) [
    | inl before ↦ rw (before, insert_by) (h, k)
    | inr after ↦ rw (after, insert_by) (k.0, All-insert_by low r rows h k.1)
  ]

  All-le_trans :
      (low mid : ℕ) (rows : List V)
      → low ≤ mid
      → All (λ q. mid ≤ weight q) rows
      → All (λ q. low ≤ weight q) rows
  All-le_trans low mid [] h k = tt
  All-le_trans low mid (x ∷ rows) h k = (omega arith, All-le_trans low mid rows h k.1)

  insert_by-IsSorted : (r : V) (rows : List V) → IsSorted rows → IsSorted (insert_by r rows)
  unfolding insert_by
  insert_by-IsSorted r [] h = (tt, tt)
  insert_by-IsSorted r (x ∷ rows) h = elim (Bool-cases (leb (weight r) (weight x))) [
    | inl before ↦
        let le : weight r ≤ weight x = ground arith in
        rw (before, insert_by) ((le, All-le_trans (weight r) (weight x) rows le h.0), h)
    | inr after ↦
        let le : weight x ≤ weight r = ground arith in
        rw (after, insert_by)
          (All-insert_by (weight x) r rows le h.0, insert_by-IsSorted r rows h.1)
  ]

  pub sort_by-IsSorted : (rows : List V) → IsSorted (sort_by rows)
  unfolding sort_by
  sort_by-IsSorted [] = tt
  sort_by-IsSorted (r ∷ rows) = insert_by-IsSorted r (sort_by rows) (sort_by-IsSorted rows)

  All-mem :
      (low : ℕ) (q : V) (rows : List V)
      → All (λ p. low ≤ weight p) rows
      → Memᴰ q rows
      → low ≤ weight q
  All-mem low q [] k m = elim m [ ]
  All-mem low q (x ∷ rows) k m = elim (mem-cons-cases m) [
    | inl e ↦ rw e (k.0)
    | inr later ↦ All-mem low q rows k.1 later
  ]

  -- The first row of a sorted list weighs least.
  pub sorted_head_le :
      (r q : V) (rows : List V) → IsSorted (r ∷ rows) → Memᴰ q (r ∷ rows) → weight r ≤ weight q
  sorted_head_le r q rows h m = elim (mem-cons-cases m) [
    | inl e ↦ rw e (omega arith)
    | inr later ↦ All-mem (weight r) q rows h.0 later
  ]
