-- ===== src/Prelude/Rows.antt =====
-- A database table as the list of its rows in insertion order, read and written by a key column.
use Prim.Native.Nat.{ℕ, zero, suc, ◌+◌, ◌≤◌}
use mathlib.Core.Path.{◌≡◌, refl}
use mathlib.Core.Bool.{Bool, true}
use mathlib.Core.Logic.{◌≢◌, ◌⊎◌, inl, inr}
use mathlib.Core.Option.{Option, none, some}
use mathlib.Core.List.{Memᴰ, List, [], ◌∷◌, ◌++◌}
use native.Mathlib.Omega.{arith}
use marhaba_delivery_v.Prelude.Tests.{Bool-cases, ltb, if◌then◌else◌}
use marhaba_delivery_v.Prelude.Lists.{take, All}

abbrev pub map_some {ℓ κ} : {A : Type ℓ} {B : Type κ} → (A → B) → Option A → Option B
map_some f none = none
map_some f (some a) = some (f a)

abbrev pub or_else {ℓ} : {A : Type ℓ} → Option A → Option A → Option A
or_else none b = b
or_else (some a) b = some a

module _ {V : Type 0} where
  -- findFirst: the first row that meets a condition.
  unfoldable pub find_first : (V → Bool) → List V → Option V
  find_first p [] = none
  find_first p (r ∷ rows) = let rest = find_first p rows in if p r then some r else rest

  -- findMany: all rows that meet a condition, in table order.
  unfoldable pub find_many : (V → Bool) → List V → List V
  find_many p [] = []
  find_many p (r ∷ rows) = let rest = find_many p rows in if p r then r ∷ rest else rest

  -- updateMany: rewrite the rows that meet a condition.
  unfoldable pub update_many : (V → Bool) → (V → V) → List V → List V
  update_many p f [] = []
  update_many p f (r ∷ rows) = (if p r then f r else r) ∷ update_many p f rows

  -- count: how many rows meet a condition.
  unfoldable pub count : (V → Bool) → List V → ℕ
  count p [] = 0
  count p (r ∷ rows) = (if p r then 1 else 0) + count p rows

  pub find_first-append :
      (p : V → Bool) (rows : List V) (r : V)
      → find_first p (rows ++ r ∷ []) ≡ or_else (find_first p rows) (if p r then some r else none)
  unfolding find_first
  find_first-append p [] r = refl
  find_first-append p (x ∷ rows) r = ground (arith, find_first-append p rows r)

  pub find_many-append :
      (p : V → Bool) (xs ys : List V) → find_many p (xs ++ ys) ≡ find_many p xs ++ find_many p ys
  unfolding find_many
  find_many-append p [] ys = refl
  find_many-append p (x ∷ xs) ys = ground (arith, find_many-append p xs ys)

  pub count-append : (p : V → Bool) (xs ys : List V) → count p (xs ++ ys) ≡ count p xs + count p ys
  unfolding count
  count-append p [] ys = omega arith
  count-append p (x ∷ xs) ys = omega (arith, count-append p xs ys)

  -- What a condition finds is a row that meets it.
  pub find_first_meets :
      (p : V → Bool) (rows : List V) (r : V) → find_first p rows ≡ some r → p r ≡ true
  unfolding find_first
  find_first_meets p [] r h = ground arith
  find_first_meets p (x ∷ rows) r h = ground (arith, find_first_meets p rows r)

  -- A rewrite that does not touch the columns which `p` reads is seen at the rows it rewrites.
  pub find_first-update_many :
      (p q : V → Bool) (f : V → V)
      → ((r : V) → p (f r) ≡ p r)
      → (rows : List V)
      → find_first p (update_many q f rows)
        ≡ map_some (λ r. if q r then f r else r) (find_first p rows)
  unfolding find_first update_many
  find_first-update_many p q f keeps [] = refl
  find_first-update_many p q f keeps (x ∷ rows) =
      ground (arith, keeps x, find_first-update_many p q f keeps rows)

  pub mem-cons-cases : {r x : V} {xs : List V} → Memᴰ r (x ∷ xs) → (r ≡ x) ⊎ Memᴰ r xs
  mem-cons-cases (Memᴰ.head e) = inl e
  mem-cons-cases (Memᴰ.tail m) = inr m

  -- What a query returns are rows that meet its condition.
  pub find_many_meets :
      (p : V → Bool) (rows : List V) (r : V) → Memᴰ r (find_many p rows) → p r ≡ true
  unfolding find_many
  find_many_meets p [] r m = elim m [ ]
  find_many_meets p (x ∷ rows) r m = elim (Bool-cases (p x)) [
    | inl there ↦ elim (mem-cons-cases (rw (there, find_many) at m)) [
      | inl e ↦ rw e there
      | inr later ↦ find_many_meets p rows r later
    ]
    | inr away ↦ find_many_meets p rows r (rw (away, find_many) at m)
  ]

  pub mem_of_take : (n : ℕ) (rows : List V) (r : V) → Memᴰ r (take n rows) → Memᴰ r rows
  mem_of_take zero rows r m = elim m [ ]
  mem_of_take (suc n) [] r m = elim m [ ]
  mem_of_take (suc n) (x ∷ rows) r (Memᴰ.head e) = Memᴰ.head e
  mem_of_take (suc n) (x ∷ rows) r (Memᴰ.tail m) = Memᴰ.tail (mem_of_take n rows r m)

  abbrev keep_larger : (V → ℕ) → V → Option V → Option V
  keep_larger weight r none = some r
  keep_larger weight r (some q) = if ltb (weight r) (weight q) then some q else some r

  keeps_one :
      (weight : V → ℕ) (x : V) (best : Option V) (r : V)
      → keep_larger weight x best ≡ some r
      → (r ≡ x) ⊎ (best ≡ some r)
  keeps_one weight x none r h = inl (ground arith)
  keeps_one weight x (some q) r h = elim (Bool-cases (ltb (weight x) (weight q))) [
    | inl less ↦ inr (ground arith)
    | inr more ↦ inl (ground arith)
  ]

  keep_larger-ge :
      (weight : V → ℕ) (x : V) (best : Option V) (r : V)
      → keep_larger weight x best ≡ some r
      → (weight x ≤ weight r) × ((q : V) → best ≡ some q → weight q ≤ weight r)
  keep_larger-ge weight x none r h = (ground arith, λ q e. cc)
  keep_larger-ge weight x (some p) r h = (ground arith, λ q e. ground arith)

  largest_some : (o : Option V) → (o ≡ none) ⊎ ((q : V) × (o ≡ some q))
  largest_some none = inl refl
  largest_some (some q) = inr (q, refl)

  -- `orderBy: { weight: 'desc' }` and `LIMIT 1`: a row of the largest weight.
  unfoldable pub find_largest : (V → ℕ) → List V → Option V
  find_largest weight [] = none
  find_largest weight (r ∷ rows) = keep_larger weight r (find_largest weight rows)

  pub find_largest-mem :
      (weight : V → ℕ) (rows : List V) (r : V) → find_largest weight rows ≡ some r → Memᴰ r rows
  unfolding find_largest
  find_largest-mem weight [] r h = cc
  find_largest-mem weight (x ∷ rows) r h =
      elim (keeps_one weight x (find_largest weight rows) r h) [
        | inl e ↦ Memᴰ.head e
        | inr e ↦ Memᴰ.tail (find_largest-mem weight rows r e)
      ]

  find_largest_found :
      (weight : V → ℕ) (rows : List V) (q : V) → Memᴰ q rows → find_largest weight rows ≢ none
  unfolding find_largest
  find_largest_found weight [] q m = elim m [ ]
  find_largest_found weight (x ∷ rows) q m = λ h. ground arith

  pub find_largest-ge :
      (weight : V → ℕ) (rows : List V) (r q : V)
      → find_largest weight rows ≡ some r
      → Memᴰ q rows
      → weight q ≤ weight r
  unfolding find_largest
  find_largest-ge weight [] r q h m = cc
  find_largest-ge weight (x ∷ rows) r q h m = elim (mem-cons-cases m) [
    | inl e ↦ rw e ((keep_larger-ge weight x (find_largest weight rows) r h).0)
    | inr later ↦ elim (largest_some (find_largest weight rows)) [
      | inl nothing ↦ absurd (find_largest_found weight rows q later nothing)
      | inr (p, e) ↦ omega (
        arith,
        find_largest-ge weight rows p q e later,
        (keep_larger-ge weight x (find_largest weight rows) r h).1 p e,
      )
    ]
  ]

pub All-update_many :
    {V : Type 0} (P Q : V → Type 0) (q : V → Bool) (f : V → V)
    → ((r : V) → P r → Q (if q r then f r else r))
    → (rows : List V) → All P rows
    → All Q (update_many q f rows)
unfolding update_many
All-update_many P Q q f step [] all = tt
All-update_many P Q q f step (r ∷ rows) all =
    (step r all.0, All-update_many P Q q f step rows all.1)

pub All-map :
    {V : Type 0} (P Q : V → Type 0)
    → ((r : V) → P r → Q r)
    → (rows : List V) → All P rows
    → All Q rows
All-map P Q step [] all = tt
All-map P Q step (r ∷ rows) all = (step r all.0, All-map P Q step rows all.1)

pub All-mem : {V : Type 0} (P : V → Type 0) (rows : List V) (r : V) → All P rows → Memᴰ r rows → P r
All-mem P [] r all m = elim m [ ]
All-mem P (x ∷ rows) r all m = elim (mem-cons-cases m) [
  | inl e ↦ rw e all.0
  | inr later ↦ All-mem P rows r all.1 later
]

pub count_of_missing :
    {V : Type 0} (p : V → Bool) (rows : List V) → find_first p rows ≡ none → count p rows ≡ 0
unfolding find_first count
count_of_missing p [] h = refl
count_of_missing p (r ∷ rows) h = ground (arith, count_of_missing p rows)

pub count-update_many :
    {V : Type 0} (p q : V → Bool) (f : V → V)
    → ((r : V) → p (f r) ≡ p r)
    → (rows : List V) → count p (update_many q f rows) ≡ count p rows
unfolding count update_many
count-update_many p q f keeps [] = refl
count-update_many p q f keeps (r ∷ rows) =
    ground (arith, keeps r, count-update_many p q f keeps rows)

-- A row of the table that meets the condition is among those that a query returns.
pub mem-find_many :
    {V : Type 0} (p : V → Bool) (rows : List V) (r : V)
    → Memᴰ r rows
    → p r ≡ true
    → Memᴰ r (find_many p rows)
unfolding find_many
mem-find_many p [] r m meets = elim m [ ]
mem-find_many p (x ∷ rows) r m meets = elim (mem-cons-cases m) [
  | inl e ↦ rw (rw e at meets) (Memᴰ.head e)
  | inr later ↦ elim (Bool-cases (p x)) [
    | inl there ↦ rw there (Memᴰ.tail (mem-find_many p rows r later meets))
    | inr away ↦ rw away (mem-find_many p rows r later meets)
  ]
]

pub mem_of_find_many :
    {V : Type 0} (p : V → Bool) (rows : List V) (r : V) → Memᴰ r (find_many p rows) → Memᴰ r rows
unfolding find_many
mem_of_find_many p [] r m = elim m [ ]
mem_of_find_many p (x ∷ rows) r m = elim (Bool-cases (p x)) [
  | inl there ↦ elim (mem-cons-cases (rw (there, find_many) at m)) [
    | inl e ↦ Memᴰ.head e
    | inr later ↦ Memᴰ.tail (mem_of_find_many p rows r later)
  ]
  | inr away ↦ Memᴰ.tail (mem_of_find_many p rows r (rw (away, find_many) at m))
]
