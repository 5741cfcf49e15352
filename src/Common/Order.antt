-- ===== src/Common/Order.antt =====
-- `operator<` of `std::string` and `std::sort` by it. The order is total and antisymmetric, so the
-- sorted list is determined, and an insertion sort computes it.
use mathlib.Core.Path.{◌≡◌, refl}
use mathlib.Core.Logic.{inl, inr}
use mathlib.Core.Bool.{Bool, true, false, ◌&&◌, ◌||◌}
use mathlib.Core.List.{List, [], ◌∷◌, Perm}
use mathlib.Core.List.Perm
use native.Mathlib.Omega.{arith}
use vehicle_detection_system.Common.Tests.{◌==◌, ltb, if◌then◌else◌, Bool-cases}
use vehicle_detection_system.Common.Lists.{All}
use vehicle_detection_system.Common.Text.{Bytes}

-- Lexicographic, by unsigned bytes; a proper prefix comes first.
unfoldable pub le_bytes : Bytes → Bytes → Bool
le_bytes [] ys = true
le_bytes (x ∷ xs) [] = false
le_bytes (x ∷ xs) (y ∷ ys) = ltb x y || (x == y && le_bytes xs ys)

unfoldable pub insert : Bytes → List Bytes → List Bytes
unfolding le_bytes
insert a [] = a ∷ []
insert a (b ∷ bs) = if le_bytes a b then a ∷ b ∷ bs else b ∷ insert a bs

unfoldable pub sort : List Bytes → List Bytes
unfolding insert
sort [] = []
sort (a ∷ as') = insert a (sort as')

abbrev pub IsSorted : List Bytes → Type 0
IsSorted [] = Unit {0}
IsSorted (a ∷ bs) = All (λ b. le_bytes a b ≡ true) bs × IsSorted bs

le_bytes_total : (a b : Bytes) → le_bytes a b ≡ false → le_bytes b a ≡ true
unfolding le_bytes
le_bytes_total [] b h = absurd (ground arith)
le_bytes_total (x ∷ xs) [] h = refl
le_bytes_total (x ∷ xs) (y ∷ ys) h = ground (arith, le_bytes_total xs ys)

le_bytes_trans : (a b c : Bytes) → le_bytes a b ≡ true → le_bytes b c ≡ true → le_bytes a c ≡ true
unfolding le_bytes
le_bytes_trans [] b c h k = refl
le_bytes_trans (x ∷ xs) [] c h k = absurd (ground arith)
le_bytes_trans (x ∷ xs) (y ∷ ys) [] h k = absurd (ground arith)
le_bytes_trans (x ∷ xs) (y ∷ ys) (z ∷ zs) h k = ground (arith, le_bytes_trans xs ys zs)

All-insert {κ} :
    (P : Bytes → Type κ) (a : Bytes) (bs : List Bytes) → P a → All P bs → All P (insert a bs)
unfolding insert
All-insert P a [] p h = (p, tt)
All-insert P a (b ∷ bs) p (q, h) = elim (Bool-cases (le_bytes a b)) [
  | inl e ↦ rw e (p, (q, h))
  | inr e ↦ rw e (q, All-insert P a bs p h)
]

le-All :
    (a b : Bytes) (bs : List Bytes)
    → le_bytes a b ≡ true
    → All (λ c. le_bytes b c ≡ true) bs
    → All (λ c. le_bytes a c ≡ true) bs
le-All a b [] h k = tt
le-All a b (c ∷ bs) h (k, ks) = (le_bytes_trans a b c h k, le-All a b bs h ks)

insert-IsSorted : (a : Bytes) (bs : List Bytes) → IsSorted bs → IsSorted (insert a bs)
unfolding insert
insert-IsSorted a [] h = (tt, tt)
insert-IsSorted a (b ∷ bs) (h, hs) = elim (Bool-cases (le_bytes a b)) [
  | inl e ↦ rw e ((e, le-All a b bs e h), (h, hs))
  | inr e ↦
      rw e (
        All-insert (λ c. le_bytes b c ≡ true) a bs (le_bytes_total a b e) h,
        insert-IsSorted a bs hs,
      )
]

pub sort-IsSorted : (bs : List Bytes) → IsSorted (sort bs)
unfolding sort
sort-IsSorted [] = tt
sort-IsSorted (b ∷ bs) = insert-IsSorted b (sort bs) (sort-IsSorted bs)

insert-perm : (a : Bytes) (bs : List Bytes) → Perm (insert a bs) (a ∷ bs)
unfolding insert
insert-perm a [] = Perm.refl (a ∷ [])
insert-perm a (b ∷ bs) = elim (Bool-cases (le_bytes a b)) [
  | inl e ↦ rw e (Perm.refl _)
  | inr e ↦ rw e (Perm.trans (Perm.cons b (insert-perm a bs)) (Perm.swap a b bs))
]

pub sort-perm : (bs : List Bytes) → Perm (sort bs) bs
unfolding sort
sort-perm [] = Perm.refl []
sort-perm (b ∷ bs) = Perm.trans (insert-perm b (sort bs)) (Perm.cons b (sort-perm bs))

pub All-sort {κ} : (P : Bytes → Type κ) (bs : List Bytes) → All P bs → All P (sort bs)
unfolding sort
All-sort P [] h = tt
All-sort P (b ∷ bs) (p, h) = All-insert P b (sort bs) p (All-sort P bs h)

pub sort-ne-nil : (b : Bytes) (bs : List Bytes) → ¬ (sort (b ∷ bs) ≡ [])
unfolding sort insert
sort-ne-nil b bs h =
    elim (sort bs) as (λ l. insert b l ≡ [] → ⊥) [ [] ↦ λ e. cc | c ∷ cs ↦ λ e. ground arith ] h
