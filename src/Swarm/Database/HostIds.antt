-- ===== src/Swarm/Database/HostIds.antt =====
-- The host identifiers that the allocation functions hand out.
use smartedge.Base.{ℕ, zero, suc, ◌+◌, ◌-◌, ◌≤◌, ◌<◌, ◌≡◌, refl, ap, Bool, true, false, not}
use smartedge.Base.{List, [], ◌∷◌, ◌&&◌, ◌==◌, ltb, leb, elem, arith}
use smartedge.Base.{Bool-cases, inl, inr}
use smartedge.Swarm.Database.{range_from, without, batch_host_ids}

-- From `lo` on, each element is above the one before it.
abbrev pub Increasing : ℕ → List ℕ → Type 0
Increasing lo [] = Unit
Increasing lo (x ∷ xs) = (lo ≤ x) × Increasing (x + 1) xs

elem-range_from : (x first k : ℕ) → elem x (range_from first k) ≡ (leb first x && ltb x (first + k))
unfolding elem range_from
elem-range_from x first zero = ground arith
elem-range_from x first (suc k) = ground (arith, elem-range_from x (suc first) k)

elem-without :
    (x : ℕ) (used xs : List ℕ) → elem x (without used xs) ≡ (elem x xs && not (elem x used))
unfolding elem without
elem-without x used [] = refl
elem-without x used (y ∷ xs) = elim (Bool-cases (y == x)) [
  | inl here ↦ ground (arith, elem-without x used xs, ap (λ z. elem z used) (same here))
  | inr there ↦ ground (arith, elem-without x used xs)
]
  where
    same : (y == x) ≡ true → y ≡ x
    same h = ground arith

pub Increasing-weaken : (lo hi : ℕ) (xs : List ℕ) → lo ≤ hi → Increasing hi xs → Increasing lo xs
Increasing-weaken lo hi [] h i = tt
Increasing-weaken lo hi (x ∷ xs) h (l, i) = (omega arith, i)

pub without-Increasing :
    (lo : ℕ) (used : List ℕ) (first k : ℕ)
    → lo ≤ first
    → Increasing lo (without used (range_from first k))
unfolding without range_from
without-Increasing lo used first zero h = tt
without-Increasing lo used first (suc k) h = elim (Bool-cases (elem first used)) [
  | inl taken ↦ rw (taken, without) (without-Increasing lo used (suc first) k (omega arith))
  | inr free ↦
      rw (free, without) (h, without-Increasing (first + 1) used (suc first) k (omega arith))
]

pub below_Increasing : (m lo : ℕ) (xs : List ℕ) → m < lo → Increasing lo xs → elem m xs ≡ false
unfolding elem
below_Increasing m lo [] h i = refl
below_Increasing m lo (x ∷ xs) h (l, i) =
    ground (arith, below_Increasing m (x + 1) xs (omega arith) i)

-- One past the last identifier that the batch considers: an empty table leaves `max_id` out.
abbrev pub batch_end : ℕ → List ℕ → ℕ
batch_end max_id [] = max_id
batch_end max_id (x ∷ used) = max_id + 1

-- The identifiers from `first` up to `hi` that are not used.
abbrev pub is_free : ℕ → ℕ → List ℕ → ℕ → Bool
is_free first hi used x = leb first x && ltb x hi && not (elem x used)

pub free_parts :
    (first hi : ℕ) (used : List ℕ) (x : ℕ)
    → is_free first hi used x ≡ true
    → (first ≤ x) × (x < hi) × (elem x used ≡ false)
free_parts first hi used x h = (ground arith, ground arith, ground arith)

pub elem-free :
    (first hi : ℕ) (used : List ℕ) (x : ℕ)
    → elem x (without used (range_from first (hi - first))) ≡ is_free first hi used x
elem-free first hi used x = ground (
  arith,
  elem-without x used (range_from first (hi - first)),
  elem-range_from x first (hi - first),
)

range_from-Increasing : (lo first k : ℕ) → lo ≤ first → Increasing lo (range_from first k)
unfolding range_from
range_from-Increasing lo first zero h = tt
range_from-Increasing lo first (suc k) h =
    (h, range_from-Increasing (first + 1) (suc first) k (omega arith))

-- The batch of host identifiers holds, in increasing order, exactly the identifiers from the first
-- up to its end that the table does not use; the end is one earlier for an empty table.
pub elem-batch_host_ids :
    (first max_id : ℕ) (used : List ℕ)
    → Increasing first (batch_host_ids first max_id used)
      × ((x : ℕ)
          → elem x (batch_host_ids first max_id used)
            ≡ (leb first x && ltb x (batch_end max_id used) && not (elem x used)))
unfolding batch_host_ids elem
elem-batch_host_ids first max_id [] = (
  range_from-Increasing first first (max_id - first) (omega arith),
  λ x. ground (arith, elem-range_from x first (max_id - first)),
)
elem-batch_host_ids first max_id (u ∷ used) = (
  without-Increasing first (u ∷ used) first (max_id + 1 - first) (omega arith),
  elem-free first (max_id + 1) (u ∷ used),
)
