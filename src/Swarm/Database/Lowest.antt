-- ===== src/Swarm/Database/Lowest.antt =====
-- The least free identifier, as `min` finds it in the difference of two sets.
use smartedge.Base.{
  ℕ, ◌+◌, ◌-◌, ◌≤◌, ◌<◌, ◌≡◌, refl, sym, ap, ◌∙◌, true, false, List, [], ◌∷◌, arith, inl, inr, ◌↔◌,
}
use smartedge.Base.{ltb, elem, Bool-cases}
use smartedge.Base.Exec.{Exc, Result, ok, raised, value_error}
use mathlib.Core.Path.{subst}
use mathlib.Core.Bool.{false≢true}
use smartedge.Swarm.Database.{range_from, without, lowest_free, next_host_id}
use smartedge.Swarm.Database.HostIds.{
  Increasing, is_free, free_parts, elem-free, without-Increasing, below_Increasing,
}

-- The result of the search is the least free identifier, where there is one.
abbrev pub IsLowest : ℕ → ℕ → List ℕ → Result ℕ → Type 0
IsLowest first hi used r =
    ((r ≡ raised value_error) ↔ ((m : ℕ) → is_free first hi used m ≡ false))
    × ((n : ℕ)
        → (r ≡ ok n)
          ↔ ((is_free first hi used n ≡ true) × ((m : ℕ) → is_free first n used m ≡ false)))

raised≢ok : {e : Exc} {n : ℕ} → ◌≡◌ {A = Result ℕ} (raised e) (ok n) → ⊥
raised≢ok h = cc

-- What an increasing list of the free identifiers says of its first element.
first_free :
    (first hi : ℕ) (used : List ℕ) (n : ℕ) (rest : List ℕ)
    → without used (range_from first (hi - first)) ≡ n ∷ rest
    → (is_free first hi used n ≡ true) × ((m : ℕ) → first ≤ m → m < n → m < hi → elem m used ≡ true)
unfolding elem
first_free first hi used n rest e =
    let ordered : Increasing first (n ∷ rest) =
      subst (Increasing first) e (without-Increasing first used first (hi - first) (omega arith)) in
    let member = λ (x : ℕ). ap (elem x) (sym e) ∙ elem-free first hi used x in
    (
      sym (member n) ∙ ground arith,
      λ m low below top.
          ground (arith, member m, below_Increasing m (n + 1) rest (omega arith) ordered.1),
    )

none_free :
    (first hi : ℕ) (used : List ℕ)
    → without used (range_from first (hi - first)) ≡ []
    → (m : ℕ) → first ≤ m
    → m < hi
    → elem m used ≡ true
unfolding elem
none_free first hi used e m low top = ground (arith, ap (elem m) e, elem-free first hi used m)

below_free :
    (first n : ℕ) (used : List ℕ) (m : ℕ)
    → (first ≤ m → m < n → elem m used ≡ true)
    → is_free first n used m ≡ false
below_free first n used m h = elim (Bool-cases (is_free first n used m)) [
  | inr used_up ↦ used_up
  | inl here ↦
      let (low, top, new) = free_parts first n used m here in
      absurd (false≢true (sym new ∙ h low top))
]

-- What `lowest_free` returns for the list of free identifiers.
abbrev taken : List ℕ → Result ℕ
taken [] = raised value_error
taken (x ∷ xs) = ok x

lowest_free-taken :
    (first max_id : ℕ) (used : List ℕ)
    → lowest_free first max_id used ≡ taken (without used (range_from first (max_id + 1 - first)))
unfolding lowest_free
lowest_free-taken first max_id used = refl

found :
    (first hi : ℕ) (used xs : List ℕ)
    → without used (range_from first (hi - first)) ≡ xs
    → IsLowest first hi used (taken xs)
found first hi used [] e = (
  (λ _ m. below_free first hi used m (none_free first hi used e m), λ _. refl),
  λ n. (
    λ t. absurd (raised≢ok t),
    λ h.
        let (low, top, new) = free_parts first hi used n h.0 in
        absurd (false≢true (sym new ∙ none_free first hi used e n low top)),
  ),
)
found first hi used (x ∷ xs) e =
    let (free, least) = first_free first hi used x xs e in
    (
      (λ t. absurd (raised≢ok (sym t)), λ all. absurd (false≢true (sym (all x) ∙ free))),
      λ n. (
        λ t.
            let same : x ≡ n = cc in
            (
              ap (is_free first hi used) (sym same) ∙ free,
              λ m.
                  below_free first n used m
                    (λ low below. least m low (rw same below) (ground (arith, free, same))),
            ),
        λ h. ap ok (only x n free least h),
      ),
    )
  where
    only :
        (x n : ℕ)
        → is_free first hi used x ≡ true
        → ((m : ℕ) → first ≤ m → m < x → m < hi → elem m used ≡ true)
        → (is_free first hi used n ≡ true) × ((m : ℕ) → is_free first n used m ≡ false)
        → x ≡ n
    only x n free least h =
        let (low, top, new) = free_parts first hi used n h.0 in
        elim (Bool-cases (ltb x n)) [
          | inl below ↦ absurd (false≢true (ground (arith, h.1 x, free, below)))
          | inr above ↦ elim (Bool-cases (ltb n x)) [
            | inl under ↦ absurd (false≢true (sym new ∙ least n low (ground (arith, under)) top))
            | inr over ↦ ground (arith, above, over)
          ]
        ]

pub lowest_free-IsLowest :
    (first max_id : ℕ) (used : List ℕ)
    → IsLowest first (max_id + 1) used (lowest_free first max_id used)
lowest_free-IsLowest first max_id used =
    rw (lowest_free-taken first max_id used)
      (found first (max_id + 1) used (without used (range_from first (max_id + 1 - first))) refl)

-- The allocation of one host identifier, for a used table.
next_host_id-IsLowest :
    (first max_id u : ℕ) (used : List ℕ)
    → IsLowest first (max_id + 1) (u ∷ used) (next_host_id first max_id (u ∷ used))
unfolding next_host_id
next_host_id-IsLowest first max_id u used = lowest_free-IsLowest first max_id (u ∷ used)
