-- ===== src/Swarm/Switch/Ports.antt =====
-- The sets of broadcast ports.
use smartedge.Base.{ℕ, ◌≡◌, refl, ap, ◌∙◌, true, not, List, [], ◌∷◌, ◌++◌, arith}
use smartedge.Base.{◌&&◌, ◌||◌, ◌==◌, elem, Bool-cases, inl, inr}
use smartedge.Swarm.Switch.{add_port, remove_port, port_set}

elem-++ : (x : ℕ) (ps qs : List ℕ) → elem x (ps ++ qs) ≡ (elem x ps || elem x qs)
unfolding elem
elem-++ x [] qs = refl
elem-++ x (p ∷ ps) qs = ground (arith, elem-++ x ps qs)

same : (x p : ℕ) → (p == x) ≡ true → p ≡ x
same x p h = ground arith

elem-add_port : (x p : ℕ) (ps : List ℕ) → elem x (add_port p ps) ≡ (p == x || elem x ps)
unfolding add_port elem
elem-add_port x p ps = elim (Bool-cases (p == x)) [
  | inl h ↦ ground (arith, elem-++ x ps (p ∷ []), ap (λ y. elem y ps) (same x p h))
  | inr h ↦ ground (arith, elem-++ x ps (p ∷ []))
]

elem-remove_port : (x p : ℕ) (ps : List ℕ) → elem x (remove_port p ps) ≡ (not (p == x) && elem x ps)
unfolding remove_port elem
elem-remove_port x p [] = ground arith
elem-remove_port x p (q ∷ ps) = ground (arith, elem-remove_port x p ps)

elem-port_set : (x : ℕ) (seen ps : List ℕ) → elem x (port_set seen ps) ≡ (elem x seen || elem x ps)
unfolding port_set elem
elem-port_set x seen [] = ground arith
elem-port_set x seen (p ∷ ps) =
    ground (arith, elem-port_set x (add_port p seen) ps, elem-add_port x p seen)

pub elem-numbers : (x : ℕ) (ns : List ℕ) → elem x (port_set [] ns) ≡ elem x ns
unfolding elem
elem-numbers x ns = elem-port_set x [] ns

-- With the ports of a group read from its numbers, adding a port adds that port alone, and
-- removing one removes that port alone.
pub elem-ports :
    (x p : ℕ) (numbers : List ℕ)
    → (elem x (add_port p (port_set [] numbers)) ≡ (p == x || elem x numbers))
      × (elem x (remove_port p (port_set [] numbers)) ≡ (not (p == x) && elem x numbers))
unfolding elem
elem-ports x p numbers = (
  elem-add_port x p (port_set [] numbers) ∙ ap (λ b. p == x || b) (elem-port_set x [] numbers),
  elem-remove_port x p (port_set [] numbers)
      ∙ ap (λ b. not (p == x) && b) (elem-port_set x [] numbers),
)
