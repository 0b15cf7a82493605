-- ===== src/Gui/Sockets/Laws.antt =====
-- What a broadcast leaves of the connections.
use smartedge.Base.{
  ℕ, ◌≡◌, refl, sym, ap, ◌∙◌, Bool, true, false, Option, none, some, List, [], ◌∷◌, All, arith,
}
use smartedge.Base.{◌&&◌, ◌==◌, if◌then◌else◌, Bool-cases, inl, inr}
use mathlib.Core.Bool.{false≢true}
use smartedge.Base.Exec.{Result, ok, raised, value_error}
use smartedge.Gui.Sockets.{remove, disconnected, drop_each, broadcast_to_db_clients}

-- The connections that a test keeps, in order.
pub kept : (ℕ → Bool) → List ℕ → List ℕ
kept sends [] = []
kept sends (ws ∷ xs) = let rest = kept sends xs in if sends ws then ws ∷ rest else rest

apart : (sends : ℕ → Bool) (x y : ℕ) → sends x ≡ false → sends y ≡ true → (x == y) ≡ false
apart sends x y fails works = elim (Bool-cases (x == y)) [
  | inr h ↦ h
  | inl h ↦ absurd (false≢true (sym fails ∙ ap sends {x = x} {y = y} (ground arith) ∙ works))
]

raised_first :
    {xs ys : List ℕ} → ◌≡◌ {A = Result (Unit {0}) × List ℕ} (raised value_error, xs) (ok tt, ys) → ⊥
raised_first h = cc

module _ (sends : ℕ → Bool) where
  abbrev Fails : List ℕ → Type 0
  Fails = All (λ x. sends x ≡ false)

  disconnected-Fails : (xs : List ℕ) → Fails (disconnected sends xs)
  unfolding disconnected
  disconnected-Fails [] = tt
  disconnected-Fails (x ∷ xs) = elim (Bool-cases (sends x)) [
    | inl h ↦ rw (h) (disconnected-Fails xs)
    | inr h ↦ rw (h) (h, disconnected-Fails xs)
  ]

  -- A connection that works is passed over.
  drop_each-works :
      (gone xs zs : List ℕ) (y : ℕ)
      → sends y ≡ true
      → Fails gone
      → drop_each gone xs ≡ (ok tt, zs)
      → drop_each gone (y ∷ xs) ≡ (ok tt, y ∷ zs)
  unfolding drop_each remove
  drop_each-works [] xs zs y works f h = ground (arith, h)
  drop_each-works (d ∷ gone) xs zs y works (fails, f) h =
      go (λ ys r. drop_each-works gone ys zs y works f r) (remove d xs) refl h
    where
      go :
          ((ys : List ℕ)
            → drop_each gone ys ≡ (ok tt, zs)
            → drop_each gone (y ∷ ys) ≡ (ok tt, y ∷ zs))
          → (o : Option (List ℕ)) → remove d xs ≡ o
          → (elim o as (λ _. Result (Unit {0}) × List ℕ) [
            | none ↦ (raised value_error, xs)
            | some ys ↦ drop_each gone ys
          ])
            ≡ (ok tt, zs)
          → drop_each (d ∷ gone) (y ∷ xs) ≡ (ok tt, y ∷ zs)
      go again none e r = absurd (raised_first r)
      go again (some ys) e r = ground (arith, e, apart sends d y fails works, again ys r)

  drop_each-disconnected :
      (xs : List ℕ) → drop_each (disconnected sends xs) xs ≡ (ok tt, kept sends xs)
  unfolding drop_each disconnected remove kept
  drop_each-disconnected [] = refl
  drop_each-disconnected (x ∷ xs) = elim (Bool-cases (sends x)) [
    | inl h ↦ rw (h) (
        drop_each-works (disconnected sends xs) xs (kept sends xs) x h (disconnected-Fails xs)
          (drop_each-disconnected xs))
    | inr h ↦ rw (h) (ground (arith, drop_each-disconnected xs))
  ]

-- A broadcast of a message that has an encoding raises nothing, and leaves exactly the connections
-- that are open and take the message, in their order.
pub broadcast-kept :
    (is_connected sends : ℕ → Bool) (xs : List ℕ)
    → broadcast_to_db_clients true is_connected sends xs
      ≡ (ok tt, kept (λ ws. is_connected ws && sends ws) xs)
unfolding broadcast_to_db_clients
broadcast-kept is_connected sends xs = drop_each-disconnected (λ ws. is_connected ws && sends ws) xs
