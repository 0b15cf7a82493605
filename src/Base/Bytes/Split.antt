-- ===== src/Base/Bytes/Split.antt =====
-- `text.split(sep)` at a separator of several characters whose first character stands nowhere else.
use Prim.Native.Nat.{ℕ, zero}
use mathlib.Core.Path.{◌≡◌, refl, ap, ◌∙◌}
use mathlib.Core.Bool.{true, false}
use mathlib.Core.List.{[], ◌∷◌, ◌++◌}
use native.Mathlib.Omega.{arith}
use smartedge.Base.Tests.{◌==◌}
use smartedge.Base.Lists.{length}
use smartedge.Base.Eq.{Text}
use smartedge.Base.Bytes.{has_char, prepend, starts_with, split_from, split_text}

starts_with-append : (s t : Text) → starts_with s (s ++ t) ≡ true
unfolding starts_with
starts_with-append [] t = refl
starts_with-append (c ∷ s) t = ground (arith, starts_with-append s t)

split_from-skip : (sep s t : Text) → split_from sep (length s) (s ++ t) ≡ split_from sep zero t
unfolding split_from
split_from-skip sep [] t = refl
split_from-skip sep (c ∷ s) t = split_from-skip sep s t

module _ (p : ℕ) (sep : Text) where
  split_from-whole : (t : Text) → has_char p t ≡ false → split_from (p ∷ sep) zero t ≡ t ∷ []
  unfolding split_from has_char starts_with
  split_from-whole [] h = refl
  split_from-whole (c ∷ t) h = ground (arith, h, split_from-whole t)

  split_from-sep :
      (t : Text) → split_from (p ∷ sep) zero (p ∷ (sep ++ t)) ≡ [] ∷ split_from (p ∷ sep) zero t
  unfolding split_from starts_with
  split_from-sep t = ground (arith, starts_with-append sep t, split_from-skip (p ∷ sep) sep t)

  split_from-other :
      (c : ℕ) (t : Text)
      → (c == p) ≡ false
      → split_from (p ∷ sep) zero (c ∷ t) ≡ prepend c (split_from (p ∷ sep) zero t)
  unfolding split_from starts_with
  split_from-other c t h = rw h refl

  split_from-append :
      (front t : Text)
      → has_char p front ≡ false
      → split_from (p ∷ sep) zero (front ++ p ∷ (sep ++ t)) ≡ front ∷ split_from (p ∷ sep) zero t
  unfolding has_char
  split_from-append [] t h = split_from-sep t
  split_from-append (c ∷ front) t h =
      split_from-other c (front ++ p ∷ (sep ++ t)) (ground (arith, h))
      ∙ ap (prepend c) (split_from-append front t (ground (arith, h)))

  pub split_text-once :
      (front t : Text)
      → has_char p front ≡ false
      → has_char p t ≡ false
      → split_text (p ∷ sep) (front ++ p ∷ (sep ++ t)) ≡ front ∷ t ∷ []
  unfolding split_text
  split_text-once front t h k = split_from-append front t h ∙ ap (◌∷◌ front) (split_from-whole t k)
