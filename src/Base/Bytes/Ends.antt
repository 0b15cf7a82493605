-- ===== src/Base/Bytes/Ends.antt =====
-- `strip` on texts that begin and end with other characters than white space.
use Prim.Native.Nat.{ℕ}
use mathlib.Core.Path.{◌≡◌, refl, ap, ◌∙◌}
use mathlib.Core.Bool.{Bool, true, false, not}
use mathlib.Core.List.{[], ◌∷◌, ◌++◌}
use native.Mathlib.Omega.{arith}
use smartedge.Base.Lists.{All}
use smartedge.Base.Eq.{Text}
use smartedge.Base.Bytes.{is_space, lstrip, rstrip, strip}

-- The last character is there and satisfies the test.
unfoldable pub ends_in : (ℕ → Bool) → Text → Bool
ends_in p [] = false
ends_in p (c ∷ []) = p c
ends_in p (c ∷ d ∷ t) = ends_in p (d ∷ t)

-- So does the first.
unfoldable pub begins_in : (ℕ → Bool) → Text → Bool
begins_in p [] = false
begins_in p (c ∷ t) = p c

abbrev pub no_space : ℕ → Bool
no_space c = not (is_space c)

pub ends_in-append : (p : ℕ → Bool) (s t : Text) → ends_in p t ≡ true → ends_in p (s ++ t) ≡ true
unfolding ends_in
ends_in-append p [] t h = h
ends_in-append p (c ∷ []) [] h = ground (arith, h)
ends_in-append p (c ∷ []) (d ∷ t) h = h
ends_in-append p (c ∷ b ∷ s) t h = ends_in-append p (b ∷ s) t h

rstrip-ends_in : (t : Text) → ends_in no_space t ≡ true → rstrip is_space t ≡ t
unfolding rstrip ends_in
rstrip-ends_in [] h = refl
rstrip-ends_in (c ∷ []) h = ground (arith, h)
rstrip-ends_in (c ∷ d ∷ t) h = rw (rstrip-ends_in (d ∷ t) h) refl

lstrip-begins_in : (t : Text) → begins_in no_space t ≡ true → lstrip is_space t ≡ t
unfolding lstrip begins_in
lstrip-begins_in [] h = refl
lstrip-begins_in (c ∷ t) h = ground (arith, h)

rstrip-spaces : (s : Text) → All (λ d. is_space d ≡ true) s → rstrip is_space s ≡ []
unfolding rstrip
rstrip-spaces [] h = refl
rstrip-spaces (d ∷ s) (here, h) = rw (rstrip-spaces s h, here) refl

rstrip-append_spaces :
    (t s : Text) → All (λ d. is_space d ≡ true) s → rstrip is_space (t ++ s) ≡ rstrip is_space t
unfolding rstrip
rstrip-append_spaces [] s h = rstrip-spaces s h
rstrip-append_spaces (c ∷ t) s h = rw (rstrip-append_spaces t s h) refl

pub begins_in-append :
    (p : ℕ → Bool) (s t : Text) → begins_in p s ≡ true → begins_in p (s ++ t) ≡ true
unfolding begins_in
begins_in-append p [] t h = ground (arith, h)
begins_in-append p (c ∷ s) t h = h

pub strip-ends : (t : Text) → begins_in no_space t ≡ true → ends_in no_space t ≡ true → strip t ≡ t
unfolding strip
strip-ends t b e = ap (rstrip is_space) (lstrip-begins_in t b) ∙ rstrip-ends_in t e

-- White space behind such a text goes.
pub strip-append_spaces :
    (t s : Text)
    → begins_in no_space t ≡ true
    → ends_in no_space t ≡ true
    → All (λ d. is_space d ≡ true) s
    → strip (t ++ s) ≡ t
unfolding strip
strip-append_spaces t s b e h =
    ap (rstrip is_space) (lstrip-begins_in (t ++ s) (begins_in-append no_space t s b))
    ∙ rstrip-append_spaces t s h
    ∙ rstrip-ends_in t e
