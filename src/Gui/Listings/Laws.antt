-- ===== src/Gui/Listings/Laws.antt =====
-- The order of the swarms that the browser is shown.
use smartedge.Base.{
  ℕ, suc, ◌≡◌, refl, ap, ◌∙◌, true, false, some, List, [], ◌∷◌, map, inl, inr, arith,
}
use smartedge.Base.{Text, ◌||◌, elem_text, ◌=?◌, Bool-cases}
use smartedge.Gui.Requests.{swarm_tables}
use smartedge.Gui.Listings.{text_leb, insert, sorted, Swarm, numbered, get_swarms}

-- Each text is at most the next one.
abbrev pub Ascending : List Text → Type 0
Ascending [] = Unit
Ascending (x ∷ []) = Unit
Ascending (x ∷ y ∷ ys) = (text_leb x y ≡ true) × Ascending (y ∷ ys)

text_leb-total : (s t : Text) → text_leb s t ≡ false → text_leb t s ≡ true
unfolding text_leb
text_leb-total [] t h = ground (arith, h)
text_leb-total (a ∷ s) [] h = refl
text_leb-total (a ∷ s) (b ∷ t) h = elim (Bool-cases (text_leb s t)) [
  | inl le ↦ ground (arith, h, le)
  | inr gt ↦ ground (arith, h, gt, text_leb-total s t gt)
]

-- What stands before a list still does when a text that is not below it is inserted.
insert-after :
    (y x : Text) (ys : List Text)
    → Ascending (y ∷ ys)
    → text_leb y x ≡ true
    → Ascending (y ∷ insert x ys)
unfolding insert
insert-after y x [] h le = (le, tt)
insert-after y x (z ∷ ys) (first, h) le = elim (Bool-cases (text_leb x z)) [
  | inl before ↦ rw before (le, (before, h))
  | inr after ↦ rw after (first, insert-after z x ys h (text_leb-total x z after))
]

insert-Ascending : (x : Text) (ys : List Text) → Ascending ys → Ascending (insert x ys)
unfolding insert
insert-Ascending x [] h = tt
insert-Ascending x (y ∷ ys) h = elim (Bool-cases (text_leb x y)) [
  | inl before ↦ rw before (before, h)
  | inr after ↦ rw after (insert-after y x ys h (text_leb-total x y after))
]

elem_text-insert :
    (t x : Text) (ys : List Text) → elem_text t (insert x ys) ≡ (x =? t || elem_text t ys)
unfolding insert elem_text
elem_text-insert t x [] = refl
elem_text-insert t x (y ∷ ys) = ground (arith, elem_text-insert t x ys)

sorted-Ascending : (ts : List Text) → Ascending (sorted ts)
unfolding sorted
sorted-Ascending [] = tt
sorted-Ascending (t ∷ ts) = insert-Ascending t (sorted ts) (sorted-Ascending ts)

elem_text-sorted : (t : Text) (ts : List Text) → elem_text t (sorted ts) ≡ elem_text t ts
unfolding sorted elem_text
elem_text-sorted t [] = refl
elem_text-sorted t (x ∷ ts) =
    elem_text-insert t x (sorted ts) ∙ ap (λ b. x =? t || b) (elem_text-sorted t ts)

abbrev tables : List Swarm → List Text
tables = map (λ s. s.table)

tables-numbered : (i : ℕ) (ts : List Text) → tables (numbered i ts) ≡ ts
unfolding numbered
tables-numbered i [] = refl
tables-numbered i (t ∷ ts) = ap (◌∷◌ t) (tables-numbered (suc i) ts)

-- The tables of the swarms stand in order, and are those of the keyspace that begin with
-- "swarm_table".
pub tables-get_swarms :
    (names : List Text)
    → Ascending (tables (get_swarms (some names)))
      × ((t : Text)
          → elem_text t (tables (get_swarms (some names))) ≡ elem_text t (swarm_tables names))
unfolding get_swarms
tables-get_swarms names =
    rw (tables-numbered 0 (sorted (swarm_tables names)))
      (sorted-Ascending (swarm_tables names), λ t. elem_text-sorted t (swarm_tables names))
