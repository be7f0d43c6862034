-- ===== src/Events/Hub/Order.antt =====
-- In which order the Handlers of a signal are called.
use milky_frog_lite.Prelude.{
  ℕ, ◌<◌, ◌≤◌, ◌⊎◌, Bool, true, false, List, [], ◌∷◌, ◌++◌, ◌≡◌, refl, ap, ◌∙◌, arith, All, Any,
  Bool-cases, inl, inr,
}
use milky_frog_lite.Events.Hub.{Registration, precedes, insert, sorted}

abbrev weight : Bool → ℕ
weight true = 1
weight false = 0

module _ {X : Type 0} where
  -- No registration precedes one that stands before it.
  abbrev HasNoneBefore : List (Registration X) → Type 0
  HasNoneBefore [] = Unit
  HasNoneBefore (r ∷ rs) = All (λ s. precedes s r ≡ false) rs × HasNoneBefore rs

  -- A less urgent registration, or as urgent a one that came no earlier.
  abbrev IsLater : Registration X → Registration X → Type 0
  IsLater r s = (s.priority < r.priority) ⊎ ((s.priority ≡ r.priority) × (r.order ≤ s.order))

  -- The most urgent ones first, and equally urgent ones in the order they came.
  abbrev pub IsOrdered : List (Registration X) → Type 0
  IsOrdered [] = Unit
  IsOrdered (r ∷ rs) = All (IsLater r) rs × IsOrdered rs

  insert-All :
      (P : Registration X → Type 0) (r : Registration X) (rs : List (Registration X))
      → P r
      → All P rs
      → All P (insert r rs)
  unfolding insert
  insert-All P r [] p h = (p, tt)
  insert-All P r (s ∷ ss) p h = elim (Bool-cases (precedes s r)) [
    | inl e ↦ rw (e, insert) (h.0, insert-All P r ss p h.1)
    | inr e ↦ rw (e, insert) (p, h)
  ]

  pub sorted-All :
      (P : Registration X → Type 0) (rs : List (Registration X)) → All P rs → All P (sorted rs)
  unfolding sorted
  sorted-All P [] h = tt
  sorted-All P (r ∷ rs) h = insert-All P r (sorted rs) h.0 (sorted-All P rs h.1)

  Any-swap :
      (P : Registration X → Type 0) (r s : Registration X) (ss : List (Registration X))
      → (Any P (r ∷ ss) → Any P (insert r ss))
      → Any P (r ∷ s ∷ ss)
      → Any P (s ∷ insert r ss)
  Any-swap P r s ss f (inl p) = inr (f (inl p))
  Any-swap P r s ss f (inr (inl p)) = inl p
  Any-swap P r s ss f (inr (inr a)) = inr (f (inr a))

  insert-Any :
      (P : Registration X → Type 0) (r : Registration X) (rs : List (Registration X))
      → Any P (r ∷ rs)
      → Any P (insert r rs)
  unfolding insert
  insert-Any P r [] h = h
  insert-Any P r (s ∷ ss) h = elim (Bool-cases (precedes s r)) [
    | inl e ↦ rw (e, insert) (Any-swap P r s ss (insert-Any P r ss) h)
    | inr e ↦ rw (e, insert) h
  ]

  pub sorted-Any :
      (P : Registration X → Type 0) (rs : List (Registration X)) → Any P rs → Any P (sorted rs)
  unfolding sorted
  sorted-Any P [] h = h
  sorted-Any P (r ∷ rs) (inl p) = insert-Any P r (sorted rs) (inl p)
  sorted-Any P (r ∷ rs) (inr a) = insert-Any P r (sorted rs) (inr (sorted-Any P rs a))

  precedes_asym : (r s : Registration X) → precedes s r ≡ true → precedes r s ≡ false
  precedes_asym r s h = ground arith

  first-insert :
      (r : Registration X) (rs : List (Registration X))
      → All (λ s. precedes r s ≡ true) rs
      → insert r rs ≡ r ∷ rs
  unfolding insert
  first-insert r [] h = refl
  first-insert r (s ∷ ss) h = rw (precedes_asym s r h.0, insert) refl

  -- A Handler whose registration precedes all the others is called before them, wherever it was
  -- registered, as the one that writes the checkpoints is.
  sorted_first :
      (r : Registration X) (before after : List (Registration X))
      → All (λ s. precedes r s ≡ true) before
      → All (λ s. precedes r s ≡ true) after
      → sorted (before ++ r ∷ after) ≡ r ∷ sorted (before ++ after)
  unfolding sorted
  sorted_first r [] after b a =
      first-insert r (sorted after) (sorted-All (λ s. precedes r s ≡ true) after a)
  sorted_first r (s ∷ before) after b a =
      ap (insert s) (sorted_first r before after b.1 a) ∙ rw (b.0, insert) refl
