-- ===== src/Sorting/Order.antt =====
-- The sort, for a test that orders its items.
use cloud_agent_platform.Base.{Bool, true, false, List, [], ◌∷◌, ◌≡◌, Bool-cases, inl, inr, All}
use cloud_agent_platform.Sorting.{insert_by, sort_by}

module _ {A : Type 0} (less : A → A → Bool) (asym : (x y : A) → less y x ≡ true → less x y ≡ false)
    (trans : (x y z : A) → less y x ≡ false → less z y ≡ false → less z x ≡ false) where
  -- None of the items is less than x.
  abbrev pub NoneBelow : A → List A → Type 0
  NoneBelow x ys = All (λ y. less y x ≡ false) ys

  abbrev pub IsSorted : List A → Type 0
  IsSorted [] = Unit
  IsSorted (x ∷ xs) = NoneBelow x xs × IsSorted xs

  NoneBelow-insert_by :
      (z x : A) (ys : List A)
      → less x z ≡ false
      → NoneBelow z ys
      → NoneBelow z (insert_by less x ys)
  unfolding insert_by
  NoneBelow-insert_by z x [] h n = (h, tt)
  NoneBelow-insert_by z x (y ∷ ys) h (k, n) = elim (Bool-cases (less y x)) [
    | inl e ↦ rw e (k, NoneBelow-insert_by z x ys h n)
    | inr e ↦ rw e (h, (k, n))
  ]

  NoneBelow-trans : (x y : A) (zs : List A) → less y x ≡ false → NoneBelow y zs → NoneBelow x zs
  NoneBelow-trans x y [] h n = tt
  NoneBelow-trans x y (z ∷ zs) h (k, n) = (trans x y z h k, NoneBelow-trans x y zs h n)

  IsSorted-insert_by : (x : A) (ys : List A) → IsSorted ys → IsSorted (insert_by less x ys)
  unfolding insert_by
  IsSorted-insert_by x [] s = (tt, tt)
  IsSorted-insert_by x (y ∷ ys) (n, s) = elim (Bool-cases (less y x)) [
    | inl e ↦ rw e (NoneBelow-insert_by y x ys (asym x y e) n, IsSorted-insert_by x ys s)
    | inr e ↦ rw e ((e, NoneBelow-trans x y ys e n), (n, s))
  ]

  pub IsSorted-sort_by : (xs : List A) → IsSorted (sort_by less xs)
  unfolding sort_by
  IsSorted-sort_by [] = tt
  IsSorted-sort_by (x ∷ xs) = IsSorted-insert_by x (sort_by less xs) (IsSorted-sort_by xs)
