-- ===== src/Sorting/First.antt =====
-- The first item of a sort, by a test that need only order the items that occur.
use cloud_agent_platform.Base.{
  Bool, true, false, List, [], ◌∷◌, ◌++◌, ◌≡◌, refl, ap, ◌∙◌, Bool-cases, inl, inr, All,
}
use cloud_agent_platform.Sorting.{insert_by, sort_by}

module _ {A : Type 0} (less : A → A → Bool) (Ordered : A → Type 0)
    (asym : (x y : A) → less y x ≡ true → less x y ≡ false)
    (trans : (x y z : A) → Ordered y → less y x ≡ false → less z y ≡ false → less z x ≡ false) where
  not_below_self : (x : A) → less x x ≡ false
  not_below_self x = elim (Bool-cases (less x x)) [ inl e ↦ asym x x e | inr e ↦ e ]

  none_below_trans :
      (x y : A) (zs : List A)
      → Ordered y
      → less y x ≡ false
      → All (λ z. less z y ≡ false) zs
      → All (λ z. less z x ≡ false) zs
  none_below_trans x y [] o h n = tt
  none_below_trans x y (z ∷ zs) o h (k, n) = (trans x y z o h k, none_below_trans x y zs o h n)

  -- The sort of a list with an item begins with an item of the list that no other is below.
  pub record IsFirst (x : A) (xs : List A) : Type 0 where
    pub first : A
    pub rest : List A
    pub before : List A
    pub after : List A
    pub sorted : sort_by less (x ∷ xs) ≡ first ∷ rest
    pub found : before ++ first ∷ after ≡ x ∷ xs
    pub low : All (λ z. less z first ≡ false) (x ∷ xs)
    pub ordered : Ordered first

  pub sort_by-IsFirst : (x : A) (xs : List A) → All Ordered (x ∷ xs) → IsFirst x xs
  unfolding sort_by insert_by
  sort_by-IsFirst x [] (o, os) = record {
    first = x;
    rest = [];
    before = [];
    after = [];
    sorted = refl;
    found = refl;
    low = (not_below_self x, tt);
    ordered = o;
  }
  sort_by-IsFirst x (y ∷ ys) (o, os) =
      let f = sort_by-IsFirst y ys os in
      elim (Bool-cases (less f.first x)) [
        | inl e ↦ record {
          first = f.first;
          rest = insert_by less x f.rest;
          before = x ∷ f.before;
          after = f.after;
          sorted = ap (insert_by less x) f.sorted ∙ rw e refl;
          found = ap (λ l. x ∷ l) f.found;
          low = (asym x f.first e, f.low);
          ordered = f.ordered;
        }
        | inr e ↦ record {
          first = x;
          rest = f.first ∷ f.rest;
          before = [];
          after = y ∷ ys;
          sorted = ap (insert_by less x) f.sorted ∙ rw e refl;
          found = refl;
          low = (not_below_self x, none_below_trans x f.first (y ∷ ys) f.ordered e f.low);
          ordered = o;
        }
      ]
