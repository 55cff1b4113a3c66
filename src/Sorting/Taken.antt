-- ===== src/Sorting/Taken.antt =====
-- What the loops over a sorted list take, and what they leave: how many items, which ones, and in
-- which order.
use Prim.Native.Nat.{min}
use cloud_agent_platform.Base.{
  ℕ, zero, suc, ◌+◌, String, Bool, true, false, not, ◌&&◌, List, [], ◌∷◌, ◌++◌, ◌≡◌, refl, ap, sym,
  ◌∙◌, Bool-cases, inl, inr, All, if◌then◌else◌, arith, length, map,
}
use mathlib.Core.Path.{subst}
use cloud_agent_platform.Sorting.{insert_by, sort_by, mark_from, drop}
use cloud_agent_platform.Sorting.Order.{NoneBelow, IsSorted}

-- The number of items that pass a test.
unfoldable pub how_many : {A : Type 0} → (A → Bool) → List A → ℕ
how_many p [] = 0
how_many p (x ∷ xs) = (if p x then 1 else 0) + how_many p xs

pub how_many-append :
    {A : Type 0} (p : A → Bool) (xs ys : List A)
    → how_many p (xs ++ ys) ≡ how_many p xs + how_many p ys
unfolding how_many
how_many-append p [] ys = omega arith
how_many-append p (x ∷ xs) ys = omega (arith, how_many-append p xs ys)

module _ {A : Type 0} (less : A → A → Bool) where
  how_many-insert_by :
      (p : A → Bool) (x : A) (ys : List A)
      → how_many p (insert_by less x ys) ≡ (if p x then 1 else 0) + how_many p ys
  unfolding how_many insert_by
  how_many-insert_by p x [] = refl
  how_many-insert_by p x (y ∷ ys) = elim (Bool-cases (less y x)) [
    | inl e ↦ rw e (omega (arith, how_many-insert_by p x ys))
    | inr e ↦ rw e refl
  ]

  -- A sort keeps its items.
  pub how_many-sort_by : (p : A → Bool) (xs : List A) → how_many p (sort_by less xs) ≡ how_many p xs
  unfolding how_many sort_by
  how_many-sort_by p [] = refl
  how_many-sort_by p (x ∷ xs) =
      how_many-insert_by p x (sort_by less xs)
      ∙ ap (λ n. (if p x then 1 else 0) + n) (how_many-sort_by p xs)

  length-insert_by : (x : A) (ys : List A) → length (insert_by less x ys) ≡ suc (length ys)
  unfolding insert_by
  length-insert_by x [] = refl
  length-insert_by x (y ∷ ys) = elim (Bool-cases (less y x)) [
    | inl e ↦ rw e (ap suc (length-insert_by x ys))
    | inr e ↦ rw e refl
  ]

  pub length-sort_by : (xs : List A) → length (sort_by less xs) ≡ length xs
  unfolding sort_by
  length-sort_by [] = refl
  length-sort_by (x ∷ xs) = length-insert_by x (sort_by less xs) ∙ ap suc (length-sort_by xs)

  module _ (asym : (x y : A) → less y x ≡ true → less x y ≡ false)
      (trans : (x y z : A) → less y x ≡ false → less z y ≡ false → less z x ≡ false) where
    -- What is cut off the front of a sorted list.
    pub record Dropped (n : ℕ) (xs : List A) : Type 0 where
      pub removed : List A
      pub whole : removed ++ drop n xs ≡ xs
      pub number : length removed ≡ min n (length xs)
      pub below : All (λ x. NoneBelow less asym trans x (drop n xs)) removed

    NoneBelow-back :
        (x : A) (front back : List A)
        → NoneBelow less asym trans x (front ++ back)
        → NoneBelow less asym trans x back
    NoneBelow-back x [] back n = n
    NoneBelow-back x (y ∷ front) back (k, n) = NoneBelow-back x front back n

    pub drop-Dropped : (n : ℕ) (xs : List A) → IsSorted less asym trans xs → Dropped n xs
    unfolding drop
    drop-Dropped zero xs s = record { removed = []; whole = refl; number = omega arith; below = tt }
    drop-Dropped (suc n) [] s = record {
      removed = [];
      whole = refl;
      number = omega arith;
      below = tt;
    }
    drop-Dropped (suc n) (x ∷ xs) (k, s) =
        let d = drop-Dropped n xs s in
        record {
          removed = x ∷ d.removed;
          whole = ap (λ l. x ∷ l) d.whole;
          number = omega (arith, d.number);
          below = (
            NoneBelow-back x d.removed (drop n xs)
                (subst (λ l. NoneBelow less asym trans x l) (sym d.whole) k),
            d.below,
          );
        }

    module _ (id_of : A → String) (skip : A → Bool) where
      -- The items that are not passed over.
      unfoldable free : List A → List A
      free [] = []
      free (x ∷ xs) = if skip x then free xs else x ∷ free xs

      how_many-free :
          (p : A → Bool) (xs : List A)
          → how_many p (free xs) ≡ how_many (λ x. not (skip x) && p x) xs
      unfolding free how_many
      how_many-free p [] = refl
      how_many-free p (x ∷ xs) = elim (Bool-cases (skip x)) [
        | inl e ↦ rw e (omega (arith, how_many-free p xs))
        | inr e ↦ rw e (ap (λ n. (if p x then 1 else 0) + n) (how_many-free p xs))
      ]

      NoneBelow-free :
          (z : A) (xs : List A)
          → NoneBelow less asym trans z xs
          → NoneBelow less asym trans z (free xs)
      unfolding free
      NoneBelow-free z [] h = tt
      NoneBelow-free z (x ∷ xs) (k, h) = elim (Bool-cases (skip x)) [
        | inl e ↦ rw e (NoneBelow-free z xs h)
        | inr e ↦ rw e (k, NoneBelow-free z xs h)
      ]

      -- What the loop marks in a sorted list, and what is left of the items that are not passed over.
      pub record Taken (n : ℕ) (xs : List A) : Type 0 where
        pub removed : List A
        pub kept : List A
        pub marked : mark_from id_of skip n xs ≡ map id_of removed
        pub number : length removed ≡ min n (how_many (λ x. not (skip x)) xs)
        pub whole :
            (p : A → Bool)
            → how_many p removed + how_many p kept ≡ how_many (λ x. not (skip x) && p x) xs
        pub below : All (λ x. NoneBelow less asym trans x kept) removed
        pub under : (z : A) → NoneBelow less asym trans z xs → NoneBelow less asym trans z kept

      pub mark_from-Taken : (n : ℕ) (xs : List A) → IsSorted less asym trans xs → Taken n xs
      unfolding mark_from how_many
      mark_from-Taken zero xs s = record {
        removed = [];
        kept = free xs;
        marked = refl;
        number = omega arith;
        whole = λ p. omega (arith, how_many-free p xs);
        below = tt;
        under = λ z. NoneBelow-free z xs;
      }
      mark_from-Taken (suc n) [] s = record {
        removed = [];
        kept = [];
        marked = refl;
        number = omega arith;
        whole = λ p. refl;
        below = tt;
        under = λ z h. tt;
      }
      mark_from-Taken (suc n) (x ∷ xs) (k, s) = elim (Bool-cases (skip x)) [
        | inl e ↦
            let t = mark_from-Taken (suc n) xs s in
            record {
              removed = t.removed;
              kept = t.kept;
              marked = rw e t.marked;
              number = rw e (omega (arith, t.number));
              whole = λ p. rw e (omega (arith, t.whole p));
              below = t.below;
              under = λ z h. t.under z h.1;
            }
        | inr e ↦
            let t = mark_from-Taken n xs s in
            record {
              removed = x ∷ t.removed;
              kept = t.kept;
              marked = rw e (ap (λ l. id_of x ∷ l) t.marked);
              number = rw e (omega (arith, t.number));
              whole = λ p. rw e (omega (arith, t.whole p));
              below = (t.under x k, t.below);
              under = λ z h. t.under z h.1;
            }
      ]
