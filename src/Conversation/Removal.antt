-- ===== src/Conversation/Removal.antt =====
-- The marking and the removal of Conversation/Marking, for items of which some are passed over.
use cloud_agent_platform.Base.{
  ℕ, zero, suc, String, Bool, true, false, not, ◌&&◌, ◌||◌, List, [], ◌∷◌, ◌≡◌, ◌==◌, refl, arith,
  ◌∙◌, if◌then◌else◌, Bool-cases, inl, inr, contains, string_comparable, same_self,
}
use cloud_agent_platform.Sorting.{insert_by, sort_by, mark_from, unmarked}

-- Items with identifiers.
module _ {A : Type 0} (id_of : A → String) (skip : A → Bool) (less : A → A → Bool) where
  -- Some item with the identifier passes the test.
  unfoldable pub has : (A → Bool) → String → List A → Bool
  has p k [] = false
  has p k (x ∷ xs) = (p x && (id_of x == k)) || has p k xs

  abbrev pub others : A → Bool
  others x = not (skip x)

  -- No item that is passed over shares its identifier with one that is not.
  abbrev pub IsApart : List A → Type 0
  IsApart xs = (k : String) → has skip k xs ≡ true → has others k xs ≡ false

  -- The items that are passed over.
  unfoldable pub passed : List A → List A
  passed [] = []
  passed (x ∷ xs) = if skip x then x ∷ passed xs else passed xs

  has-insert_by :
      (p : A → Bool) (k : String) (x : A) (xs : List A)
      → has p k (insert_by less x xs) ≡ ((p x && (id_of x == k)) || has p k xs)
  unfolding has insert_by
  has-insert_by p k x [] = refl
  has-insert_by p k x (y ∷ ys) = ground (arith, has-insert_by p k x ys)

  has-sort_by : (p : A → Bool) (k : String) (xs : List A) → has p k (sort_by less xs) ≡ has p k xs
  unfolding has sort_by
  has-sort_by p k [] = refl
  has-sort_by p k (x ∷ xs) =
      ground (arith, has-insert_by p k x (sort_by less xs), has-sort_by p k xs)

  contains-mark_from :
      (k : String) (n : ℕ) (xs : List A)
      → has others k xs ≡ false
      → contains k (mark_from id_of skip n xs) ≡ false
  unfolding has mark_from contains
  contains-mark_from k zero xs h = refl
  contains-mark_from k (suc n) [] h = refl
  contains-mark_from k (suc n) (x ∷ xs) h =
      ground (arith, contains-mark_from k (suc n) xs, contains-mark_from k n xs)

  has-unmarked :
      (p : A → Bool) (k : String) (ids : List String) (xs : List A)
      → has p k xs ≡ false
      → has p k (unmarked id_of ids xs) ≡ false
  unfolding has unmarked
  has-unmarked p k ids [] h = refl
  has-unmarked p k ids (x ∷ xs) h = ground (arith, has-unmarked p k ids xs)

  passed-unmarked :
      (ids : List String) (xs : List A)
      → ((k : String) → has skip k xs ≡ true → contains k ids ≡ false)
      → passed (unmarked id_of ids xs) ≡ passed xs
  unfolding has unmarked passed
  passed-unmarked ids [] h = refl
  passed-unmarked ids (x ∷ xs) h = ground (
    arith,
    passed-unmarked ids xs (λ k e. h k (ground (arith, e))),
    h (id_of x),
    same_self (id_of x),
  )

  -- One removal keeps the items that are passed over, and keeps them apart from the others.
  pub passed-removal :
      (n : ℕ) (xs : List A)
      → IsApart xs
      → passed (unmarked id_of (mark_from id_of skip n (sort_by less xs)) xs) ≡ passed xs
  passed-removal n xs a =
      passed-unmarked (mark_from id_of skip n (sort_by less xs)) xs
        (λ k e. contains-mark_from k n (sort_by less xs) (has-sort_by others k xs ∙ a k e))

  pub IsApart-unmarked :
      (ids : List String) (xs : List A) → IsApart xs → IsApart (unmarked id_of ids xs)
  IsApart-unmarked ids xs a k e = elim (Bool-cases (has skip k xs)) [
    | inl h ↦ has-unmarked others k ids xs (a k h)
    | inr h ↦ absurd (ground (arith, e, has-unmarked skip k ids xs h))
  ]
