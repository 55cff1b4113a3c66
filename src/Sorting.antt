-- ===== src/Sorting.antt =====
-- Sorting by a test, and the loops of internal/domain/context/compress.go that remove items.
-- `sort.Slice` may leave elements of which none is less in any order; here they keep theirs.
pub mod Order
pub mod Taken
pub mod First
use cloud_agent_platform.Base.{
  ℕ, suc, zero, String, Bool, List, [], ◌∷◌, if◌then◌else◌, contains, string_comparable,
}

-- `sort.Slice` by a test, as an insertion sort.
module _ {A : Type 0} (less : A → A → Bool) where
  unfoldable pub insert_by : A → List A → List A
  insert_by x [] = x ∷ []
  insert_by x (y ∷ ys) = if less y x then y ∷ insert_by x ys else x ∷ y ∷ ys

  unfoldable pub sort_by : List A → List A
  unfolding insert_by
  sort_by [] = []
  sort_by (x ∷ xs) = insert_by x (sort_by xs)

-- The loop that marks identifiers for removal, with the number that is left to remove, and the
-- rebuilt list.
module _ {A : Type 0} (id_of : A → String) where
  unfoldable pub mark_from : (A → Bool) → ℕ → List A → List String
  mark_from skip zero xs = []
  mark_from skip (suc left) [] = []
  mark_from skip (suc left) (x ∷ xs) =
      let skipped = mark_from skip (suc left) xs in
      let marked = mark_from skip left xs in if skip x then skipped else id_of x ∷ marked

  unfoldable pub unmarked : List String → List A → List A
  unfolding contains
  unmarked ids [] = []
  unmarked ids (x ∷ xs) = if contains (id_of x) ids then unmarked ids xs else x ∷ unmarked ids xs

unfoldable pub drop : {A : Type 0} → ℕ → List A → List A
drop zero xs = xs
drop (suc n) [] = []
drop (suc n) (x ∷ xs) = drop n xs
