-- ===== src/Decompose/Counting.antt =====
-- Occurrences in lists of identifiers, and the dependencies that are not met yet.
use cloud_agent_platform.Base.{
  ℕ, ◌+◌, ◌≤◌, ◌≡◌, refl, String, true, false, List, [], ◌∷◌, ◌++◌, arith, ◌==◌, string_comparable,
  contains, contains-append, if◌then◌else◌, length, suc, same_self, IsDistinct,
}

unfoldable pub count : String → List String → ℕ
count u [] = 0
count u (x ∷ xs) = (if x == u then 1 else 0) + count u xs

-- How many of the identifiers are not in `done`?
unfoldable pub missing : List String → List String → ℕ
missing done [] = 0
missing done (x ∷ xs) = (if contains x done then 0 else 1) + missing done xs

-- The edges from `u` to `x`, and the edges into `x` whose start is not done.
unfoldable pub edges : List (String × List String) → String → String → ℕ
unfolding count
edges [] x u = 0
edges ((id, deps) ∷ g) x u = (if id == x then count u deps else 0) + edges g x u

unfoldable pub unmet : List (String × List String) → String → List String → ℕ
unfolding missing
unmet [] x done = 0
unmet ((id, deps) ∷ g) x done = (if id == x then missing done deps else 0) + unmet g x done

pub count-append : (u : String) (xs ys : List String) → count u (xs ++ ys) ≡ count u xs + count u ys
unfolding count
count-append u [] ys = omega arith
count-append u (x ∷ xs) ys = omega (arith, count-append u xs ys)

pub missing-nil : (xs : List String) → missing [] xs ≡ length xs
unfolding missing contains
missing-nil [] = refl
missing-nil (x ∷ xs) = omega (arith, missing-nil xs)

pub missing-snoc :
    (u : String) (done xs : List String)
    → contains u done ≡ false
    → missing (done ++ u ∷ []) xs + count u xs ≡ missing done xs
unfolding missing count contains
missing-snoc u done [] h = refl
missing-snoc u done (x ∷ xs) h = ground (
  arith,
  missing-snoc u done xs h,
  contains-append x done (u ∷ []),
  string_comparable.same_iff x u,
  string_comparable.same_iff u x,
)

-- Once `u` is done, the edges from it are met.
pub unmet-snoc :
    (g : List (String × List String)) (x u : String) (done : List String)
    → contains u done ≡ false
    → unmet g x (done ++ u ∷ []) + edges g x u ≡ unmet g x done
unfolding unmet edges
unmet-snoc [] x u done h = refl
unmet-snoc ((id, deps) ∷ g) x u done h =
    ground (arith, unmet-snoc g x u done h, missing-snoc u done deps h)

pub missing_mono :
    (xs done more : List String)
    → ((y : String) → contains y done ≡ true → contains y more ≡ true)
    → missing more xs ≤ missing done xs
unfolding missing
missing_mono [] done more h = omega arith
missing_mono (x ∷ xs) done more h = ground (arith, missing_mono xs done more h, h x)

pub unmet_mono :
    (g : List (String × List String)) (x : String) (done more : List String)
    → ((y : String) → contains y done ≡ true → contains y more ≡ true)
    → unmet g x more ≤ unmet g x done
unfolding unmet
unmet_mono [] x done more h = omega arith
unmet_mono ((id, deps) ∷ g) x done more h =
    ground (arith, unmet_mono g x done more h, missing_mono deps done more h)

-- What stands before the first occurrence.
unfoldable pub earlier : String → List String → List String
earlier x [] = []
earlier x (y ∷ ys) = if y == x then [] else y ∷ earlier x ys

pub earlier-snoc :
    (x u : String) (xs : List String)
    → contains x xs ≡ true
    → earlier x (xs ++ u ∷ []) ≡ earlier x xs
unfolding earlier contains
earlier-snoc x u [] h = cc
earlier-snoc x u (y ∷ ys) h = ground (arith, earlier-snoc x u ys)

-- At the first occurrence.
pub earlier-middle :
    (x : String) (xs ys : List String) → contains x xs ≡ false → earlier x (xs ++ x ∷ ys) ≡ xs
unfolding earlier contains
earlier-middle x [] ys h = ground (arith, same_self x)
earlier-middle x (y ∷ xs) ys h = ground (arith, earlier-middle x xs ys)

remove : String → List String → List String
remove x [] = []
remove x (y ∷ ys) = if y == x then ys else y ∷ remove x ys

length-remove :
    (x : String) (ys : List String) → contains x ys ≡ true → length ys ≡ suc (length (remove x ys))
unfolding remove contains
length-remove x [] h = cc
length-remove x (y ∷ ys) h = ground (arith, length-remove x ys)

contains-remove :
    (z x : String) (ys : List String)
    → (z == x) ≡ false
    → contains z ys ≡ true
    → contains z (remove x ys) ≡ true
unfolding remove contains
contains-remove z x [] n h = cc
contains-remove z x (y ∷ ys) n h = ground (
  arith,
  contains-remove z x ys n,
  string_comparable.same_iff y x,
  string_comparable.same_iff y z,
  string_comparable.same_iff z x,
)

-- Different identifiers that all stand in a list are no more than its length.
pub length-le_of_contains :
    (xs ys : List String)
    → IsDistinct xs
    → ((z : String) → contains z xs ≡ true → contains z ys ≡ true)
    → length xs ≤ length ys
unfolding contains
length-le_of_contains [] ys d h = omega arith
length-le_of_contains (x ∷ xs) ys (fresh, d) h =
    let found : contains x ys ≡ true = h x (ground (arith, same_self x)) in
    let rest = length-le_of_contains xs (remove x ys) d (λ z k.
      contains-remove z x ys (ground (arith, string_comparable.same_iff z x))
        (h z (ground arith))) in
    omega (arith, rest, length-remove x ys found)
