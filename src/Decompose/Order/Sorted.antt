-- ===== src/Decompose/Order/Sorted.antt =====
-- Sorting keeps what the queue holds.
use cloud_agent_platform.Base.{
  ◌≡◌, refl, String, false, ◌||◌, List, [], ◌∷◌, arith, ◌==◌, string_comparable, contains,
  IsDistinct,
}
use cloud_agent_platform.Decompose.Order.{insert_sorted, sort_strings}

contains-insert_sorted :
    (x s : String) (ts : List String) → contains x (insert_sorted s ts) ≡ (s == x || contains x ts)
unfolding insert_sorted contains
contains-insert_sorted x s [] = refl
contains-insert_sorted x s (t ∷ ts) = ground (arith, contains-insert_sorted x s ts)

insert_sorted-IsDistinct :
    (s : String) (ts : List String)
    → contains s ts ≡ false
    → IsDistinct ts
    → IsDistinct (insert_sorted s ts)
unfolding insert_sorted contains
insert_sorted-IsDistinct s [] h d = (refl, tt)
insert_sorted-IsDistinct s (t ∷ ts) h d = ground (
  arith,
  insert_sorted-IsDistinct s ts,
  contains-insert_sorted t s ts,
  string_comparable.same_iff s t,
  string_comparable.same_iff t s,
)

pub contains-sort_strings :
    (x : String) (ss : List String) → contains x (sort_strings ss) ≡ contains x ss
unfolding sort_strings contains
contains-sort_strings x [] = refl
contains-sort_strings x (s ∷ ss) =
    ground (arith, contains-insert_sorted x s (sort_strings ss), contains-sort_strings x ss)

pub sort_strings-IsDistinct : (ss : List String) → IsDistinct ss → IsDistinct (sort_strings ss)
unfolding sort_strings
sort_strings-IsDistinct [] d = tt
sort_strings-IsDistinct (s ∷ ss) (fresh, d) =
    insert_sorted-IsDistinct s (sort_strings ss) (ground (arith, contains-sort_strings s ss))
      (sort_strings-IsDistinct ss d)
