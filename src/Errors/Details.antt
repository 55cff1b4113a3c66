-- ===== src/Errors/Details.antt =====
-- What `WithDetails` makes of the details of an error.
use cloud_agent_platform.Base.{
  String, Option, none, some, List, [], ◌∷◌, ◌≡◌, ◌==◌, refl, arith, ap, ◌∙◌, string_comparable,
  if◌then◌else◌,
}
use cloud_agent_platform.Errors.{
  Value, DetailMap, AppError, entries, put_detail, put_details, with_details,
}

-- The value under a key.
unfoldable pub get_detail : String → List (String × Value) → Option Value
get_detail k [] = none
get_detail k ((k', v) ∷ m) = if k' == k then some v else get_detail k m

-- The entries of a map: no key has two.
unfoldable pub IsMap : List (String × Value) → Type 0
unfolding get_detail
IsMap [] = Unit
IsMap ((k, v) ∷ m) = (get_detail k m ≡ none) × IsMap m

abbrev pub or_else : Option Value → Option Value → Option Value
or_else none y = y
or_else (some x) y = some x

or_else-none : (x : Option Value) → or_else x none ≡ x
or_else-none none = refl
or_else-none (some x) = refl

get-put_detail :
    (k j : String) (v : Value) (m : List (String × Value))
    → get_detail j (put_detail k v m) ≡ (if k == j then some v else get_detail j m)
unfolding get_detail put_detail
get-put_detail k j v [] = refl
get-put_detail k j v ((k', v') ∷ m) = grind (
  arith,
  get-put_detail k j v m,
  string_comparable.same_iff k' k,
  string_comparable.same_iff k' j,
  string_comparable.same_iff k j,
)

get-put_details :
    (j : String) (d m : List (String × Value))
    → IsMap d
    → get_detail j (put_details d m) ≡ or_else (get_detail j d) (get_detail j m)
unfolding get_detail put_details IsMap
get-put_details j [] m h = refl
get-put_details j ((k, v) ∷ d) m (a, h) = grind (
  arith,
  get-put_details j d (put_detail k v m) h,
  get-put_detail k j v m,
  string_comparable.same_iff k j,
)

-- `WithDetails` of any details, nil too, keeps everything else; under each key the new details have
-- the value that is given, or else the old one; both maps have a key at most once.
pub with_details_lem :
    (e : AppError) (d : DetailMap) (k : String)
    → IsMap (entries d)
    → IsMap (entries e.details)
    → ((record (with_details e d) { details = e.details }) ≡ e)
      × (get_detail k (entries (with_details e d).details)
          ≡ or_else (get_detail k (entries d)) (get_detail k (entries e.details)))
unfolding with_details get_detail
with_details_lem e none k h i = (refl, refl)
with_details_lem e (some d) k h i = (
  refl,
  get-put_details k d (put_details (entries e.details) []) h
      ∙ ap (or_else (get_detail k d)) (get-put_details k (entries e.details) [] i ∙ or_else-none _),
)
