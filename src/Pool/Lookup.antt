-- ===== src/Pool/Lookup.antt =====
-- The map of workers: what a lookup finds after a write.
use cloud_agent_platform.Base.{
  ◌≡◌, inl, inr, String, true, some, List, [], ◌∷◌, arith, ◌==◌, string_comparable, same_self,
  Bool-cases, Option-cases, is_some,
}
use cloud_agent_platform.Pool.Worker.{Worker}
use cloud_agent_platform.Pool.Ops.{put, modify, get_worker, find_available}

pub get_worker-put : (w : Worker) (ws : List Worker) → get_worker w.id (put w ws) ≡ some w
unfolding get_worker put
get_worker-put w [] = ground (arith, same_self w.id)
get_worker-put w (v ∷ vs) = ground (arith, same_self w.id, get_worker-put w vs)

-- A write through the pointer that keeps the identifier is what the next lookup sees.
pub get_worker-modify :
    (id : String) (f : Worker → Worker) (ws : List Worker) (w : Worker)
    → (f w).id ≡ w.id
    → get_worker id ws ≡ some w
    → get_worker id (modify id f ws) ≡ some (f w)
unfolding get_worker modify
get_worker-modify id f [] w k h = ground arith
get_worker-modify id f (v ∷ vs) w k h = elim (Bool-cases (v.id == id)) [
  | inl e ↦ ground arith
  | inr e ↦ ground (arith, get_worker-modify id f vs w k)
]

found-find_available :
    (ws : List Worker) (id : String)
    → find_available ws ≡ some id
    → is_some (get_worker id ws) ≡ true
unfolding get_worker find_available
found-find_available [] id h = ground arith
found-find_available (v ∷ vs) id h =
    ground (arith, found-find_available vs id, string_comparable.same_iff v.id id)

pub get_worker-find_available :
    (ws : List Worker) (id : String)
    → find_available ws ≡ some id
    → (w : Worker) × (get_worker id ws ≡ some w)
get_worker-find_available ws id h =
    let found = found-find_available ws id h in
    elim (Option-cases (get_worker id ws)) [ inl e ↦ ground arith | inr f ↦ f ]
