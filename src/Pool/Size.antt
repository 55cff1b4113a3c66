-- ===== src/Pool/Size.antt =====
-- The size of the pool: every operation but the health check keeps it at most `max_workers`.
use Prim.Native.Nat.{max}
use cloud_agent_platform.Base.{
  ℕ, zero, suc, ◌+◌, ◌≤◌, ◌<◌, ◌≡◌, refl, inl, inr, String, Option, none, some, List, [], ◌∷◌,
  arith, length, string_comparable, if◌then◌else◌, Bool-cases, Option-cases,
}
use cloud_agent_platform.Base.Int64.{sign_bit, slt, sub}
use cloud_agent_platform.Pool.Config.{Config}
use cloud_agent_platform.Pool.Worker.{Worker}
use cloud_agent_platform.Pool.Ops.{put, modify, delete, get_worker, create_worker}
use cloud_agent_platform.Pool.Loops.{
  put_created, Answers, prewarm_from, scale_up_from, scale_down_from, is_expired, cleanup_from,
}

pub length-put : (w : Worker) (ws : List Worker) → length (put w ws) ≤ length ws + 1
unfolding put
length-put w [] = omega arith
length-put w (v ∷ vs) = ground (arith, length-put w vs)

pub le-length-put : (w : Worker) (ws : List Worker) → length ws ≤ length (put w ws)
unfolding put
le-length-put w [] = omega arith
le-length-put w (v ∷ vs) = ground (arith, le-length-put w vs)

pub length-modify :
    (id : String) (f : Worker → Worker) (ws : List Worker) → length (modify id f ws) ≡ length ws
unfolding modify
length-modify id f [] = refl
length-modify id f (v ∷ vs) = ground (arith, length-modify id f vs)

pub length-delete :
    (id : String) (ws : List Worker)
    → length (delete id ws) + (elim (get_worker id ws) [ none ↦ 0 | some _ ↦ 1 ]) ≡ length ws
unfolding delete get_worker
length-delete id [] = refl
length-delete id (v ∷ vs) = ground (arith, length-delete id vs)

length-put_created :
    (o : Option Worker) (ws : List Worker) → length (put_created o ws) ≤ length ws + 1
length-put_created none ws = omega arith
length-put_created (some w) ws = length-put w ws

pub length-prewarm_from :
    (left i : ℕ) (created : Answers) (now : ℕ) (ws : List Worker)
    → length (prewarm_from left i created now ws) ≤ length ws + left
unfolding prewarm_from
length-prewarm_from zero i created now ws = omega arith
length-prewarm_from (suc left) i created now ws =
    let o = create_worker (created i) now in
    omega (
      arith,
      length-prewarm_from left (i + 1) created now (put_created o ws),
      length-put_created o ws,
    )

-- Whatever the attempts return, scaling up stops at the maximum.
pub length-scale_up_from :
    (left most i : ℕ) (created : Answers) (now : ℕ) (ws : List Worker)
    → most < sign_bit
    → length ws < sign_bit
    → length (scale_up_from left most i created now ws) ≤ max most (length ws)
unfolding scale_up_from
length-scale_up_from zero most i created now ws h k = omega arith
length-scale_up_from (suc left) most i created now ws h k =
    elim (Option-cases (create_worker (created i) now)) [
      | inl e ↦ rw e (ground arith)
      | inr (w, e) ↦ elim (Bool-cases (slt (length ws) most)) [
        | inl below ↦
            rw (e, below)
              (ground (
                arith,
                length-put w ws,
                length-scale_up_from left most (i + 1) created now (put w ws) h,
              ))
        | inr full ↦ rw (e, full) (omega arith)
      ]
    ]

pub length-scale_down_from :
    (left : ℕ) (ws : List Worker)
    → (length (scale_down_from left ws) ≤ length ws)
      × (length ws ≤ length (scale_down_from left ws) + left)
unfolding scale_down_from
length-scale_down_from zero ws = omega arith
length-scale_down_from (suc left) [] = omega arith
length-scale_down_from (suc left) (w ∷ ws) =
    ground (arith, length-scale_down_from left ws, length-scale_down_from (suc left) ws)

pub le-length-scale_up_from :
    (left most i : ℕ) (created : Answers) (now : ℕ) (ws : List Worker)
    → length ws ≤ length (scale_up_from left most i created now ws)
unfolding scale_up_from
le-length-scale_up_from zero most i created now ws = omega arith
le-length-scale_up_from (suc left) most i created now ws =
    elim (Option-cases (create_worker (created i) now)) [
      | inl e ↦ rw e (ground arith)
      | inr (w, e) ↦ elim (Bool-cases (slt (length ws) most)) [
        | inl below ↦
            rw (e, below)
              (omega (
                arith,
                le-length-put w ws,
                le-length-scale_up_from left most (i + 1) created now (put w ws),
              ))
        | inr full ↦ rw (e, full) (omega arith)
      ]
    ]

pub length-cleanup_from :
    (c : Config) (now size : ℕ) (ws : List Worker) → length (cleanup_from c now size ws) ≤ length ws
unfolding cleanup_from
length-cleanup_from c now size [] = omega arith
length-cleanup_from c now size (w ∷ ws) = ground (
  arith,
  length-cleanup_from c now size ws,
  length-cleanup_from c now (if is_expired c now w then sub size 1 else size) ws,
)
