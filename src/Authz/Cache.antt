-- ===== src/Authz/Cache.antt =====
-- What the cache of permissions may answer.
use cloud_agent_platform.Base.{
  String, true, List, [], ◌∷◌, ◌≡◌, ◌==◌, ◌⊎◌, inl, inr, refl, ◌∙◌, arith, All, Bool-cases,
  contains, string_comparable,
}
use cloud_agent_platform.Base.Int64.{slt}
use cloud_agent_platform.Authz.{
  Authz, Request, is_admin, table_allows, cached, cache_key, check_permission,
}

-- Each key in the cache is that of a request which the table of the roles allows.
abbrev pub IsSound : Authz → Type 0
IsSound a = All (λ k. (q : Request) × (cache_key q ≡ k) × (table_allows q ≡ true)) a.perm_cache

check_permission-IsSound : (q : Request) (a : Authz) → IsSound a → IsSound (check_permission q a).0
unfolding check_permission
check_permission-IsSound q a s = elim (Bool-cases (is_admin q.role)) [
  | inl e ↦ rw (e, check_permission) s
  | inr e ↦ elim (Bool-cases (cached q a)) [
    | inl c ↦ rw (e, c, check_permission) s
    | inr c ↦ elim (Bool-cases (table_allows q)) [
      | inr t ↦ rw (e, c, t, check_permission) s
      | inl t ↦ elim (Bool-cases (slt 0 a.cache_ttl)) [
        | inl p ↦ rw (e, c, t, p, check_permission) ((q, refl, t), s)
        | inr p ↦ rw (e, c, t, p, check_permission) s
      ]
    ]
  ]
]

found :
    (k : String) (keys : List String)
    → All (λ k. (q : Request) × (cache_key q ≡ k) × (table_allows q ≡ true)) keys
    → contains k keys ≡ true
    → (q : Request) × (cache_key q ≡ k) × (table_allows q ≡ true)
unfolding contains
found k [] s h = absurd (cc)
found k (x ∷ keys) ((q, same, ok), s) h = elim (Bool-cases (x == k)) [
  | inl e ↦ (q, same ∙ (string_comparable.same_iff x k).0 e, ok)
  | inr e ↦ found k keys s (ground (arith, e, h))
]

unfoldable pub run : List Request → Authz → Authz
unfolding check_permission
run [] a = a
run (q ∷ qs) a = run qs (check_permission q a).0

run-IsSound : (qs : List Request) (a : Authz) → IsSound a → IsSound (run qs a)
unfolding run
run-IsSound [] a s = s
run-IsSound (q ∷ qs) a s = run-IsSound qs (check_permission q a).0 (check_permission-IsSound q a s)

-- After any requests to a service with an empty cache, a request that is let through is one of an
-- administrator, or has the same key as one that the table of its role allows.
pub check_permission_lem :
    (qs : List Request) (q : Request) (a : Authz)
    → a.perm_cache ≡ []
    → (check_permission q (run qs a)).1 ≡ true
    → (is_admin q.role ≡ true)
      ⊎ ((p : Request) × (cache_key p ≡ cache_key q) × (table_allows p ≡ true))
unfolding check_permission cached
check_permission_lem qs q a e h =
    let b = run qs a in
    let sound : IsSound b = run-IsSound qs a (rw e tt) in
    elim (Bool-cases (is_admin q.role)) [
      | inl i ↦ inl i
      | inr i ↦ elim (Bool-cases (table_allows q)) [
        | inl t ↦ inr (q, refl, t)
        | inr t ↦ inr (found (cache_key q) b.perm_cache sound (ground (arith, i, t, h)))
      ]
    ]
