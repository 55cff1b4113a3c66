-- ===== src/Decompose/Order/Release.antt =====
-- What the loop over the neighbours of a node does to the counters and to the queue.
use cloud_agent_platform.Base.{
  ℕ, zero, suc, ◌-◌, ◌≤◌, ◌≡◌, ◌∙◌, ap, refl, inl, inr, String, true, ◌&&◌, ◌||◌, List, [], ◌∷◌,
  ◌++◌, arith, string_comparable, same_self, if◌then◌else◌, ltb, nat_beq, contains, contains-append,
  IsDistinct, IsDistinct-snoc, Bool-cases,
}
use cloud_agent_platform.Base.Maps.{ℤ, pos, down, is_zero, update}
use cloud_agent_platform.Decompose.Counting.{count}
use cloud_agent_platform.Decompose.Order.{release}

down_pos : (m : ℕ) → suc zero ≤ m → down (pos m) ≡ pos (m - 1)
down_pos zero h = absurd (omega arith)
down_pos (suc m) h = ground arith

is_zero_pos : (m : ℕ) → is_zero (pos m) ≡ nat_beq m 0
is_zero_pos zero = refl
is_zero_pos (suc m) = ground arith

-- The counters `deg` are the numbers `d`, and no identifier stands more often in the list than its
-- counter tells.
pub record Counts (ns : List String) (deg : String → ℤ) (d : String → ℕ) : Type 0 where
  pub counted : (y : String) → deg y ≡ pos (d y)
  pub enough : (y : String) → count y ns ≤ d y

abbrev one_less : (String → ℕ) → String → String → ℕ
one_less d n = update d n (d n - 1)

module _ (n : String) (ns : List String) (deg : String → ℤ) (d : String → ℕ) where
  positive : Counts (n ∷ ns) deg d → suc zero ≤ d n
  unfolding count
  positive c = ground (arith, c.enough n, same_self n)

  downed : Counts (n ∷ ns) deg d → down (deg n) ≡ pos (d n - 1)
  downed c = ap down (c.counted n) ∙ down_pos (d n) (positive c)

  Counts-step : Counts (n ∷ ns) deg d → Counts ns (update deg n (down (deg n))) (one_less d n)
  unfolding count
  Counts-step c = record {
    counted = λ y. ground (arith, c.counted y, downed c, string_comparable.same_iff n y);
    enough = λ y. ground (arith, c.enough y, string_comparable.same_iff n y);
  }

-- The counter of every identifier falls by its occurrences.
pub release_counters :
    (x : String) (ns : List String) (deg : String → ℤ) (d : String → ℕ) (queue : List String)
    → Counts ns deg d
    → (release ns deg queue).0 x ≡ pos (d x - count x ns)
unfolding release count
release_counters x [] deg d queue c = ground (arith, c.counted x)
release_counters x (n ∷ ns) deg d queue c = ground (
  arith,
  release_counters x ns (update deg n (down (deg n))) (one_less d n)
      (if is_zero (down (deg n)) then queue ++ n ∷ [] else queue) (Counts-step n ns deg d c),
  string_comparable.same_iff n x,
  c.enough x,
)

-- Those whose counter falls to 0 are queued.
pub release_queued :
    (x : String) (ns : List String) (deg : String → ℤ) (d : String → ℕ) (queue : List String)
    → Counts ns deg d
    → contains x (release ns deg queue).1
      ≡ (contains x queue || (ltb 0 (count x ns) && nat_beq (count x ns) (d x)))
unfolding release count contains
release_queued x [] deg d queue c = ground arith
release_queued x (n ∷ ns) deg d queue c = ground (
  arith,
  release_queued x ns (update deg n (down (deg n))) (one_less d n)
      (if is_zero (down (deg n)) then queue ++ n ∷ [] else queue) (Counts-step n ns deg d c),
  contains-append x queue (n ∷ []),
  ap is_zero (downed n ns deg d c) ∙ is_zero_pos (d n - 1),
  string_comparable.same_iff n x,
  c.enough x,
  positive n ns deg d c,
)

-- The queue has no identifier twice, and its counters are 0.
pub record Queued (d : String → ℕ) (queue : List String) : Type 0 where
  pub distinct : IsDistinct queue
  pub at_zero : (y : String) → contains y queue ≡ true → d y ≡ 0

Queued-step :
    (n : String) (ns : List String) (deg : String → ℤ) (d : String → ℕ) (queue : List String)
    → Counts (n ∷ ns) deg d
    → Queued d queue
    → Queued (one_less d n) (if is_zero (down (deg n)) then queue ++ n ∷ [] else queue)
unfolding contains
Queued-step n ns deg d queue c q =
    let zeroed = ap is_zero (downed n ns deg d c) ∙ is_zero_pos (d n - 1) in
    let more = positive n ns deg d c in
    elim (Bool-cases (is_zero (down (deg n)))) [
      | inl e ↦ rw e record {
        distinct = IsDistinct-snoc queue n q.distinct (ground (arith, q.at_zero n));
        at_zero = λ y h.
            ground (
              arith,
              q.at_zero y,
              contains-append y queue (n ∷ []),
              string_comparable.same_iff n y,
            );
      }
      | inr e ↦ rw e record {
        distinct = q.distinct;
        at_zero = λ y h. ground (arith, q.at_zero y, string_comparable.same_iff n y);
      }
    ]

pub release-Queued :
    (ns : List String) (deg : String → ℤ) (d : String → ℕ) (queue : List String)
    → Counts ns deg d
    → Queued d queue
    → IsDistinct (release ns deg queue).1
unfolding release
release-Queued [] deg d queue c q = q.distinct
release-Queued (n ∷ ns) deg d queue c q =
    release-Queued ns (update deg n (down (deg n))) (one_less d n)
      (if is_zero (down (deg n)) then queue ++ n ∷ [] else queue) (Counts-step n ns deg d c)
      (Queued-step n ns deg d queue c q)
