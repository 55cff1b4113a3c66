-- ===== src/Events/Key.antt =====
-- When an event is created, and what its idempotency key tells.
use Prim.Native.Char.{Char}
use Prim.Native.String.{◌++◌ as str_append}
use Prim.Native.String.append
use cloud_agent_platform.Base.{
  ℕ, zero, suc, ◌+◌, ◌-◌, ◌/◌, ◌%◌, ◌≤◌, ◌<◌, ◌≡◌, ◌∙◌, sym, ap, refl, inl, inr, String, Bool, true,
  false, not, List, [], ◌∷◌, arith, nat_beq, length, ◌==◌, string_comparable, if◌then◌else◌,
  Bool-cases,
}
use cloud_agent_platform.Base.Int64.{modulus}
use cloud_agent_platform.Base.Text.{digit, decimal, decimal_from, push_char}
use cloud_agent_platform.Events.{
  is_colon, event_type_pattern, validate_event_type, validate_idempotency_key,
  split_idempotency_key, decimal_int, key_of, created, refused, new_domain_event_with_id,
  event_type_empty, event_type_mismatch, idempotency_key_mismatch, valid, invalid,
}
use cloud_agent_platform.Events.EventType.{has_colon, event_type_pattern-colon}

unfoldable pub colons : String → ℕ
colons String.[] = 0
colons (String.◌∷◌ c s) = (if is_colon c then 1 else 0) + colons s

colons-append : (a b : String) → colons (str_append a b) ≡ colons a + colons b
unfolding colons
colons-append String.[] b = ap colons (append.nil b) ∙ omega arith
colons-append (String.◌∷◌ c a) b = ap colons (append.cons c a b) ∙ omega (arith, colons-append a b)

has_colon-eq : (s : String) → has_colon s ≡ not (nat_beq (colons s) 0)
unfolding has_colon colons
has_colon-eq String.[] = refl
has_colon-eq (String.◌∷◌ c s) = ground (arith, has_colon-eq s)

colons-if :
    (b : Bool) (s t : String) → colons s ≡ 0 → colons t ≡ 0 → colons (if b then s else t) ≡ 0
colons-if true s t h k = h
colons-if false s t h k = k

digit-colons : (d : ℕ) → colons (digit d) ≡ 0
unfolding colons digit
digit-colons d =
    let one = λ (k : ℕ) (s t : String). colons-if (nat_beq d k) s t in
    one 0 "0" _ refl (
      one 1 "1" _ refl (
        one 2 "2" _ refl (
          one 3 "3" _ refl (
            one 4 "4" _ refl
              (one 5 "5" _ refl (one 6 "6" _ refl (one 7 "7" _ refl (one 8 "8" "9" refl refl))))))))

decimal_from-colons : (fuel n : ℕ) → colons (decimal_from fuel n) ≡ 0
unfolding decimal_from colons
decimal_from-colons zero n = refl
decimal_from-colons (suc fuel) n = ground (
  arith,
  digit-colons n,
  digit-colons (n % 10),
  decimal_from-colons fuel (n / 10),
  colons-append (decimal_from fuel (n / 10)) (digit (n % 10)),
)

decimal_int-colons : (v : ℕ) → colons (decimal_int v) ≡ 0
unfolding decimal_int decimal colons
decimal_int-colons v = ground (
  arith,
  decimal_from-colons (suc v) v,
  decimal_from-colons (suc (modulus - v)) (modulus - v),
  colons-append "-" (decimal_from (suc (modulus - v)) (modulus - v)),
)

-- A key has one part more than it has colons.
length-split_idempotency_key : (s : String) → length (split_idempotency_key s) ≡ suc (colons s)
unfolding split_idempotency_key push_char colons
length-split_idempotency_key String.[] = refl
length-split_idempotency_key (String.◌∷◌ c s) = elim (Bool-cases (is_colon c)) [
  | inl e ↦ rw e (omega (arith, length-split_idempotency_key s))
  | inr e ↦ rw e (
      length-push_char c (split_idempotency_key s) (omega (arith, length-split_idempotency_key s))
      ∙ omega (arith, length-split_idempotency_key s))
]
  where
    length-push_char :
        (c : Char) (ps : List String) → suc zero ≤ length ps → length (push_char c ps) ≡ length ps
    length-push_char c [] h = absurd (omega arith)
    length-push_char c (p ∷ ps) h = refl

colon-append : (s : String) → str_append ":" s ≡ String.◌∷◌ ":" s
colon-append s = append.cons ":" String.[] s ∙ ap (λ t. String.◌∷◌ ":" t) (append.nil s)

colons-key_of :
    (id event_type : String) (v : ℕ)
    → colons (key_of id event_type v) ≡ colons id + colons event_type + 2
unfolding key_of colons
colons-key_of id event_type v = omega (
  arith,
  colons-append id (str_append ":" (str_append event_type (str_append ":" (decimal_int v)))),
  ap colons (colon-append (str_append event_type (str_append ":" (decimal_int v)))),
  colons-append event_type (str_append ":" (decimal_int v)),
  ap colons (colon-append (decimal_int v)),
  decimal_int-colons v,
)

-- The part before the first colon.
split-prefix :
    (a rest : String)
    → has_colon a ≡ false
    → split_idempotency_key (str_append a (str_append ":" rest)) ≡ a ∷ split_idempotency_key rest
unfolding split_idempotency_key push_char has_colon
split-prefix String.[] rest h =
    ap split_idempotency_key (append.nil (str_append ":" rest) ∙ colon-append rest)
split-prefix (String.◌∷◌ c a) rest h =
    let plain : is_colon c ≡ false = ground arith in
    ap split_idempotency_key (append.cons c a (str_append ":" rest))
    ∙ rw plain (ap (push_char c) (split-prefix a rest (ground arith)))

split-plain : (a : String) → has_colon a ≡ false → split_idempotency_key a ≡ a ∷ []
unfolding split_idempotency_key push_char has_colon
split-plain String.[] h = refl
split-plain (String.◌∷◌ c a) h =
    let plain : is_colon c ≡ false = ground arith in
    rw plain (ap (push_char c) (split-plain a (ground arith)))

decimal_int-colon : (v : ℕ) → has_colon (decimal_int v) ≡ false
decimal_int-colon v = ground (arith, has_colon-eq (decimal_int v), decimal_int-colons v)

-- The key of an event of an accepted type gives back the aggregate, the type and the version, if
-- the identifier of the aggregate has no colon.
pub split-key_of :
    (id event_type : String) (v : ℕ)
    → has_colon id ≡ false
    → event_type_pattern event_type ≡ true
    → split_idempotency_key (key_of id event_type v) ≡ id ∷ event_type ∷ decimal_int v ∷ []
unfolding key_of
split-key_of id event_type v h k =
    split-prefix id (str_append event_type (str_append ":" (decimal_int v))) h
    ∙ ap (λ l. id ∷ l)
        (split-prefix event_type (decimal_int v) (event_type_pattern-colon event_type k)
          ∙ ap (λ l. event_type ∷ l) (split-plain (decimal_int v) (decimal_int-colon v)))

empty_pattern : (s : String) → (s == "") ≡ true → event_type_pattern s ≡ false
unfolding event_type_pattern
empty_pattern s h = ap event_type_pattern ((string_comparable.same_iff s "").0 h)

empty_colons : (s : String) → (s == "") ≡ true → colons s ≡ 0
unfolding colons
empty_colons s h = ap colons ((string_comparable.same_iff s "").0 h)

validate_event_type_lem :
    (t : String)
    → validate_event_type t ≡ (
        if event_type_pattern t
        then valid
        else invalid (if t == "" then event_type_empty else event_type_mismatch t))
unfolding validate_event_type
validate_event_type_lem t = elim (Bool-cases (t == "")) [
  | inl e ↦ rw (e, empty_pattern t e) refl
  | inr e ↦ rw e refl
]

validate_idempotency_key_lem :
    (key : String)
    → 0 < colons key
    → validate_idempotency_key key
      ≡ (if nat_beq (colons key) 2 then valid else invalid (idempotency_key_mismatch key))
unfolding validate_idempotency_key
validate_idempotency_key_lem key h = elim (Bool-cases (key == "")) [
  | inl e ↦ absurd (omega (arith, empty_colons key e))
  | inr e ↦
      rw (e, length-split_idempotency_key key)
        (ap (λ b. if b then valid else invalid (idempotency_key_mismatch key)) (ground arith))
]

two_more : (n : ℕ) → nat_beq (n + 2) 2 ≡ not (not (nat_beq n 0))
two_more n = ground arith

two_colons :
    (id event_type : String) (v : ℕ)
    → event_type_pattern event_type ≡ true
    → nat_beq (colons (key_of id event_type v)) 2 ≡ not (has_colon id)
two_colons id event_type v e =
    let plain : colons event_type ≡ 0 =
      ground (arith, has_colon-eq event_type, event_type_pattern-colon event_type e) in
    let total : colons (key_of id event_type v) ≡ colons id + 2 =
      omega (arith, colons-key_of id event_type v) in
    ap (λ n. nat_beq n 2) total ∙ two_more (colons id) ∙ ap not (sym (has_colon-eq id))

validate-key_of :
    (id event_type : String) (v : ℕ)
    → event_type_pattern event_type ≡ true
    → validate_idempotency_key (key_of id event_type v) ≡ (
        if not (has_colon id)
        then valid
        else invalid (idempotency_key_mismatch (key_of id event_type v)))
validate-key_of id event_type v e =
    let key = key_of id event_type v in
    validate_idempotency_key_lem key (omega (arith, colons-key_of id event_type v))
    ∙ ap (λ b. if b then valid else invalid (idempotency_key_mismatch key))
        (two_colons id event_type v e)

-- What `NewDomainEvent` returns on every input: an event, exactly if its type is accepted and the
-- identifier of its aggregate has no colon, and the error of the check that fails first.
pub new_domain_event_lem :
    (event_id aggregate_type id event_type payload : String) (at v : ℕ)
    → new_domain_event_with_id event_id aggregate_type id event_type payload at v ≡ (
        if event_type_pattern event_type
        then (if has_colon id
            then refused (idempotency_key_mismatch (key_of id event_type v))
            else created record {
              event_id = event_id;
              aggregate_type = aggregate_type;
              aggregate_id = id;
              event_type = event_type;
              payload = payload;
              occurred_at = at;
              idempotency_key = key_of id event_type v;
              version = v;
            })
        else refused
            (if event_type == "" then event_type_empty else event_type_mismatch event_type))
unfolding new_domain_event_with_id
new_domain_event_lem event_id aggregate_type id event_type payload at v =
    let typed = validate_event_type_lem event_type in
    elim (Bool-cases (event_type_pattern event_type)) [
      | inl e ↦
          let checked = validate-key_of id event_type v e in
          elim (Bool-cases (has_colon id)) [
            | inl f ↦ rw (typed, e, checked, f, new_domain_event_with_id) refl
            | inr f ↦ rw (typed, e, checked, f, new_domain_event_with_id) refl
          ]
      | inr e ↦ rw (typed, e, new_domain_event_with_id) refl
    ]
