-- ===== src/Events/EventType.antt =====
-- The check of an event type accepts exactly the texts that its pattern describes.
use Prim.Native.Char.{Char}
use Prim.Native.String.{◌++◌ as str_append}
use Prim.Native.String.append
use text.Mathlib.TextEquality.{Char-path}
use cloud_agent_platform.Base.{
  ◌≡◌, ◌∙◌, sym, ap, refl, inl, inr, ◌↔◌, String, Bool, true, false, ◌&&◌, ◌||◌, arith, Bool-cases,
}
use cloud_agent_platform.Events.{
  is_letter, is_alphanumeric, is_colon, all_digits, some_digits, version_suffix, name_and_version,
  event_type_pattern,
}

unfoldable pub all_alphanumeric : String → Bool
all_alphanumeric String.[] = true
all_alphanumeric (String.◌∷◌ c s) = is_alphanumeric c && all_alphanumeric s

unfoldable pub some_alphanumeric : String → Bool
unfolding all_alphanumeric
some_alphanumeric String.[] = false
some_alphanumeric (String.◌∷◌ c s) = all_alphanumeric (String.◌∷◌ c s)

-- A name, the letter V and a number.
abbrev pub HasVersion : String → Type 0
HasVersion s =
    (name : String) × (digits : String) × (some_alphanumeric name ≡ true)
    × (some_digits digits ≡ true)
    × (s ≡ str_append name (String.◌∷◌ "V" digits))

version_suffix-V :
    (s : String)
    → version_suffix s ≡ true
    → (digits : String) × (some_digits digits ≡ true) × (s ≡ String.◌∷◌ "V" digits)
unfolding version_suffix
version_suffix-V String.[] h = absurd (cc)
version_suffix-V (String.◌∷◌ c s) h =
    (s, ground arith, ap (λ x. String.◌∷◌ x s) (Char-path c "V" (ground arith)))

name_and_version-HasVersion : (s : String) → name_and_version s ≡ true → HasVersion s
unfolding name_and_version some_alphanumeric
name_and_version-HasVersion String.[] h = absurd (cc)
name_and_version-HasVersion (String.◌∷◌ c s) h = elim (Bool-cases (version_suffix s)) [
  | inl e ↦
      let (digits, d, q) = version_suffix-V s e in
      (
        String.◌∷◌ c String.[],
        digits,
        ground arith,
        d,
        ap (λ x. String.◌∷◌ c x) (q ∙ sym (append.nil (String.◌∷◌ "V" digits)))
            ∙ sym (append.cons c String.[] (String.◌∷◌ "V" digits)),
      )
  | inr e ↦
      let (name, digits, n, d, q) = name_and_version-HasVersion s (ground arith) in
      (
        String.◌∷◌ c name,
        digits,
        more c name n (ground arith),
        d,
        ap (λ x. String.◌∷◌ c x) q ∙ sym (append.cons c name (String.◌∷◌ "V" digits)),
      )
]
  where
    more :
        (c : Char) (name : String)
        → some_alphanumeric name ≡ true
        → is_alphanumeric c ≡ true
        → some_alphanumeric (String.◌∷◌ c name) ≡ true
    more c String.[] n a = absurd (cc)
    more c (String.◌∷◌ d name) n a = ground arith

name_and_version-of :
    (name digits : String)
    → some_alphanumeric name ≡ true
    → some_digits digits ≡ true
    → name_and_version (str_append name (String.◌∷◌ "V" digits)) ≡ true
unfolding name_and_version version_suffix some_alphanumeric
name_and_version-of String.[] digits n d = absurd (cc)
name_and_version-of (String.◌∷◌ c String.[]) digits n d =
    ap name_and_version (
      append.cons c String.[] (String.◌∷◌ "V" digits)
      ∙ ap (λ x. String.◌∷◌ c x) (append.nil (String.◌∷◌ "V" digits)))
    ∙ ground arith
name_and_version-of (String.◌∷◌ c (String.◌∷◌ e name)) digits n d =
    ap name_and_version (append.cons c (String.◌∷◌ e name) (String.◌∷◌ "V" digits))
    ∙ ground (arith, name_and_version-of (String.◌∷◌ e name) digits)

-- The pattern accepts a text exactly if it is a letter, one or more letters and digits, the letter V
-- and one or more digits.
pub event_type_pattern_lem :
    (s : String)
    → (event_type_pattern s ≡ true) ↔ (
        (c : Char) × (rest : String) × (is_letter c ≡ true)
        × HasVersion rest
        × (s ≡ String.◌∷◌ c rest))
unfolding event_type_pattern
event_type_pattern_lem String.[] = (λ h. absurd (cc), λ (c, rest, l, v, q). absurd (cc))
event_type_pattern_lem (String.◌∷◌ c s) = (
  λ h. (c, s, ground arith, name_and_version-HasVersion s (ground arith), refl),
  λ (d, rest, l, (name, digits, n, k, q), e).
      ap event_type_pattern (e ∙ ap (λ x. String.◌∷◌ d x) q)
      ∙ ground (arith, name_and_version-of name digits n k),
)

unfoldable pub has_colon : String → Bool
has_colon String.[] = false
has_colon (String.◌∷◌ c s) = is_colon c || has_colon s

all_digits-colon : (s : String) → all_digits s ≡ true → has_colon s ≡ false
unfolding all_digits has_colon
all_digits-colon String.[] h = refl
all_digits-colon (String.◌∷◌ c s) h = ground (arith, all_digits-colon s)

some_digits-colon : (s : String) → some_digits s ≡ true → has_colon s ≡ false
unfolding some_digits has_colon
some_digits-colon String.[] h = refl
some_digits-colon (String.◌∷◌ c s) h = all_digits-colon (String.◌∷◌ c s) h

name_and_version-colon : (s : String) → name_and_version s ≡ true → has_colon s ≡ false
unfolding name_and_version version_suffix has_colon
name_and_version-colon String.[] h = refl
name_and_version-colon (String.◌∷◌ c String.[]) h = absurd (ground arith)
name_and_version-colon (String.◌∷◌ c (String.◌∷◌ e s)) h =
    ground (arith, name_and_version-colon (String.◌∷◌ e s), some_digits-colon s)

-- An accepted type has no colon.
pub event_type_pattern-colon : (s : String) → event_type_pattern s ≡ true → has_colon s ≡ false
unfolding event_type_pattern has_colon
event_type_pattern-colon String.[] h = refl
event_type_pattern-colon (String.◌∷◌ c s) h = ground (arith, name_and_version-colon s)
