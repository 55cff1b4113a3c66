-- ===== src/Base/Text.antt =====
-- The functions of Go's `strings`, `unicode` and `fmt` that the code uses, on texts of characters.
use Prim.Native.Nat.{ℕ, zero, suc, ◌-◌, ◌/◌, ◌%◌}
use Prim.Native.Char.{Char, code}
use Prim.Native.String.{String, ◌++◌, len, count, slice}
use text.Mathlib.Text.{starts_with, find?}
use mathlib.Core.Bool.{Bool, ◌&&◌, ◌||◌}
use mathlib.Core.Option.{Option, none, some}
use mathlib.Core.List.{List, [], ◌∷◌}
use cloud_agent_platform.Base.Tests.{ltb, leb, nat_beq, if◌then◌else◌, is_some}

abbrev pub between : ℕ → ℕ → ℕ → Bool
between a b n = leb a n && leb n b

-- `unicode.IsSpace`
unfoldable pub is_space : Char → Bool
is_space c =
    let n = code c in
    between 9 13 n
    || nat_beq n 32
    || nat_beq n 133
    || nat_beq n 160
    || nat_beq n 5760
    || between 8192 8202 n
    || between 8232 8233 n
    || nat_beq n 8239
    || nat_beq n 8287
    || nat_beq n 12288

-- `strings.Contains`
abbrev pub contains_text : String → String → Bool
contains_text s t = is_some (find? s t)

-- `strings.TrimPrefix`
unfoldable pub trim_prefix : String → String → String
trim_prefix s p = if starts_with s p then slice s (len p) (len s) else s

unfoldable pub push_char : Char → List String → List String
push_char c [] = String.◌∷◌ c String.[] ∷ []
push_char c (p ∷ ps) = String.◌∷◌ c p ∷ ps

-- `strings.Split`, at a separator that is not empty; `skip` characters of it are still to pass.
unfoldable pub split_from : String → (skip : ℕ) → String → List String
unfolding push_char
split_from sep skip String.[] = String.[] ∷ []
split_from sep (suc k) (String.◌∷◌ c s) = split_from sep k s
split_from sep zero (String.◌∷◌ c s) =
    let cut = String.[] ∷ split_from sep (count sep - 1) s in
    let kept = push_char c (split_from sep 0 s) in
    if starts_with (String.◌∷◌ c s) sep then cut else kept

unfoldable pub split : String → String → List String
unfolding split_from
split s sep = split_from sep 0 s

unfoldable pub trim_left : String → String
unfolding is_space
trim_left String.[] = String.[]
trim_left (String.◌∷◌ c s) = if is_space c then trim_left s else String.◌∷◌ c s

unfoldable pub trim_right : String → String
unfolding is_space
trim_right String.[] = String.[]
trim_right (String.◌∷◌ c s) =
    let t = trim_right s in if is_space c && nat_beq (count t) 0 then String.[] else String.◌∷◌ c t

-- `strings.TrimSpace`
unfoldable pub trim_space : String → String
unfolding trim_left trim_right
trim_space s = trim_right (trim_left s)

-- The text before the first character that passes the test.
unfoldable pub take_until : (Char → Bool) → String → String
take_until p String.[] = String.[]
take_until p (String.◌∷◌ c s) = if p c then String.[] else String.◌∷◌ c (take_until p s)

-- `strings.Fields`: its first element.
unfoldable pub first_field : String → Option String
unfolding trim_left take_until is_space
first_field s =
    let word = take_until is_space (trim_left s) in
    if nat_beq (count word) 0 then none else some word

-- `%d`
unfoldable pub digit : ℕ → String
digit d =
    if nat_beq d 0
    then "0"
    else if nat_beq d 1
    then "1"
    else if nat_beq d 2
    then "2"
    else if nat_beq d 3
    then "3"
    else if nat_beq d 4
    then "4"
    else if nat_beq d 5
    then "5"
    else if nat_beq d 6
    then "6"
    else if nat_beq d 7
    then "7"
    else if nat_beq d 8
    then "8"
    else "9"

unfoldable pub decimal_from : ℕ → ℕ → String
unfolding digit
decimal_from zero n = String.[]
decimal_from (suc fuel) n =
    let front = decimal_from fuel (n / 10) in if ltb n 10 then digit n else front ++ digit (n % 10)

-- The number falls at every step, so it is fuel enough.
unfoldable pub decimal : ℕ → String
unfolding decimal_from
decimal n = decimal_from (suc n) n
