-- ===== src/Errors/Chains.antt =====
-- Which errors of a chain `CodeIs` and `CodeAs` find.
use cloud_agent_platform.Base.{
  String, true, false, none, ◌≡◌, ◌==◌, ◌↔◌, arith, string_comparable, same_self, Bool-cases, inl,
  inr,
}
use mathlib.Core.Path.{subst}
use cloud_agent_platform.Errors.{
  Layer, DetailMap, Err, nil, plain, wrapped, app, AppError, as_error, errors_is, errors_as,
  with_cause, code_is, code_as,
}

-- Some `AppError` of the chain has the code.
pub data HasCode (code : String) : Err → Type 0 where
  here :
      {message : String}
      → {layer : Layer} → {details : DetailMap} → {cause : Err}
      → HasCode code (app code message layer details cause)
  below :
      {c message : String}
      → {layer : Layer} → {details : DetailMap} → {cause : Err} → HasCode code cause
      → HasCode code (app c message layer details cause)
  inside : {s : String} → {e : Err} → HasCode code e → HasCode code (wrapped s e)

found : (err : Err) (code : String) → code_is err code ≡ true → HasCode code err
unfolding code_is errors_is
found nil code h = absurd (cc)
found (plain s) code h = absurd (cc)
found (wrapped s e) code h = inside (found e code h)
found (app c message layer details cause) code h = elim (Bool-cases (c == code)) [
  | inl e ↦
      subst (λ x. HasCode x (app c message layer details cause))
        ((string_comparable.same_iff c code).0 e) here
  | inr e ↦ below (found cause code (ground (arith, e, h)))
]

is_found : (code : String) (err : Err) → HasCode code err → code_is err code ≡ true
unfolding code_is errors_is
is_found code _ here = ground (arith, same_self code)
is_found code _ (below h) = ground (arith, is_found code _ h)
is_found code _ (inside h) = is_found code _ h

-- `CodeIs` says yes exactly if some `AppError` of the chain has the code.
pub code_is_lem : (err : Err) (code : String) → (code_is err code ≡ true) ↔ HasCode code err
code_is_lem err code = (found err code, is_found code err)

-- An `AppError` with another code hides from `CodeAs` all that it wraps, and nothing of it from
-- `CodeIs`.
pub code_as-with_cause :
    (e : AppError) (cause : Err) (code : String)
    → (e.code == code) ≡ false
    → (code_as (as_error (with_cause e cause)) code ≡ none)
      × (code_is (as_error (with_cause e cause)) code ≡ code_is cause code)
unfolding code_as errors_as with_cause code_is errors_is
code_as-with_cause e cause code h = ground arith
