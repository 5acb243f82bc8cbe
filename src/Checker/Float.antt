-- ===== src/Checker/Float.antt =====
-- `Float` of internal/checker/float.go. Go's float64 with strconv.ParseFloat is a parameter.
pub mod Tolerance
use arena.Common.{
  ℕ, suc, ◌+◌, Bool, true, false, ◌&&◌, not, Option, none, some, List, length, if◌then◌else◌,
}
use arena.Checker.Scanner.{trunc}
use arena.Checker.Compare.{
  Message, no_output, count_mismatch, differs, not_finite, out_of_tolerance, Outcome, refuse,
  failure, Rules, compare_tokens,
}
use arena.Checker.Token.{same_bytes}

-- `parse` is `none` where ParseFloat returns an error; `is_finite` is false for NaN and Inf.
pub record Float64 : Type 1 where
  pub Float : Type 0
  pub parse : List ℕ → Option Float
  pub is_finite : Float → Bool
  pub zero : Float
  pub default_epsilon : Float
  pub tiny : Float
  pub sub : Float → Float → Float
  pub div : Float → Float → Float
  pub abs : Float → Float
  pub max : Float → Float → Float
  pub gt : Float → Float → Bool
  pub le : Float → Float → Bool

module _ (fl : Float64) where
  open fl use {Float}

  abbrev pub epsilon_of : Float → Float
  epsilon_of eps = if fl.le eps fl.zero then fl.default_epsilon else eps

  abbrev pub abs_error : Float → Float → Float
  abs_error ev av = fl.abs (fl.sub ev av)

  abbrev pub rel_error : Float → Float → Float
  rel_error ev av = fl.div (abs_error ev av) (fl.max fl.tiny (fl.abs ev))

  unfoldable pub text_pair : ℕ → List ℕ → List ℕ → Option Message
  unfolding same_bytes trunc
  text_pair n e a = if same_bytes e a then none else some (differs (n + 1) (trunc e) (trunc a))

  unfoldable pub number_pair : Float → ℕ → Float → Float → Option Message
  number_pair eps n ev av =
      if not (fl.is_finite av)
      then some (not_finite (n + 1))
      else if fl.gt (abs_error ev av) eps && fl.gt (rel_error ev av) eps
      then some (out_of_tolerance (n + 1))
      else none

  unfoldable pub float_pair : Float → ℕ → List ℕ → List ℕ → Option Message
  unfolding text_pair number_pair
  float_pair eps n e a = elim (fl.parse e) [
    | none ↦ text_pair n e a
    | some ev ↦ elim (fl.parse a) [ none ↦ text_pair n e a | some av ↦ number_pair eps n ev av ]
  ]

  abbrev pub float_rules : Float → Rules
  float_rules eps = record {
    on_extra = λ n a. count_mismatch (n + 1);
    on_early = λ n e. count_mismatch (n + 1);
    on_pair = float_pair eps;
  }

  -- The checker, with the tolerance of the problem's configuration.
  unfoldable pub check_float : Float → Option (List ℕ) → Option (List ℕ) → Option Outcome
  unfolding compare_tokens
  check_float eps none actual = some failure
  check_float eps (some expected) none = some (refuse no_output)
  check_float eps (some expected) (some actual) =
      compare_tokens (float_rules (epsilon_of eps)) (suc (length expected + length actual)) 0
        expected actual
