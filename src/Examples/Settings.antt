-- ===== src/Examples/Settings.antt =====
-- The configuration of an empty environment, and a redacted value.
use Prim.Native.Nat.{compare, Ordering}
use Prim.Native.Char.{Char, char, code, IsScalar}
use package.text.Mathlib.TextEquality.{Char-path}
use native.Mathlib.Decide.{dec_le}
use cert_rollover_impact_ass.Prelude.{
  ℕ, ◌+◌, ◌<◌, ◌≤◌, ◌≡◌, ◌↔◌, ◌∙◌, refl, sym, none, String, arith,
}
use cert_rollover_impact_ass.Config.{Environment, config_from, loaded, load_config}
use cert_rollover_impact_ass.Config.Loaded.{IsUsable, load_config_iff}
use cert_rollover_impact_ass.Redaction.{
  Json, text, array, object, no_items, item, no_fields, field, Text, redacted, is_sensitive, hide,
  redact_value,
}
use cert_rollover_impact_ass.Redaction.Clean.{
  lower_code, IsLowerCaseOf, IsClean, redact_value_cleans,
}

-- no variable is set
abbrev unset : Environment
unset = record {
  lookup = λ key. none;
  atoi = λ s. none;
  parse_duration = λ s. none;
  byte_length = λ s. 26;
}

load_config_iff_example :
    (load_config unset ≡ loaded (config_from unset))
    ↔ ((config_from unset ≡ config_from unset) × IsUsable unset (config_from unset))
load_config_iff_example = load_config_iff unset (config_from unset)

loads : load_config unset ≡ loaded (config_from unset)
unfolding load_config
loads = refl

-- A number below the surrogates is a character.
IsScalar-low : (n : ℕ) → n < 55296 → IsScalar n
IsScalar-low n h = let e : compare n 55296 ≡ Ordering.lt = ground arith in rw e tt

lower_code-low : (n : ℕ) → n ≤ b'Z' → n + 32 < 55296
lower_code-low n h = omega arith

-- strings.ToLower on ASCII texts
lower_char : Char → Char
lower_char c = elim (dec_le b'A' (code c)) [
  | no _ ↦ c
  | yes _ ↦ elim (dec_le (code c) b'Z') [
    | no _ ↦ c
    | yes h ↦ char (code c + 32) (IsScalar-low (code c + 32) (lower_code-low (code c) h))
  ]
]

lower_char_lem : (c : Char) → code (lower_char c) ≡ lower_code (code c)
unfolding lower_char
lower_char_lem c = ground arith

lower : String → String
lower String.[] = ""
lower (String.◌∷◌ c s) = String.◌∷◌ (lower_char c) (lower s)

lower_lem : (key name : String) → IsLowerCaseOf name key → lower key ≡ name
unfolding lower
lower_lem String.[] String.[] h = refl
lower_lem String.[] (String.◌∷◌ d t) h = absurd h
lower_lem (String.◌∷◌ c s) String.[] h = absurd h
lower_lem (String.◌∷◌ c s) (String.◌∷◌ d t) (e, _, h) =
    let first = Char-path (lower_char c) d (lower_char_lem c ∙ sym e) in
    λ i. String.◌∷◌ (first i) (lower_lem s t h i)

abbrev lib : Text
lib = record { to_lower = lower; marshal = λ value. none; unmarshal = λ raw. none }

-- a user with a password and two tokens
abbrev value : Json
value = object (
    field "username" (text "reviewer") (
      field "Password" (text "secret")
        (field "token" (array (item (text "a") (item (text "b") no_items))) no_fields)))

hidden :
    redact_value lib "" value
    ≡ object (
        field "username"
          (text "reviewer")
          (field "Password" redacted (field "token" redacted no_fields)))
unfolding redact_value hide is_sensitive lower lower_char dec_le
hidden = refl

redact_value_cleans_example :
    IsClean lib "" (redact_value lib "" value)
    × ((redact_value lib "" value ≡ value) ↔ IsClean lib "" value)
    × (redact_value lib "" (redact_value lib "" value) ≡ redact_value lib "" value)
redact_value_cleans_example = redact_value_cleans lib lower_lem "" value
