-- ===== src/Prelude/Text.antt =====
-- Tests on texts, and dictionaries keyed by texts.
use Prim.Native.String.{String}
use mathlib.Core.Path.{◌≡◌}
use mathlib.Core.Logic.{◌↔◌}
use mathlib.Core.Bool.{Bool, true}
use mathlib.Core.Option.{Option, none, some}
use mathlib.Core.List.{List, [], ◌∷◌}
use text.Mathlib.Text.{◌==◌ as text_eq, starts_with as text_starts_with, find?}
use text.Mathlib.TextPositions.{eq_refl}
use text.Mathlib.TextEquality.{eq_iff}
use grosh.Prelude.Tests.{if◌then◌else◌, is_some}

abbrev pub str_eq : String → String → Bool
str_eq = text_eq

abbrev pub starts_with : String → String → Bool
starts_with = text_starts_with

-- `part in whole`
abbrev pub contains_text : String → String → Bool
contains_text part whole = is_some (find? whole part)

-- The empty text is the one text that Python counts as false.
abbrev pub is_empty : String → Bool
is_empty s = str_eq s ""

module _ {ℓ} {V : Type ℓ} where
  -- `d.get(key)` of a dict with text keys
  abbrev pub lookup : String → List (String × V) → Option V
  lookup k [] = none
  lookup k ((j, v) ∷ d) = if str_eq j k then some v else lookup k d

pub str_eq_refl : (s : String) → str_eq s s ≡ true
str_eq_refl s = eq_refl s

pub str_eq_iff : (s t : String) → (str_eq s t ≡ true) ↔ (s ≡ t)
str_eq_iff s t = eq_iff s t
