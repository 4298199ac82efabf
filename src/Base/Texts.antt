-- ===== src/Base/Texts.antt =====
-- Python's tests on texts: `t in s` and `s.endswith(t)`.
use text.Mathlib.Text.{find?, get?, ◌==◌ as str_eq}
use Prim.Native.String.{String, len}
use Prim.Native.Nat.{◌-◌}
use mathlib.Core.Bool.{Bool, true, false}
use mathlib.Core.Option.{none, some}

abbrev pub contains_text : String → String → Bool
contains_text s t = elim (find? s t) [ none ↦ false | some n ↦ true ]

abbrev pub ends_with : String → String → Bool
ends_with s t = elim (get? s (len s - len t) (len s)) [ none ↦ false | some u ↦ str_eq u t ]
