-- ===== src/Prelude/Texts.antt =====
-- Texts that are compared as a whole.
use Prim.Native.String.{String}
use text.Mathlib.Text.{◌==◌}
use text.Mathlib.TextEquality.{eq_iff}
use handly_web_app.Prelude.Tests.{Comparable}

instance abbrev pub text_eq : Comparable String
text_eq = record { same = λ s t. s == t; same_iff = eq_iff }
