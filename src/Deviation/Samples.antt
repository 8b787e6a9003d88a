-- ===== src/Deviation/Samples.antt =====
-- Counts as sheets hold them, and the theorem about normalizing them.
use ssa_consulta_rapidacpp.Prelude.{◌≡◌, refl}
use ssa_consulta_rapidacpp.Text.{codes, is_digit, starts_with, text_eq}
use ssa_consulta_rapidacpp.Deviation.{
  normalize_deviation_count, before_separator, deviation_suffix, drop_bytes, from_separator,
  integer_literal, is_no_deviation,
}
use ssa_consulta_rapidacpp.Text.Case.{lowercase}
use ssa_consulta_rapidacpp.Text.Trim.{trim}

third : normalize_deviation_count (codes " Desvio # 3.0 ") ≡ codes "3"
unfolding normalize_deviation_count integer_literal from_separator lowercase trim before_separator
    is_digit starts_with deviation_suffix drop_bytes
third = refl

none_at_all : normalize_deviation_count (codes "Sem desvio (0)") ≡ codes "0"
unfolding normalize_deviation_count integer_literal from_separator lowercase trim before_separator
    is_digit starts_with is_no_deviation text_eq
none_at_all = refl
