-- ===== src/FilterToken/Samples.antt =====
-- Small token sets, what the operations do on them, and the theorems at these inputs.
use ssa_consulta_rapidacpp.Prelude.{◌≡◌, refl, false}
use ssa_consulta_rapidacpp.Text.{Text, codes, text_eq}
use ssa_consulta_rapidacpp.Text.Trim.{trim}
use ssa_consulta_rapidacpp.FilterToken.{
  TextFilterOperator, TextFilterTokenSet, parse_text_filter_tokens, join_text_filter_tokens,
  add_text_filter_value,
}
use ssa_consulta_rapidacpp.FilterToken.Invariant.{IsIndexed, Built, Built-IsIndexed}
use ssa_consulta_rapidacpp.FilterToken.RoundTrip.{parse-join}

abbrev expression : Text
expression = codes " =MEL4 , !=MEL3, ,SCA,!MEL4"

parsed_text :
    join_text_filter_tokens (parse_text_filter_tokens expression) ≡ codes "!=MEL4,!=MEL3,=SCA"
unfolding join_text_filter_tokens parse_text_filter_tokens trim text_eq
parsed_text = refl

abbrev two : TextFilterTokenSet
two = parse_text_filter_tokens (codes "=MEL4,!=SCA")

two-IsIndexed : IsIndexed two
two-IsIndexed = Built-IsIndexed (Built.parsed (codes "=MEL4,!=SCA"))

Built-IsIndexed_example :
    IsIndexed (add_text_filter_value two (codes " SES ") TextFilterOperator.equals).0
Built-IsIndexed_example =
    Built-IsIndexed
      (Built.added (codes " SES ") TextFilterOperator.equals (Built.parsed (codes "=MEL4,!=SCA")))

parse-join_example : (parse_text_filter_tokens (join_text_filter_tokens two)).ordered ≡ two.ordered
unfolding parse_text_filter_tokens trim text_eq
parse-join_example = parse-join two two-IsIndexed (refl, (refl, tt))

already_there : (add_text_filter_value two (codes "SCA ") TextFilterOperator.different).1 ≡ false
unfolding add_text_filter_value parse_text_filter_tokens trim text_eq
already_there = refl
