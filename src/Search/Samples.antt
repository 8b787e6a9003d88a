-- ===== src/Search/Samples.antt =====
-- What a user types into the search box, and the round trip of three terms.
use ssa_consulta_rapidacpp.Prelude.{◌≡◌, refl, true, false, List, [], ◌∷◌, All}
use ssa_consulta_rapidacpp.Text.{codes, is_space}
use ssa_consulta_rapidacpp.Search.{
  MatchMode, FilterTerm, parse_terms, parse_mode, parse_parts, parse_sign, parse_term,
}
use ssa_consulta_rapidacpp.Search.RoundTrip.{IsWritable, written_terms, parse_terms-written_terms}
use ssa_consulta_rapidacpp.Text.Commas.{comma_parts}
use ssa_consulta_rapidacpp.Text.Trim.{trim}

abbrev terms : List FilterTerm
terms =
    record { text = codes "bomba"; mode = MatchMode.contains_text; negated = false }
    ∷ record { text = codes "MEL"; mode = MatchMode.starts_with; negated = true }
    ∷ record { text = codes "a*b"; mode = MatchMode.safe_pattern; negated = false }
    ∷ []

typed : parse_terms (codes " bomba,, ! ^MEL , ~ a*b") ≡ terms
unfolding parse_terms parse_parts comma_parts parse_term parse_sign trim parse_mode is_space
typed = refl

terms-IsWritable : All IsWritable terms
unfolding is_space
terms-IsWritable = (
  record { text_full = refl; text_trimmed = (refl, refl); text_no_comma = refl; text_plain = refl },
  (
    record {
      text_full = refl;
      text_trimmed = (refl, refl);
      text_no_comma = refl;
      text_plain = refl;
    },
    (
      record {
        text_full = refl;
        text_trimmed = (refl, refl);
        text_no_comma = refl;
        text_plain = refl;
      },
      tt,
    ),
  ),
)

parse_terms-written_terms_example : parse_terms (written_terms terms) ≡ terms
parse_terms-written_terms_example = parse_terms-written_terms terms terms-IsWritable
