-- ===== src/Search/RoundTrip.antt =====
-- Terms written in the syntax of the search box are read back.
use ssa_consulta_rapidacpp.Prelude.{
  ℕ, ◌≡◌, refl, ap, ◌∙◌, Bool, true, false, not, ◌&&◌, ◌||◌, List, [], ◌∷◌, ◌++◌, arith,
  if◌then◌else◌, ◌==◌, is_empty, All,
}
use ssa_consulta_rapidacpp.Text.{Text, is_space}
use ssa_consulta_rapidacpp.Text.Trim.{IsTrimmed, last_ok, trim-eq_self, trim-cons, trim-nil}
use ssa_consulta_rapidacpp.Text.Commas.{
  comma_parts, no_comma, comma_parts-no_comma, comma_parts-append,
}
use ssa_consulta_rapidacpp.Search.{
  MatchMode, FilterTerm, last_is, parse_mode, parse_sign, parse_term, parse_parts, parse_terms,
}

abbrev mode_prefix : MatchMode → Text
mode_prefix MatchMode.contains_text = []
mode_prefix MatchMode.starts_with = b'^' ∷ []
mode_prefix MatchMode.ends_with = b'$' ∷ []
mode_prefix MatchMode.equals_text = b'=' ∷ []
mode_prefix MatchMode.safe_pattern = b'~' ∷ []

abbrev body : FilterTerm → Text
body t = mode_prefix t.mode ++ t.text

abbrev written : FilterTerm → Text
written t = if t.negated then b'!' ∷ body t else body t

-- The terms with commas between them.
unfoldable pub written_terms : List FilterTerm → Text
written_terms [] = []
written_terms (t ∷ []) = written t
written_terms (t ∷ u ∷ ts) = written t ++ b',' ∷ written_terms (u ∷ ts)

abbrev is_mark : ℕ → Bool
is_mark c = c == b'!' || c == b'^' || c == b'$' || c == b'=' || c == b'~'

-- A text that reads as itself without a mode: no mark in front and no `$` at its end.
abbrev is_plain : Text → Bool
is_plain [] = false
is_plain (c ∷ s) = not (is_mark c) && not (last_is b'$' (c ∷ s))

abbrev plain_in : MatchMode → Text → Bool
plain_in MatchMode.contains_text text = is_plain text
plain_in MatchMode.starts_with text = true
plain_in MatchMode.ends_with text = true
plain_in MatchMode.equals_text text = true
plain_in MatchMode.safe_pattern text = true

pub record IsWritable (t : FilterTerm) : Type 0 where
  pub text_full : is_empty t.text ≡ false
  pub text_trimmed : IsTrimmed t.text
  pub text_no_comma : no_comma t.text ≡ true
  pub text_plain : plain_in t.mode t.text ≡ true

body-IsTrimmed :
    (m : MatchMode) (c : ℕ) (s : Text) → IsTrimmed (c ∷ s) → IsTrimmed (mode_prefix m ++ c ∷ s)
unfolding is_space
body-IsTrimmed MatchMode.contains_text c s h = h
body-IsTrimmed MatchMode.starts_with c s h = (refl, h.1)
body-IsTrimmed MatchMode.ends_with c s h = (refl, h.1)
body-IsTrimmed MatchMode.equals_text c s h = (refl, h.1)
body-IsTrimmed MatchMode.safe_pattern c s h = (refl, h.1)

parse_mode-body :
    (m : MatchMode) (negated : Bool) (c : ℕ) (s : Text)
    → IsTrimmed (c ∷ s)
    → plain_in m (c ∷ s) ≡ true
    → parse_mode negated (mode_prefix m ++ c ∷ s)
      ≡ record { text = c ∷ s; mode = m; negated = negated }
unfolding parse_mode
parse_mode-body MatchMode.contains_text negated c s h p = ground arith
parse_mode-body MatchMode.starts_with negated c s h p = rw (trim-eq_self (c ∷ s) h) refl
parse_mode-body MatchMode.ends_with negated c s h p = rw (trim-eq_self (c ∷ s) h) refl
parse_mode-body MatchMode.equals_text negated c s h p = rw (trim-eq_self (c ∷ s) h) refl
parse_mode-body MatchMode.safe_pattern negated c s h p = rw (trim-eq_self (c ∷ s) h) refl

parse_sign-body :
    (m : MatchMode) (c : ℕ) (s : Text)
    → plain_in m (c ∷ s) ≡ true
    → parse_sign (mode_prefix m ++ c ∷ s) ≡ parse_mode false (mode_prefix m ++ c ∷ s)
unfolding parse_sign
parse_sign-body MatchMode.contains_text c s p = ground arith
parse_sign-body MatchMode.starts_with c s p = refl
parse_sign-body MatchMode.ends_with c s p = refl
parse_sign-body MatchMode.equals_text c s p = refl
parse_sign-body MatchMode.safe_pattern c s p = refl

body-last_ok :
    (m : MatchMode) (c : ℕ) (s : Text) → IsTrimmed (c ∷ s) → last_ok (mode_prefix m ++ c ∷ s) ≡ true
body-last_ok m c s h = (body-IsTrimmed m c s h).1

parse_term-parts :
    (text : Text) (m : MatchMode) (negated : Bool)
    → IsWritable (record { text = text; mode = m; negated = negated })
    → parse_term (written (record { text = text; mode = m; negated = negated }))
      ≡ record { text = text; mode = m; negated = negated }
unfolding parse_term is_space parse_sign
parse_term-parts [] m negated w = cc (w.text_full)
parse_term-parts (c ∷ s) m true w =
    let trimmed = trim-eq_self (mode_prefix m ++ c ∷ s) (body-IsTrimmed m c s w.text_trimmed) in
    rw (trim-cons b'!' (mode_prefix m ++ c ∷ s) refl (body-last_ok m c s w.text_trimmed), trimmed)
      (parse_mode-body m true c s w.text_trimmed w.text_plain)
parse_term-parts (c ∷ s) m false w =
    rw (trim-eq_self (mode_prefix m ++ c ∷ s) (body-IsTrimmed m c s w.text_trimmed))
      (parse_sign-body m c s w.text_plain ∙ parse_mode-body m false c s w.text_trimmed w.text_plain)

body-no_comma :
    (m : MatchMode) (s : Text) → no_comma s ≡ true → no_comma (mode_prefix m ++ s) ≡ true
body-no_comma MatchMode.contains_text s h = h
body-no_comma MatchMode.starts_with s h = h
body-no_comma MatchMode.ends_with s h = h
body-no_comma MatchMode.equals_text s h = h
body-no_comma MatchMode.safe_pattern s h = h

written-no_comma :
    (m : MatchMode) (negated : Bool) (s : Text)
    → no_comma s ≡ true
    → no_comma (written (record { text = s; mode = m; negated = negated })) ≡ true
written-no_comma m true s h = body-no_comma m s h
written-no_comma m false s h = body-no_comma m s h

parse_parts-written :
    (t : FilterTerm) (parts : List Text)
    → IsWritable t
    → parse_parts (written t ∷ parts) ≡ t ∷ parse_parts parts
unfolding parse_parts
parse_parts-written t parts w = rw (parse_term-parts t.text t.mode t.negated w, w.text_full) refl

-- The search box reads back every list of terms that is written in its syntax, sign, mode, text and
-- order included, for terms with a trimmed text without comma, that does not look like a mark where
-- the mode has none.
pub parse_terms-written_terms :
    (ts : List FilterTerm) → All IsWritable ts → parse_terms (written_terms ts) ≡ ts
unfolding parse_terms written_terms parse_parts comma_parts parse_term parse_sign parse_mode
parse_terms-written_terms [] h = rw trim-nil refl
parse_terms-written_terms (t ∷ []) (w, h) =
    rw (comma_parts-no_comma (written t) (written-no_comma t.mode t.negated t.text w.text_no_comma))
      (parse_parts-written t [] w)
parse_terms-written_terms (t ∷ u ∷ ts) (w, h) =
    rw
      (comma_parts-append (written t) (written_terms (u ∷ ts))
        (written-no_comma t.mode t.negated t.text w.text_no_comma))
      (parse_parts-written t (comma_parts (written_terms (u ∷ ts))) w
        ∙ ap (λ r. t ∷ r) (parse_terms-written_terms (u ∷ ts) h))
