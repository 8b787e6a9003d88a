-- ===== src/Sql/Like.antt =====
-- What the LIKE conditions of src/query/TextFilterSqlCompiler.cpp find. The operator is SQLite's: it
-- stands here as a parameter with its documented behaviour under ESCAPE '\', without regard to the
-- case of ASCII letters. Of its wildcards the code's literal patterns use the percent sign only.
use ssa_consulta_rapidacpp.Prelude.{
  ℕ, ◌≡◌, refl, sym, append-nil, ap, ap₂, ◌∙◌, Bool, true, false, ◌&&◌, ◌||◌, [], ◌∷◌, ◌++◌, some,
  arith, inl, inr, Bool-cases, ◌==◌,
}
use ssa_consulta_rapidacpp.Text.{Text, to_upper, text_eq, starts_with, contains_text}
use ssa_consulta_rapidacpp.Text.Case.{uppercase, uppercase_idem}
use ssa_consulta_rapidacpp.Search.{MatchMode}
use ssa_consulta_rapidacpp.Sql.{uppercase_copy}
use ssa_consulta_rapidacpp.Sql.TextFilter.{escaped_like_literal, pattern_for}

abbrev pub is_wildcard : ℕ → Bool
is_wildcard c = c == b'%' || c == b'_' || c == b'\\'

abbrev pub same_letter : ℕ → ℕ → Bool
same_letter c d = to_upper c == to_upper d

pub record IsLike (like : Text → Text → Bool) : Type 0 where
  pub end_end : like [] [] ≡ true
  pub end_more : (c : ℕ) (t : Text) → like [] (c ∷ t) ≡ false
  pub percent_end : (p : Text) → like (b'%' ∷ p) [] ≡ like p []
  pub percent_more :
      (p : Text) (c : ℕ) (t : Text)
      → like (b'%' ∷ p) (c ∷ t) ≡ (like p (c ∷ t) || like (b'%' ∷ p) t)
  pub escape_end : (d : ℕ) (p : Text) → like (b'\\' ∷ d ∷ p) [] ≡ false
  pub escape_more :
      (d : ℕ) (p : Text) (c : ℕ) (t : Text)
      → like (b'\\' ∷ d ∷ p) (c ∷ t) ≡ (same_letter d c && like p t)
  pub plain_end : (d : ℕ) (p : Text) → is_wildcard d ≡ false → like (d ∷ p) [] ≡ false
  pub plain_more :
      (d : ℕ) (p : Text) (c : ℕ) (t : Text)
      → is_wildcard d ≡ false
      → like (d ∷ p) (c ∷ t) ≡ (same_letter d c && like p t)

-- text.ends_with(suffix)
unfoldable pub ends_with : Text → Text → Bool
ends_with suffix [] = text_eq suffix []
ends_with suffix (c ∷ t) = text_eq suffix (c ∷ t) || ends_with suffix t

module _ (like : Text → Text → Bool) (laws : IsLike like) where
  like-escaped :
      (word rest : Text) (c : ℕ) (t : Text) (d : ℕ)
      → like (escaped_like_literal (d ∷ word) ++ rest) (c ∷ t)
        ≡ (same_letter d c && like (escaped_like_literal word ++ rest) t)
  unfolding escaped_like_literal
  like-escaped word rest c t d = elim (Bool-cases (is_wildcard d)) [
    | inl e ↦ rw e (laws.escape_more d (escaped_like_literal word ++ rest) c t)
    | inr e ↦ rw e (laws.plain_more d (escaped_like_literal word ++ rest) c t e)
  ]

  like-escaped_end :
      (word rest : Text) (d : ℕ) → like (escaped_like_literal (d ∷ word) ++ rest) [] ≡ false
  unfolding escaped_like_literal
  like-escaped_end word rest d = elim (Bool-cases (is_wildcard d)) [
    | inl e ↦ rw e (laws.escape_end d (escaped_like_literal word ++ rest))
    | inr e ↦ rw e (laws.plain_end d (escaped_like_literal word ++ rest) e)
  ]

  like_all : (t : Text) → like (b'%' ∷ []) t ≡ true
  like_all [] = laws.percent_end [] ∙ laws.end_end
  like_all (c ∷ t) = ground (arith, laws.percent_more [] c t, like_all t)

  like_prefix :
      (word t : Text)
      → like (escaped_like_literal word ++ b'%' ∷ []) t ≡ starts_with (uppercase word) (uppercase t)
  unfolding starts_with uppercase
  like_prefix [] t = unfold escaped_like_literal in (like_all t)
  like_prefix (d ∷ word) [] = like-escaped_end word (b'%' ∷ []) d
  like_prefix (d ∷ word) (c ∷ t) =
      ground (arith, like-escaped word (b'%' ∷ []) c t d, like_prefix word t)

  like_whole :
      (word t : Text)
      → like (escaped_like_literal word ++ []) t ≡ text_eq (uppercase word) (uppercase t)
  unfolding text_eq uppercase
  like_whole [] [] = unfold escaped_like_literal in laws.end_end
  like_whole [] (c ∷ t) = unfold escaped_like_literal in (laws.end_more c t)
  like_whole (d ∷ word) [] = like-escaped_end word [] d
  like_whole (d ∷ word) (c ∷ t) = ground (arith, like-escaped word [] c t d, like_whole word t)

  like_inside :
      (word t : Text)
      → like (b'%' ∷ (escaped_like_literal word ++ b'%' ∷ [])) t
        ≡ contains_text (uppercase word) (uppercase t)
  unfolding contains_text uppercase
  like_inside word [] =
      laws.percent_end (escaped_like_literal word ++ b'%' ∷ []) ∙ like_prefix word []
  like_inside word (c ∷ t) =
      laws.percent_more (escaped_like_literal word ++ b'%' ∷ []) c t
      ∙ ap₂ (λ (x y : Bool). x || y) (like_prefix word (c ∷ t)) (like_inside word t)

  like_suffix :
      (word t : Text)
      → like (b'%' ∷ (escaped_like_literal word ++ [])) t ≡ ends_with (uppercase word) (uppercase t)
  unfolding ends_with uppercase
  like_suffix word [] = laws.percent_end (escaped_like_literal word ++ []) ∙ like_whole word []
  like_suffix word (c ∷ t) =
      laws.percent_more (escaped_like_literal word ++ []) c t
      ∙ ap₂ (λ (x y : Bool). x || y) (like_whole word (c ∷ t)) (like_suffix word t)

  like_suffix_nil :
      (word t : Text)
      → like (b'%' ∷ escaped_like_literal word) t ≡ ends_with (uppercase word) (uppercase t)
  like_suffix_nil word t =
      ap (λ (p : Text). like (b'%' ∷ p) t) (sym (append-nil (escaped_like_literal word)))
      ∙ like_suffix word t

-- What a literal mode asks of the value, both without regard to case.
unfoldable pub finds : MatchMode → Text → Text → Bool
finds MatchMode.contains_text word value = contains_text word value
finds MatchMode.starts_with word value = starts_with word value
finds MatchMode.ends_with word value = ends_with word value
finds MatchMode.equals_text word value = text_eq word value
finds MatchMode.safe_pattern word value = false

abbrev pub is_literal : MatchMode → Bool
is_literal MatchMode.contains_text = true
is_literal MatchMode.starts_with = true
is_literal MatchMode.ends_with = true
is_literal MatchMode.equals_text = false
is_literal MatchMode.safe_pattern = false

-- Under a LIKE operator that behaves as documented, a search for a word in a value, at its start or at
-- its end finds exactly the values that hold the word there, without regard to case: percent signs,
-- underscores and backslashes of the word stand for themselves.
pub like-pattern_for :
    (like : Text → Text → Bool)
    → IsLike like
    → (mode : MatchMode) (word value pattern : Text) → is_literal mode ≡ true
    → pattern_for mode (uppercase_copy word) ≡ some pattern
    → like pattern value ≡ finds mode (uppercase word) (uppercase value)
unfolding pattern_for finds uppercase_copy
like-pattern_for like laws MatchMode.contains_text word value pattern l e =
    let same : b'%' ∷ (escaped_like_literal (uppercase word) ++ b'%' ∷ []) ≡ pattern = cc in
    ap (λ (p : Text). like p value) (sym same)
    ∙ (like_inside like laws (uppercase word) value ∙ simp (uppercase_idem) refl)
like-pattern_for like laws MatchMode.starts_with word value pattern l e =
    let same : escaped_like_literal (uppercase word) ++ b'%' ∷ [] ≡ pattern = cc in
    ap (λ (p : Text). like p value) (sym same)
    ∙ (like_prefix like laws (uppercase word) value ∙ simp (uppercase_idem) refl)
like-pattern_for like laws MatchMode.ends_with word value pattern l e =
    let same : b'%' ∷ escaped_like_literal (uppercase word) ≡ pattern = cc in
    ap (λ (p : Text). like p value) (sym same)
    ∙ (like_suffix_nil like laws (uppercase word) value ∙ simp (uppercase_idem) refl)
like-pattern_for like laws MatchMode.equals_text word value pattern l e = cc
like-pattern_for like laws MatchMode.safe_pattern word value pattern l e = cc
