-- ===== src/DisplayOrder/Laws.antt =====
-- How far the display order is an order.
use ssa_consulta_rapidacpp.Prelude.{ℕ, ◌≡◌, Bool, true, false, Option, none, some, arith}
use ssa_consulta_rapidacpp.Text.{Text, text_lt}
use ssa_consulta_rapidacpp.Text.Equality.{text_eq_iff, text_lt_irrefl, text_lt_trans}
use ssa_consulta_rapidacpp.DisplayOrder.{
  uppercase_ascii_copy, parse_unsigned_integer, text_less, number_less,
  column_value_less_for_display,
}

text_lt_asym : (s t : Text) → text_lt s t ≡ true → text_lt t s ≡ false
text_lt_asym s t h = ground (arith, text_lt_trans s t s h, text_lt_irrefl s)

text_less_asym : (s t : Text) → text_less s t ≡ true → text_less t s ≡ false
unfolding text_less
text_less_asym s t h =
    let u = uppercase_ascii_copy s in
    let v = uppercase_ascii_copy t in
    ground (arith, text_eq_iff u v, text_eq_iff v u, text_lt_asym u v, text_lt_asym s t)

text_less_trans :
    (s t w : Text) → text_less s t ≡ true → text_less t w ≡ true → text_less s w ≡ true
unfolding text_less
text_less_trans s t w h k =
    let u = uppercase_ascii_copy s in
    let v = uppercase_ascii_copy t in
    let x = uppercase_ascii_copy w in
    ground (
      arith,
      text_eq_iff u v,
      text_eq_iff v x,
      text_eq_iff u x,
      text_lt_trans u v x,
      text_lt_trans s t w,
      text_lt_irrefl u,
      text_lt_irrefl v,
      text_lt_asym u v,
    )

number_less_asym :
    (a b : Option ℕ) (p q : Bool)
    → (p ≡ true → q ≡ false)
    → number_less a b p ≡ true
    → number_less b a q ≡ false
number_less_asym none none p q h k = h k
number_less_asym none (some b) p q h k = h k
number_less_asym (some a) none p q h k = h k
number_less_asym (some a) (some b) p q h k = ground arith

-- No two values stand before each other: the display order is asymmetric on all texts.
pub column_value_less_for_display_asym :
    (s t : Text)
    → column_value_less_for_display s t ≡ true
    → column_value_less_for_display t s ≡ false
unfolding column_value_less_for_display
column_value_less_for_display_asym s t h = ground (
  arith,
  number_less_asym (parse_unsigned_integer s) (parse_unsigned_integer t) (text_less s t)
      (text_less t s) (text_less_asym s t),
)

-- Among values that are no numbers the display order is transitive.
pub column_value_less_for_display_trans :
    (s t w : Text)
    → parse_unsigned_integer s ≡ none
    → parse_unsigned_integer t ≡ none
    → parse_unsigned_integer w ≡ none
    → column_value_less_for_display s t ≡ true
    → column_value_less_for_display t w ≡ true
    → column_value_less_for_display s w ≡ true
unfolding column_value_less_for_display
column_value_less_for_display_trans s t w a b c h k = ground (arith, text_less_trans s t w)
