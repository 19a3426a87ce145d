-- ===== src/Common/Examples.antt =====
-- Runs of the shared value objects on concrete inputs, and the theorems at these inputs.
use leadkart_go.Base.{◌≡◌, refl, ok, arith}
use leadkart_go.Base.Int64.{pos, negsuc, add64, mul64, neg64, quot64, rem64}
use leadkart_go.Base.Text.{codes, trim_space, byte_len}
use leadkart_go.Base.Decimal.{format_nat, format_int, format_02, parse_int, spell}
use leadkart_go.Common.Money.{
  usd, cut, group_by, group_inr, group_western, format, format_paise_inr, parse_paise, strip,
  parse_parts, parse_fraction, rupee,
}
use leadkart_go.Common.Money.Grouping.{IsGrouped, group_inr_and_western-IsGrouped}
use leadkart_go.Common.Money.RoundTrip.{parse_paise-format_paise_inr}
use leadkart_go.Base.{◌∷◌}

lakhs : format_paise_inr (pos 1234567850) ≡ rupee ∷ codes "1,23,45,678.50"
unfolding format_paise_inr format group_inr group_by cut format_int format_nat format_02 spell
    quot64 rem64
lakhs = refl

western : format (negsuc 1234566) usd ≡ codes "$-12,345.67"
unfolding format group_western group_by cut format_int format_nat format_02 spell quot64 rem64 neg64
western = refl

-- A minus outside the symbol, white space, and a third decimal.
tolerant : parse_paise (codes " - 12,34.567 ") ≡ ok (negsuc 123455)
unfolding parse_paise strip parse_parts parse_fraction parse_int trim_space byte_len add64 mul64
    neg64
tolerant = refl

-- A sign in the fraction is accepted, and taken off the rupees.
sign_in_fraction : parse_paise (codes "1.-5") ≡ ok (pos 95)
unfolding parse_paise strip parse_parts parse_fraction parse_int trim_space byte_len add64 mul64
    neg64
sign_in_fraction = refl

-- An amount beyond int64 paise is accepted, and wraps.
overflowing : parse_paise (codes "184467440737095517") ≡ ok (pos 84)
unfolding parse_paise strip parse_parts parse_fraction parse_int trim_space byte_len add64 mul64
    neg64
overflowing = refl

parse_paise-format_paise_inr_example :
    parse_paise (format_paise_inr (negsuc 1234566)) ≡ ok (negsuc 1234566)
parse_paise-format_paise_inr_example =
    parse_paise-format_paise_inr (negsuc 1234566) (omega arith) (omega arith)

group_inr_and_western-IsGrouped_example :
    IsGrouped 2 (format_nat 12345678) (group_inr (pos 12345678))
    × IsGrouped 3 (format_nat 12345678) (group_western (pos 12345678))
group_inr_and_western-IsGrouped_example = group_inr_and_western-IsGrouped 12345678
