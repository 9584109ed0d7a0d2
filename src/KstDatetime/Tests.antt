-- ===== src/KstDatetime/Tests.antt =====
-- Timestamps at concrete times: 63,949,910,400,123 milliseconds after the start of the year 0 it is
-- 2026-06-29T00:00:00.123Z.
use nestjs_graphql_fastify_a.Common.{ℕ, ◌+◌, some, ◌≡◌, refl, arith}
use nestjs_graphql_fastify_a.Common.Text.{
  to_text, pad_start, repeat, trim, number, slice_to, pad_end,
}
use nestjs_graphql_fastify_a.KstDatetime.{
  kst_offset_ms, utc_fields, format_kst_datetime, parse_kst_datetime, pad, digits, expect,
  fraction_of, milliseconds_of, date_utc, days_before_year, days_before_month, is_leap, all_digits,
  days_in_year,
}
use nestjs_graphql_fastify_a.KstDatetime.RoundTrip.{parse-format}

abbrev in_june : ℕ
in_june = 63949910400123

formatted : format_kst_datetime in_june ≡ "2026-06-29 09:00:00.123"
unfolding format_kst_datetime days_in_year is_leap to_text pad pad_start repeat
formatted = refl

parsed : parse_kst_datetime "2026-06-29T09:00:00.123456" ≡ some in_june
unfolding parse_kst_datetime trim digits expect fraction_of milliseconds_of number slice_to pad_end
    repeat date_utc days_before_year days_before_month is_leap all_digits days_in_year
parsed = refl

june_year : (utc_fields (in_june + kst_offset_ms)).year ≡ 2026
unfolding utc_fields days_in_year is_leap
june_year = refl

parse-format_example : parse_kst_datetime (format_kst_datetime in_june) ≡ some in_june
parse-format_example = parse-format in_june (omega (arith, june_year)) (omega (arith, june_year))
