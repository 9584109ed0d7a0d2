-- ===== src/KstDatetime/RoundTrip.antt =====
-- A written timestamp is read back as the same time.
use Prim.Native.Char.{Char, code}
use Prim.Native.String.{◌∷◌ as ◌⸬◌, ◌++◌ as ◌⧺◌}
use Prim.Native.String.append
use nestjs_graphql_fastify_a.Common.{
  ℕ, ◌+◌, ◌-◌, ◌/◌, ◌%◌, ◌≤◌, ◌<◌, String, true, some, List, [], ◌∷◌, ◌++◌, nat_eq, string_eq, ◌≡◌,
  refl, ap, ◌∙◌, arith,
}
use nestjs_graphql_fastify_a.Common.Text.{
  digit, to_text, template, trim, trim_start, trim_end, truthy, truthy-cons, is_blank-digit,
}
use nestjs_graphql_fastify_a.KstDatetime.{
  pad, expect, utc_fields, date_utc, kst_offset_ms, format_kst_datetime, parse_kst_datetime,
}
use nestjs_graphql_fastify_a.KstDatetime.Calendar.{utc_fields-IsInRange, date_utc-utc_fields}
use nestjs_graphql_fastify_a.KstDatetime.Written.{digits_two, digits_four, pad_three, to_text_year}
use nestjs_graphql_fastify_a.KstDatetime.Fraction.{fraction_of-pad, milliseconds_of-pad}
use text.Mathlib.TextLemmas.{append-nil as text_append-nil}

-- A text that does not end in a blank
EndsVisible : String → Type 0
EndsVisible s = (trim_end s ≡ s) × (truthy s ≡ true)

cons-EndsVisible : (c : Char) (s : String) → EndsVisible s → EndsVisible (c ⸬ s)
unfolding trim_end EndsVisible
cons-EndsVisible c s (e, t) = (ground (arith, e, t), truthy-cons c s)

append-EndsVisible : (s t : String) → EndsVisible t → EndsVisible (s ⧺ t)
append-EndsVisible String.[] t h = rw (append.nil t) h
append-EndsVisible (c ⸬ s) t h =
    rw (append.cons c s t) (cons-EndsVisible c (s ⧺ t) (append-EndsVisible s t h))

template-EndsVisible :
    (ss : List String) (last : String) → EndsVisible last → EndsVisible (template (ss ++ last ∷ []))
template-EndsVisible [] last h = rw (text_append-nil last) h
template-EndsVisible (s ∷ ss) last h = append-EndsVisible s _ (template-EndsVisible ss last h)

digit-EndsVisible : (d : ℕ) → EndsVisible (digit d ⸬ "")
unfolding trim_end EndsVisible
digit-EndsVisible d = (ground (arith, is_blank-digit d), truthy-cons (digit d) "")

pad-EndsVisible : (n : ℕ) → n < 1000 → EndsVisible (pad n 3)
pad-EndsVisible n h =
    rw (pad_three n h) (cons-EndsVisible _ _ (cons-EndsVisible _ _ (digit-EndsVisible (n % 10))))

year-trim_start :
    (y : ℕ) (s : String) → 1000 ≤ y → y < 10000 → trim_start (to_text y ⧺ s) ≡ to_text y ⧺ s
unfolding trim_start
year-trim_start y s h k =
    rw (to_text_year y h k, append.cons (digit (y / 1000)) _ s, is_blank-digit (y / 1000)) refl

expect-cons : (a b : ℕ) (c : Char) (s : String) → code c ≡ a → expect a b ((c ⸬ "") ⧺ s) ≡ some s
unfolding expect
expect-cons a b c s e = rw (append.cons c "" s, append.nil s) (ground (arith, e))

-- The text of the fields
abbrev parts : (y m d h mi s : ℕ) → List String
parts y m d h mi s =
    to_text y
    ∷ "-"
    ∷ pad m 2
    ∷ "-"
    ∷ pad d 2
    ∷ " "
    ∷ pad h 2
    ∷ ":"
    ∷ pad mi 2
    ∷ ":"
    ∷ pad s 2
    ∷ "."
    ∷ []

module _ (y m d h mi s ms : ℕ) (lo : 1000 ≤ y) (hi : y < 10000) (m_in : m < 100) (d_in : d < 100)
    (h_in : h < 100) (mi_in : mi < 100) (s_in : s < 100) (ms_in : ms < 1000) where
  abbrev written : String
  written = template (parts y m d h mi s ++ pad ms 3 ∷ [])

  trim-written : trim written ≡ written
  unfolding trim EndsVisible
  trim-written =
      ap trim_end (year-trim_start y _ lo hi)
      ∙ (template-EndsVisible (parts y m d h mi s) (pad ms 3) (pad-EndsVisible ms ms_in)).0

  parse-written : parse_kst_datetime written ≡ some (date_utc y m d h mi s ms - kst_offset_ms)
  unfolding parse_kst_datetime
  parse-written =
      rw
        (
          trim-written,
          digits_four y _ lo hi,
          expect-cons b'-' b'-' "-" _ refl,
          digits_two m _ m_in,
          expect-cons b'-' b'-' "-" _ refl,
          digits_two d _ d_in,
          expect-cons b' ' b'T' " " _ refl,
          digits_two h _ h_in,
          expect-cons b':' b':' ":" _ refl,
          digits_two mi _ mi_in,
          expect-cons b':' b':' ":" _ refl,
          digits_two s _ s_in,
          fraction_of-pad ms ms_in,
          milliseconds_of-pad ms ms_in,
        )
        refl

-- A time whose Korean year has four digits is read back from its text as the same time: no field is
-- lost, and the shift by nine hours is undone.
pub parse-format :
    (t : ℕ)
    → 1000 ≤ (utc_fields (t + kst_offset_ms)).year
    → (utc_fields (t + kst_offset_ms)).year < 10000
    → parse_kst_datetime (format_kst_datetime t) ≡ some t
unfolding format_kst_datetime
parse-format t lo hi =
    let f = utc_fields (t + kst_offset_ms) in
    let r = utc_fields-IsInRange (t + kst_offset_ms) in
    parse-written f.year (f.month + 1) f.day f.hours f.minutes f.seconds f.milliseconds lo hi
      (omega (arith, r.month_in)) (omega (arith, r.day_in)) (omega (arith, r.hours_in))
      (omega (arith, r.minutes_in)) (omega (arith, r.seconds_in)) r.milliseconds_in
    ∙ ap (λ u. some (u - kst_offset_ms)) (date_utc-utc_fields (t + kst_offset_ms) (omega arith))
    ∙ ap some (omega arith)
