-- ===== src/KstDatetime/Fraction.antt =====
-- The three digits of the milliseconds are read back.
use Prim.Native.String.{◌∷◌ as ◌⸬◌, ◌++◌ as ◌⧺◌}
use Prim.Native.String.append
use text.Mathlib.TextLemmas.{append-nil as text_append-nil}
use nestjs_graphql_fastify_a.Common.{
  ℕ, ◌+◌, ◌-◌, ◌*◌, ◌/◌, ◌%◌, ◌<◌, String, true, some, nat_eq, ◌≡◌, refl, ap, ◌∙◌, arith,
}
use nestjs_graphql_fastify_a.Common.Text.{
  digit, number, slice_to, pad_end, repeat, number_from-digit, number_from,
}
use nestjs_graphql_fastify_a.KstDatetime.{pad, all_digits, fraction_of, milliseconds_of}
use nestjs_graphql_fastify_a.KstDatetime.Written.{pad_three, code-digit, count_three}

all_digits-cons :
    (d : ℕ) (s : String) → d < 10 → all_digits s ≡ true → all_digits (digit d ⸬ s) ≡ true
unfolding all_digits
all_digits-cons d s h e = ground (arith, code-digit d h, e)

no_zeros : (s : String) → s ⧺ repeat 0 "0" ≡ s
unfolding repeat
no_zeros s = text_append-nil s

module _ (a b c : ℕ) (ha : a < 10) (hb : b < 10) (hc : c < 10) where
  abbrev three : String
  three = digit a ⸬ (digit b ⸬ (digit c ⸬ ""))

  fraction_of-three : fraction_of ("." ⧺ three) ≡ some three
  unfolding fraction_of
  fraction_of-three =
      rw (append.cons "." "" three, append.nil three)
        (ground (
          arith,
          count_three (digit a) (digit b) (digit c),
          all_digits-cons a (digit b ⸬ (digit c ⸬ "")) ha (
              all_digits-cons b (digit c ⸬ "") hb
                (all_digits-cons c "" hc (unfold all_digits in refl))),
        ))

  milliseconds_of-three : milliseconds_of three ≡ some ((a * 10 + b) * 10 + c)
  unfolding milliseconds_of pad_end slice_to number
  milliseconds_of-three =
      rw (ap (λ n. repeat (3 - n) "0") (count_three (digit a) (digit b) (digit c)), no_zeros three)
        (number_from-digit 0 a (digit b ⸬ (digit c ⸬ "")) ha
          ∙ number_from-digit (0 * 10 + a) b (digit c ⸬ "") hb
          ∙ number_from-digit _ c "" hc
          ∙ ends)
    where
      ends : number_from (((0 * 10 + a) * 10 + b) * 10 + c) "" ≡ some ((a * 10 + b) * 10 + c)
      ends = unfold number_from in ap some (omega arith)

-- The milliseconds are read back from the end of the text.
pub fraction_of-pad : (n : ℕ) → n < 1000 → fraction_of ("." ⧺ (pad n 3 ⧺ "")) ≡ some (pad n 3 ⧺ "")
fraction_of-pad n h =
    rw (text_append-nil (pad n 3), pad_three n h)
      (fraction_of-three (n / 100) (n / 10 % 10) (n % 10) (omega arith) (omega arith) (omega arith))

pub milliseconds_of-pad : (n : ℕ) → n < 1000 → milliseconds_of (pad n 3 ⧺ "") ≡ some n
milliseconds_of-pad n h =
    rw (text_append-nil (pad n 3), pad_three n h)
      (milliseconds_of-three (n / 100) (n / 10 % 10) (n % 10) (omega arith) (omega arith)
          (omega arith)
        ∙ ap some (omega arith))
