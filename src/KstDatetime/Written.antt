-- ===== src/KstDatetime/Written.antt =====
-- Numbers of a fixed width are written as their digits, and read back.
use Prim.Native.Char.{Char, code}
use Prim.Native.String.{◌∷◌ as ◌⸬◌, ◌++◌ as ◌⧺◌, count}
use Prim.Native.String.count as counts
use Prim.Native.String.append
use nestjs_graphql_fastify_a.Common.{
  ℕ, zero, suc, ◌+◌, ◌-◌, ◌*◌, ◌/◌, ◌%◌, ◌≤◌, ◌<◌, String, some, ltb, nat_eq, ◌≡◌, refl, ap, ◌∙◌,
  arith, Bool-cases, inl, inr,
}
use nestjs_graphql_fastify_a.Common.Text.{digit, to_text, to_text_from, pad_start, repeat}
use nestjs_graphql_fastify_a.KstDatetime.{pad, digits}

last_digit : (f n : ℕ) (s : String) → n < 10 → to_text_from (suc f) n s ≡ digit n ⸬ s
unfolding to_text_from
last_digit f n s h =
    let e : n / 10 ≡ 0 = omega arith in let r : n % 10 ≡ n = omega arith in rw (e, r) refl

more_digits :
    (f n : ℕ) (s : String)
    → 10 ≤ n
    → to_text_from (suc f) n s ≡ to_text_from f (n / 10) (digit (n % 10) ⸬ s)
unfolding to_text_from
more_digits f n s h = ground arith

two_digits :
    (f n : ℕ) (s : String)
    → 10 ≤ n
    → n < 100
    → to_text_from (suc (suc f)) n s ≡ digit (n / 10) ⸬ (digit (n % 10) ⸬ s)
two_digits f n s h k =
    more_digits (suc f) n s h ∙ last_digit f (n / 10) (digit (n % 10) ⸬ s) (omega arith)

three_digits :
    (f n : ℕ) (s : String)
    → 100 ≤ n
    → n < 1000
    → to_text_from (suc (suc (suc f))) n s
      ≡ digit (n / 100) ⸬ (digit (n / 10 % 10) ⸬ (digit (n % 10) ⸬ s))
three_digits f n s h k =
    let e : n / 10 / 10 ≡ n / 100 = omega arith in
    more_digits (suc (suc f)) n s (omega arith)
    ∙ two_digits f (n / 10) (digit (n % 10) ⸬ s) (omega arith) (omega arith)
    ∙ rw e refl

four_digits :
    (f n : ℕ)
    → 1000 ≤ n
    → n < 10000
    → to_text_from (suc (suc (suc (suc f)))) n ""
      ≡ digit (n / 1000) ⸬ (digit (n / 100 % 10) ⸬ (digit (n / 10 % 10) ⸬ (digit (n % 10) ⸬ "")))
four_digits f n h k =
    let e : n / 10 / 100 ≡ n / 1000 = omega arith in
    let d : n / 10 / 10 ≡ n / 100 = omega arith in
    more_digits (suc (suc (suc f))) n "" (omega arith)
    ∙ three_digits f (n / 10) (digit (n % 10) ⸬ "") (omega arith) (omega arith)
    ∙ rw (e, d) refl

pub to_text_year :
    (n : ℕ)
    → 1000 ≤ n
    → n < 10000
    → to_text n
      ≡ digit (n / 1000) ⸬ (digit (n / 100 % 10) ⸬ (digit (n / 10 % 10) ⸬ (digit (n % 10) ⸬ "")))
unfolding to_text
to_text_year n h k =
    let e : suc n ≡ suc (suc (suc (suc (n - 3)))) = omega arith in
    ap (λ f. to_text_from f n "") e ∙ four_digits (n - 3) n h k

-- Zeros in front up to the width
padded : (n k : ℕ) (s : String) → to_text n ≡ s → pad n k ≡ repeat (k - count s) "0" ⧺ s
unfolding pad pad_start
padded n k s e = rw e refl

count_one : (c : Char) → count (c ⸬ "") ≡ 1
count_one c = omega (arith, counts.cons c "", counts.nil)

count_two : (c d : Char) → count (c ⸬ (d ⸬ "")) ≡ 2
count_two c d = omega (arith, counts.cons c (d ⸬ ""), count_one d)

pub count_three : (c d e : Char) → count (c ⸬ (d ⸬ (e ⸬ ""))) ≡ 3
count_three c d e = omega (arith, counts.cons c (d ⸬ (e ⸬ "")), count_two d e)

one_zero : (s : String) → repeat 1 "0" ⧺ s ≡ digit 0 ⸬ s
unfolding repeat
one_zero s = append.cons "0" "" s ∙ ap (◌⸬◌ "0") (append.nil s)

two_zeros : (s : String) → repeat 2 "0" ⧺ s ≡ digit 0 ⸬ (digit 0 ⸬ s)
unfolding repeat
two_zeros s = append.cons "0" "0" s ∙ ap (◌⸬◌ "0") (one_zero s)

no_zeros : (s : String) → repeat 0 "0" ⧺ s ≡ s
unfolding repeat
no_zeros s = append.nil s

text_one : (n : ℕ) → n < 10 → to_text n ≡ digit n ⸬ ""
unfolding to_text
text_one n h = last_digit n n "" h

text_two : (n : ℕ) → 10 ≤ n → n < 100 → to_text n ≡ digit (n / 10) ⸬ (digit (n % 10) ⸬ "")
unfolding to_text
text_two n h k =
    let e : suc n ≡ suc (suc (n - 1)) = omega arith in
    ap (λ f. to_text_from f n "") e ∙ two_digits (n - 1) n "" h k

text_three :
    (n : ℕ)
    → 100 ≤ n
    → n < 1000
    → to_text n ≡ digit (n / 100) ⸬ (digit (n / 10 % 10) ⸬ (digit (n % 10) ⸬ ""))
unfolding to_text
text_three n h k =
    let e : suc n ≡ suc (suc (suc (n - 2))) = omega arith in
    ap (λ f. to_text_from f n "") e ∙ three_digits (n - 2) n "" h k

pub pad_two : (n : ℕ) → n < 100 → pad n 2 ≡ digit (n / 10) ⸬ (digit (n % 10) ⸬ "")
pad_two n h = elim (Bool-cases (ltb n 10)) [
  | inl small ↦
      let k : n < 10 = ground (arith, small) in
      let e : n / 10 ≡ 0 = omega arith in
      let r : n % 10 ≡ n = omega arith in
      padded n 2 _ (text_one n k)
      ∙ ap (λ c. repeat (2 - c) "0" ⧺ (digit n ⸬ "")) (count_one (digit n))
      ∙ one_zero _
      ∙ rw (e, r) refl
  | inr big ↦
      let k : 10 ≤ n = ground (arith, big) in
      padded n 2 _ (text_two n k h)
      ∙ ap (λ c. repeat (2 - c) "0" ⧺ (digit (n / 10) ⸬ (digit (n % 10) ⸬ "")))
          (count_two (digit (n / 10)) (digit (n % 10)))
      ∙ no_zeros _
]

pad_three_small : (n : ℕ) → n < 100 → pad n 3 ≡ digit 0 ⸬ (digit (n / 10) ⸬ (digit (n % 10) ⸬ ""))
pad_three_small n h = elim (Bool-cases (ltb n 10)) [
  | inl small ↦
      let k : n < 10 = ground (arith, small) in
      let e : n / 10 ≡ 0 = omega arith in
      let r : n % 10 ≡ n = omega arith in
      padded n 3 _ (text_one n k)
      ∙ ap (λ c. repeat (3 - c) "0" ⧺ (digit n ⸬ "")) (count_one (digit n))
      ∙ two_zeros _
      ∙ rw (e, r) refl
  | inr big ↦
      let k : 10 ≤ n = ground (arith, big) in
      padded n 3 _ (text_two n k h)
      ∙ ap (λ c. repeat (3 - c) "0" ⧺ (digit (n / 10) ⸬ (digit (n % 10) ⸬ "")))
          (count_two (digit (n / 10)) (digit (n % 10)))
      ∙ one_zero _
]

pub pad_three :
    (n : ℕ) → n < 1000 → pad n 3 ≡ digit (n / 100) ⸬ (digit (n / 10 % 10) ⸬ (digit (n % 10) ⸬ ""))
pad_three n h = elim (Bool-cases (ltb n 100)) [
  | inl small ↦
      let k : n < 100 = ground (arith, small) in
      let e : n / 100 ≡ 0 = omega arith in
      let r : n / 10 % 10 ≡ n / 10 = omega arith in pad_three_small n k ∙ rw (e, r) refl
  | inr big ↦
      let k : 100 ≤ n = ground (arith, big) in
      padded n 3 _ (text_three n k h)
      ∙ ap
          (λ c.
            repeat (3 - c) "0" ⧺ (digit (n / 100) ⸬ (digit (n / 10 % 10) ⸬ (digit (n % 10) ⸬ ""))))
          (count_three (digit (n / 100)) (digit (n / 10 % 10)) (digit (n % 10)))
      ∙ no_zeros _
]

pub code-digit : (d : ℕ) → d < 10 → code (digit d) ≡ b'0' + d
code-digit zero h = refl
code-digit (suc zero) h = refl
code-digit (suc (suc zero)) h = refl
code-digit (suc (suc (suc zero))) h = refl
code-digit (suc (suc (suc (suc zero)))) h = refl
code-digit (suc (suc (suc (suc (suc zero))))) h = refl
code-digit (suc (suc (suc (suc (suc (suc zero)))))) h = refl
code-digit (suc (suc (suc (suc (suc (suc (suc zero))))))) h = refl
code-digit (suc (suc (suc (suc (suc (suc (suc (suc zero)))))))) h = refl
code-digit (suc (suc (suc (suc (suc (suc (suc (suc (suc n))))))))) h =
    let e : n ≡ 0 = omega arith in rw e refl

digits-digit :
    (k acc d : ℕ) (s : String)
    → d < 10
    → digits (suc k) acc (digit d ⸬ s) ≡ digits k (acc * 10 + d) s
unfolding digits
digits-digit k acc d s h = ground (arith, code-digit d h)

digits_done : (acc n : ℕ) (s : String) → acc ≡ n → digits 0 acc s ≡ some (n, s)
unfolding digits
digits_done acc n s e = rw e refl

-- Reading two, three or four digits gives the number that was written.
pub digits_two : (n : ℕ) (s : String) → n < 100 → digits 2 0 (pad n 2 ⧺ s) ≡ some (n, s)
digits_two n s h =
    rw
      (
        pad_two n h,
        append.cons (digit (n / 10)) (digit (n % 10) ⸬ "") s,
        append.cons (digit (n % 10)) "" s,
        append.nil s,
      )
      (digits-digit 1 0 (n / 10) _ (omega arith)
        ∙ digits-digit 0 (0 * 10 + n / 10) (n % 10) s (omega arith)
        ∙ digits_done _ n s (omega arith))

pub digits_four :
    (n : ℕ) (s : String) → 1000 ≤ n → n < 10000 → digits 4 0 (to_text n ⧺ s) ≡ some (n, s)
digits_four n s h k =
    rw
      (
        to_text_year n h k,
        append.cons (digit (n / 1000))
            (digit (n / 100 % 10) ⸬ (digit (n / 10 % 10) ⸬ (digit (n % 10) ⸬ ""))) s,
        append.cons (digit (n / 100 % 10)) (digit (n / 10 % 10) ⸬ (digit (n % 10) ⸬ "")) s,
        append.cons (digit (n / 10 % 10)) (digit (n % 10) ⸬ "") s,
        append.cons (digit (n % 10)) "" s,
        append.nil s,
      )
      (digits-digit 3 0 (n / 1000) _ (omega arith)
        ∙ digits-digit 2 (0 * 10 + n / 1000) (n / 100 % 10) _ (omega arith)
        ∙ digits-digit 1 _ (n / 10 % 10) _ (omega arith)
        ∙ digits-digit 0 _ (n % 10) s (omega arith)
        ∙ digits_done _ n s (omega arith))
