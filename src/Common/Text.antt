-- ===== src/Common/Text.antt =====
-- The string operations of the language that the program uses: `String(n)`, `Number(s)` on decimal
-- text, `trim`, truthiness.
use Prim.Native.Char.{Char, code}
use Prim.Native.Nat.{ℕ, zero, suc, ◌+◌, ◌-◌, ◌*◌, ◌/◌, ◌%◌, ◌<◌}
use Prim.Native.String.compare
use Prim.Native.String.{String, [], ◌∷◌, ◌++◌, count}
use mathlib.Core.List.{List}
use mathlib.Core.Path.{◌≡◌, refl}
use mathlib.Core.Bool.{Bool, true, false, ◌&&◌, ◌||◌, not}
use mathlib.Core.Option.{Option, none, some}
use native.Mathlib.Omega.{arith}
use nestjs_graphql_fastify_a.Common.Tests.{leb, ◌==◌, nat_eq, string_eq, if◌then◌else◌, if_elim}

abbrev pub digit : ℕ → Char
digit zero = "0"
digit (suc zero) = "1"
digit (suc (suc zero)) = "2"
digit (suc (suc (suc zero))) = "3"
digit (suc (suc (suc (suc zero)))) = "4"
digit (suc (suc (suc (suc (suc zero))))) = "5"
digit (suc (suc (suc (suc (suc (suc zero)))))) = "6"
digit (suc (suc (suc (suc (suc (suc (suc zero))))))) = "7"
digit (suc (suc (suc (suc (suc (suc (suc (suc zero)))))))) = "8"
digit _ = "9"

unfoldable pub to_text_from : ℕ → ℕ → String → String
to_text_from zero n acc = acc
to_text_from (suc f) n acc =
    let rest = to_text_from f (n / 10) (digit (n % 10) ∷ acc) in
    if n / 10 == 0 then digit (n % 10) ∷ acc else rest

-- `String(n)` of a natural number
unfoldable pub to_text : ℕ → String
unfolding to_text_from
to_text n = to_text_from (suc n) n ""

abbrev pub is_digit : ℕ → Bool
is_digit c = leb b'0' c && leb c b'9'

unfoldable pub number_from : ℕ → String → Option ℕ
number_from acc [] = some acc
number_from acc (c ∷ s) =
    let next = number_from (acc * 10 + (code c - b'0')) s in
    if is_digit (code c) then next else none

-- `Number(s)` on decimal digits; `none` stands for NaN and for the other numeric forms.
unfoldable pub number : String → Option ℕ
unfolding number_from
number s = number_from 0 s

pub number_from-digit :
    (acc d : ℕ) (s : String) → d < 10 → number_from acc (digit d ∷ s) ≡ number_from (acc * 10 + d) s
unfolding number_from
number_from-digit acc zero s h = refl
number_from-digit acc (suc zero) s h = refl
number_from-digit acc (suc (suc zero)) s h = refl
number_from-digit acc (suc (suc (suc zero))) s h = refl
number_from-digit acc (suc (suc (suc (suc zero)))) s h = refl
number_from-digit acc (suc (suc (suc (suc (suc zero))))) s h = refl
number_from-digit acc (suc (suc (suc (suc (suc (suc zero)))))) s h = refl
number_from-digit acc (suc (suc (suc (suc (suc (suc (suc zero))))))) s h = refl
number_from-digit acc (suc (suc (suc (suc (suc (suc (suc (suc zero)))))))) s h = refl
number_from-digit acc (suc (suc (suc (suc (suc (suc (suc (suc (suc n))))))))) s h =
    let e : n ≡ 0 = omega arith in rw e refl

number_from-to_text_from :
    (f n : ℕ) (s : String) → n < f → number_from 0 (to_text_from f n s) ≡ number_from n s
unfolding to_text_from
number_from-to_text_from zero n s h = absurd (omega arith)
number_from-to_text_from (suc f) n s h = ground (
  arith,
  number_from-digit 0 n s,
  number_from-digit (n / 10) (n % 10) s,
  number_from-to_text_from f (n / 10) (digit (n % 10) ∷ s),
)

pub number-to_text : (n : ℕ) → number (to_text n) ≡ some n
unfolding number to_text
number-to_text n = number_from-to_text_from (suc n) n "" (omega arith)

-- The characters that `trim` removes.
abbrev pub is_blank : ℕ → Bool
is_blank c =
    (leb 9 c && leb c 13)
    || c == 0x20
    || c == 0xa0
    || c == 0x1680
    || (leb 0x2000 c && leb c 0x200a)
    || c == 0x2028
    || c == 0x2029
    || c == 0x202f
    || c == 0x205f
    || c == 0x3000
    || c == 0xfeff

unfoldable pub trim_start : String → String
trim_start [] = ""
trim_start (c ∷ s) = if is_blank (code c) then trim_start s else c ∷ s

unfoldable pub trim_end : String → String
trim_end [] = ""
trim_end (c ∷ s) = let rest = trim_end s in if is_blank (code c) && rest == "" then "" else c ∷ rest

unfoldable pub trim : String → String
unfolding trim_start trim_end
trim s = trim_end (trim_start s)

-- A text of characters that are no blanks
abbrev pub HasNoBlanks : String → Type 0
HasNoBlanks [] = Unit {0}
HasNoBlanks (c ∷ s) = (is_blank (code c) ≡ false) × HasNoBlanks s

trim_end-HasNoBlanks : (s : String) → HasNoBlanks s → trim_end s ≡ s
unfolding trim_end
trim_end-HasNoBlanks [] h = refl
trim_end-HasNoBlanks (c ∷ s) (p, h) = rw (trim_end-HasNoBlanks s h) (rw p refl)

pub trim-HasNoBlanks : (s : String) → HasNoBlanks s → trim s ≡ s
unfolding trim trim_start
trim-HasNoBlanks [] h = refl
trim-HasNoBlanks (c ∷ s) (p, h) = rw p (trim_end-HasNoBlanks (c ∷ s) (p, h))

pub is_blank-digit : (d : ℕ) → is_blank (code (digit d)) ≡ false
is_blank-digit zero = refl
is_blank-digit (suc zero) = refl
is_blank-digit (suc (suc zero)) = refl
is_blank-digit (suc (suc (suc zero))) = refl
is_blank-digit (suc (suc (suc (suc zero)))) = refl
is_blank-digit (suc (suc (suc (suc (suc zero))))) = refl
is_blank-digit (suc (suc (suc (suc (suc (suc zero)))))) = refl
is_blank-digit (suc (suc (suc (suc (suc (suc (suc zero))))))) = refl
is_blank-digit (suc (suc (suc (suc (suc (suc (suc (suc zero)))))))) = refl
is_blank-digit (suc (suc (suc (suc (suc (suc (suc (suc (suc d))))))))) = refl

to_text_from-HasNoBlanks : (f n : ℕ) (s : String) → HasNoBlanks s → HasNoBlanks (to_text_from f n s)
unfolding to_text_from
to_text_from-HasNoBlanks zero n s h = h
to_text_from-HasNoBlanks (suc f) n s h =
    let more : HasNoBlanks (digit (n % 10) ∷ s) = (is_blank-digit (n % 10), h) in
    if_elim HasNoBlanks (n / 10 == 0) (λ _. more)
      (λ _. to_text_from-HasNoBlanks f (n / 10) (digit (n % 10) ∷ s) more)

pub to_text-HasNoBlanks : (n : ℕ) → HasNoBlanks (to_text n)
unfolding to_text
to_text-HasNoBlanks n = to_text_from-HasNoBlanks (suc n) n "" tt

-- A text is truthy if it is not empty.
abbrev pub truthy : String → Bool
truthy s = not (s == "")

abbrev pub truthy? : Option String → Bool
truthy? none = false
truthy? (some s) = truthy s

-- A template literal: its pieces, one after another.
abbrev pub template : List String → String
template List.[] = ""
template (List.◌∷◌ s ss) = s ++ template ss

pub truthy-cons : (c : Char) (s : String) → truthy (c ∷ s) ≡ true
truthy-cons c s = rw (compare.cons-nil c s) refl

truthy-to_text_from : (f n : ℕ) (c : Char) (s : String) → truthy (to_text_from f n (c ∷ s)) ≡ true
unfolding to_text_from
truthy-to_text_from zero n c s = truthy-cons c s
truthy-to_text_from (suc f) n c s =
    if_elim (λ t. truthy t ≡ true) (n / 10 == 0) (λ _. truthy-cons _ _)
      (λ _. truthy-to_text_from f (n / 10) (digit (n % 10)) (c ∷ s))

-- The text of a number is not empty.
pub truthy-to_text : (n : ℕ) → truthy (to_text n) ≡ true
unfolding to_text to_text_from
truthy-to_text n =
    if_elim (λ t. truthy t ≡ true) (n / 10 == 0) (λ _. truthy-cons _ _)
      (λ _. truthy-to_text_from n (n / 10) (digit (n % 10)) "")

-- `text.startsWith(prefix)`
unfoldable pub starts_with : (prefix text : String) → Bool
starts_with [] text = true
starts_with (c ∷ prefix) [] = false
starts_with (c ∷ prefix) (d ∷ text) = let rest = starts_with prefix text in code c == code d && rest

-- `text.includes(part)`
unfoldable pub includes : (part text : String) → Bool
unfolding starts_with
includes part [] = part == ""
includes part (c ∷ text) = let rest = includes part text in starts_with part (c ∷ text) || rest

-- `text.slice(0, n)`
unfoldable pub slice_to : ℕ → String → String
slice_to zero s = ""
slice_to (suc n) [] = ""
slice_to (suc n) (c ∷ s) = c ∷ slice_to n s

-- `c.repeat(n)`
unfoldable pub repeat : ℕ → Char → String
repeat zero c = ""
repeat (suc n) c = c ∷ repeat n c

-- `text.padStart(n, c)`
unfoldable pub pad_start : ℕ → Char → String → String
pad_start n c s = repeat (n - count s) c ++ s

-- `text.padEnd(n, c)`
unfoldable pub pad_end : ℕ → Char → String → String
pad_end n c s = s ++ repeat (n - count s) c
