-- ===== src/Prelude/Decimal.antt =====
-- strconv.Itoa and strconv.Atoi.
use Prim.Native.Nat.{ℕ, zero, suc, ◌+◌, ◌-◌, ◌*◌, ◌/◌, ◌%◌, ◌^◌, ◌<◌}
use Prim.Native.Char.{Char, code}
use Prim.Native.String.{String}
use mathlib.Core.Path.{◌≡◌, refl, ap, sym, ◌∙◌}
use mathlib.Core.Bool.{false, ◌&&◌}
use mathlib.Core.Option.{Option, none, some, some-injective}
use mathlib.Core.Logic.{dite, dif_pos, dif_neg}
use mathlib.Core.WellFounded.{Acc}
use native.Mathlib.Bridge.{le_prop}
use native.Mathlib.Omega.{arith}
use native.Mathlib.Decide.{dec_lt}
use mpi_operator.Prelude.Tests.{ltb, leb, nat_eq, if◌then◌else◌, ◌⧺◌}
use mpi_operator.Prelude.Int.{ℤ, pos, negsuc}

digit : ℕ → Char
digit zero = "0"
digit (suc zero) = "1"
digit (suc (suc zero)) = "2"
digit (suc (suc (suc zero))) = "3"
digit (suc (suc (suc (suc zero)))) = "4"
digit (suc (suc (suc (suc (suc zero))))) = "5"
digit (suc (suc (suc (suc (suc (suc zero)))))) = "6"
digit (suc (suc (suc (suc (suc (suc (suc zero))))))) = "7"
digit (suc (suc (suc (suc (suc (suc (suc (suc zero)))))))) = "8"
digit (suc (suc (suc (suc (suc (suc (suc (suc (suc _))))))))) = "9"

below : (k n : ℕ) → n < k → Acc ◌<◌ n
below zero n h = elim h [ ]
below (suc k) n h = Acc.intro n (λ m less. below k m (omega arith))

tenth_lt : {n : ℕ} → 9 < n → n / 10 < n
tenth_lt h = omega arith

-- The digits of `n` in front of `out`, the last one first.
emit : (n : ℕ) → Acc ◌<◌ n → String → String
unfolding digit
emit n (Acc.intro _ smaller) out =
    let out' = String.◌∷◌ (digit (n % 10)) out in
    dite (dec_lt 9 n) (λ h. emit (n / 10) (smaller (n / 10) (tenth_lt h)) out') (λ _. out')

accessible : (n : ℕ) → Acc ◌<◌ n
unfolding below
accessible n = below (suc n) n (omega arith)

pub decimal : ℕ → String
unfolding emit accessible dec_lt tenth_lt
decimal n = emit n (accessible n) ""

-- strconv.Itoa, and the verb %d of fmt.Sprintf
unfoldable pub itoa : ℤ → String
unfolding decimal
itoa (pos n) = decimal n
itoa (negsuc n) = "-" ⧺ decimal (suc n)

itoa_runs : (itoa (pos 3070) ≡ "3070") × (itoa (negsuc 9) ≡ "-10")
unfolding itoa
itoa_runs = (refl, refl)

-- The value of a digit.
digit_value : Char → Option ℕ
digit_value c = if leb b'0' (code c) && leb (code c) b'9' then some (code c - b'0') else none

-- The number that the digits spell, behind `n`.
read : ℕ → String → Option ℕ
read n String.[] = some n
read n (String.◌∷◌ c s) = elim (digit_value c) [ none ↦ none | some d ↦ read (n * 10 + d) s ]

-- strconv.Atoi: an optional sign, then one or more digits, in the range of int64. none is an error.
in_int64 : ℤ → Option ℤ
in_int64 (pos n) = if ltb n (2 ^ 63) then some (pos n) else none
in_int64 (negsuc n) = if ltb n (2 ^ 63) then some (negsuc n) else none

negate : ℕ → ℤ
negate zero = pos zero
negate (suc n) = negsuc n

read_digits : String → Option ℕ
read_digits String.[] = none
read_digits (String.◌∷◌ c s) = read 0 (String.◌∷◌ c s)

pub atoi : String → Option ℤ
unfolding read_digits read digit_value in_int64 negate
atoi String.[] = none
atoi (String.◌∷◌ c s) =
    if nat_eq (code c) b'-'
    then elim (read_digits s) [ none ↦ none | some n ↦ in_int64 (negate n) ]
    else if nat_eq (code c) b'+'
    then elim (read_digits s) [ none ↦ none | some n ↦ in_int64 (pos n) ]
    else elim (read_digits (String.◌∷◌ c s)) [ none ↦ none | some n ↦ in_int64 (pos n) ]

atoi_runs :
    (atoi "012" ≡ some (pos 12))
    × (atoi "-7" ≡ some (negsuc 6))
    × (atoi "" ≡ none)
    × (atoi "1x" ≡ none)
unfolding atoi
atoi_runs = (refl, refl, refl, refl)

digit_value-digit : (d : ℕ) → d < 10 → digit_value (digit d) ≡ some d
unfolding digit_value digit
digit_value-digit zero h = refl
digit_value-digit (suc zero) h = refl
digit_value-digit (suc (suc zero)) h = refl
digit_value-digit (suc (suc (suc zero))) h = refl
digit_value-digit (suc (suc (suc (suc zero)))) h = refl
digit_value-digit (suc (suc (suc (suc (suc zero))))) h = refl
digit_value-digit (suc (suc (suc (suc (suc (suc zero)))))) h = refl
digit_value-digit (suc (suc (suc (suc (suc (suc (suc zero))))))) h = refl
digit_value-digit (suc (suc (suc (suc (suc (suc (suc (suc zero)))))))) h = refl
digit_value-digit (suc (suc (suc (suc (suc (suc (suc (suc (suc zero))))))))) h = refl
digit_value-digit (suc (suc (suc (suc (suc (suc (suc (suc (suc (suc n)))))))))) h =
    absurd (omega arith)

read-digit : (n d : ℕ) (s : String) → d < 10 → read n (String.◌∷◌ (digit d) s) ≡ read (n * 10 + d) s
unfolding read
read-digit n d s h = rw (digit_value-digit d h, read)

read-emit : (k n : ℕ) (w : Acc ◌<◌ n) (out : String) → n < k → read 0 (emit n w out) ≡ read n out
unfolding emit
read-emit zero n w out h = absurd (omega arith)
read-emit (suc k) n (Acc.intro _ smaller) out h = elim (dec_lt 9 n) [
  | yes p ↦ rw (dif_pos _ le_prop p) (
      read-emit k (n / 10) (smaller (n / 10) (tenth_lt p)) (String.◌∷◌ (digit (n % 10)) out)
        (omega arith)
      ∙ read-digit (n / 10) (n % 10) out (omega arith)
      ∙ ap (λ x. read x out) (omega arith))
  | no p ↦
      rw (dif_neg _ p)
        (read-digit 0 (n % 10) out (omega arith) ∙ ap (λ x. read x out) (omega arith))
]

read-decimal : (n : ℕ) → read 0 (decimal n) ≡ some n
unfolding decimal read
read-decimal n = read-emit (suc n) n (accessible n) "" (omega arith)

-- Two numbers with one print are equal.
decimal-injective : (n m : ℕ) → decimal n ≡ decimal m → n ≡ m
decimal-injective n m h = some-injective n m (sym (read-decimal n) ∙ ap (read 0) h ∙ read-decimal m)

emit_head :
    (k n : ℕ) (w : Acc ◌<◌ n) (out : String)
    → n < k
    → (d : ℕ) × (s : String) × (d < 10) × (emit n w out ≡ String.◌∷◌ (digit d) s)
unfolding emit
emit_head zero n w out h = absurd (omega arith)
emit_head (suc k) n (Acc.intro _ smaller) out h = elim (dec_lt 9 n) [
  | yes p ↦ rw (dif_pos _ le_prop p) (
      emit_head k (n / 10) (smaller (n / 10) (tenth_lt p)) (String.◌∷◌ (digit (n % 10)) out)
        (omega arith))
  | no p ↦ (n % 10, out, omega arith, rw (dif_neg _ p))
]

-- A digit is no sign.
digit_is_no_sign :
    (d : ℕ) → (nat_eq (code (digit d)) b'-' ≡ false) × (nat_eq (code (digit d)) b'+' ≡ false)
unfolding digit
digit_is_no_sign zero = (refl, refl)
digit_is_no_sign (suc zero) = (refl, refl)
digit_is_no_sign (suc (suc zero)) = (refl, refl)
digit_is_no_sign (suc (suc (suc zero))) = (refl, refl)
digit_is_no_sign (suc (suc (suc (suc zero)))) = (refl, refl)
digit_is_no_sign (suc (suc (suc (suc (suc zero))))) = (refl, refl)
digit_is_no_sign (suc (suc (suc (suc (suc (suc zero)))))) = (refl, refl)
digit_is_no_sign (suc (suc (suc (suc (suc (suc (suc zero))))))) = (refl, refl)
digit_is_no_sign (suc (suc (suc (suc (suc (suc (suc (suc zero)))))))) = (refl, refl)
digit_is_no_sign (suc (suc (suc (suc (suc (suc (suc (suc (suc n))))))))) = (refl, refl)

atoi-digits :
    (d n : ℕ) (s : String)
    → read 0 (String.◌∷◌ (digit d) s) ≡ some n
    → n < 2 ^ 63
    → atoi (String.◌∷◌ (digit d) s) ≡ some (pos n)
unfolding atoi
atoi-digits d n s h small =
    let (minus, plus) = digit_is_no_sign d in rw (minus, plus) (rw (h, read_digits) (ground arith))

-- Atoi reads back what Itoa prints.
pub atoi-itoa : (n : ℕ) → n < 2 ^ 63 → atoi (itoa (pos n)) ≡ some (pos n)
unfolding itoa
atoi-itoa n small =
    let (d, s, _, e) = emit_head (suc n) n (accessible n) "" (omega arith) in
    rw e (atoi-digits d n s (sym (ap (read 0) e) ∙ read-decimal n) small)

pub itoa-injective : (n m : ℕ) → itoa (pos n) ≡ itoa (pos m) → n ≡ m
unfolding itoa
itoa-injective n m h = decimal-injective n m h
