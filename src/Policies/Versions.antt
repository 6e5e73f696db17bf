-- ===== src/Policies/Versions.antt =====
-- `incrementVersion` of internal/queries/policy_queries.go, over strconv.Atoi and the printing of an
-- int of 64 bits.
use Prim.Native.String
use Prim.Native.Char.{Char, code}
use Prim.Native.Nat.{ℕ, zero, suc, ◌/◌, ◌%◌}
use monkeys_identity.Base.{
  ◌+◌, ◌-◌, ◌*◌, Bool, true, false, not, ◌&&◌, String, List, [], ◌∷◌, Option, none, some, str_eq,
  leb, ltb, ◌==◌, if◌then◌else◌, ◌≡◌, refl, ap, arith, ◌<◌, Bool-cases, inl, inr,
}
use monkeys_identity.Middleware.Auth.{split}

-- An int by its sign and its magnitude; zero is not negative.
pub record Int64 : Type 0 where
  pub negative : Bool
  pub magnitude : ℕ

abbrev digit_of : Char → Option ℕ
digit_of c = if leb 48 (code c) && leb (code c) 57 then some (code c - 48) else none

abbrev and_digit : ℕ → Option ℕ → Option ℕ
and_digit n none = none
and_digit n (some d) = some (n * 10 + d)

-- the digits of a text after those that were read; `none` on anything else
digits : Option ℕ → String → Option ℕ
digits acc String.[] = acc
digits none (String.◌∷◌ c s) = none
digits (some n) (String.◌∷◌ c s) = digits (and_digit n (digit_of c)) s

abbrev in_range : Bool → Option ℕ → Option Int64
in_range negative none = none
in_range negative (some n) =
    if leb n (if negative then 9223372036854775808 else 9223372036854775807)
    then some (record { negative = negative && not (n == 0); magnitude = n })
    else none

abbrev unsigned : Bool → String → Option Int64
unsigned negative s = if str_eq s "" then none else in_range negative (digits (some 0) s)

-- strconv.Atoi: an optional sign and decimal digits, in the range of 64 bits.
unfoldable pub atoi : String → Option Int64
unfolding digits
atoi String.[] = none
atoi (String.◌∷◌ c s) =
    if code c == b'-'
    then unsigned true s
    else if code c == b'+'
    then unsigned false s
    else unsigned false (String.◌∷◌ c s)

-- patch++, which wraps around at the largest int
unfoldable pub increment : Int64 → Int64
increment i =
    if i.negative
    then record { negative = not (i.magnitude == 1); magnitude = i.magnitude - 1 }
    else if i.magnitude == 9223372036854775807
    then record { negative = true; magnitude = 9223372036854775808 }
    else record { negative = false; magnitude = i.magnitude + 1 }

abbrev digit_text : ℕ → String
digit_text d = String.slice "0123456789" d (d + 1)

-- The decimal digits of a number, at most as many as the fuel says; twenty are enough for 64 bits.
print_digits : (fuel : ℕ) → ℕ → String
print_digits zero n = ""
print_digits (suc fuel) n =
    let before = print_digits fuel (n / 10) in
    if ltb n 10 then digit_text n else String.◌++◌ before (digit_text (n % 10))

unfoldable pub print_int : Int64 → String
unfolding print_digits
print_int i = String.◌++◌ (if i.negative then "-" else "") (print_digits 20 i.magnitude)

abbrev or_int : ℕ → Option Int64 → Int64
or_int n none = record { negative = false; magnitude = n }
or_int n (some i) = i

abbrev incremented : List String → String
incremented (major ∷ minor ∷ patch ∷ []) = String.◌++◌ (print_int (or_int 1 (atoi major))) (
    String.◌++◌ "." (
      String.◌++◌ (print_int (or_int 0 (atoi minor)))
        (String.◌++◌ "." (print_int (increment (or_int 0 (atoi patch)))))))
incremented _ = "1.0.1"

unfoldable pub increment_version : String → String
unfolding atoi increment print_int split
increment_version current_version = incremented (split b'.' current_version)

abbrev power_of_ten : ℕ → ℕ
power_of_ten zero = 1
power_of_ten (suc k) = let p = power_of_ten k in 10 * p

-- One more unit of fuel prints the same, where the fuel counts the digits of the number.
print_more :
    (fuel n : ℕ)
    → n < power_of_ten (suc fuel)
    → print_digits (suc (suc fuel)) n ≡ print_digits (suc fuel) n
unfolding print_digits
print_more zero n h = let small : ltb n 10 ≡ true = ground arith in rw small refl
print_more (suc fuel) n h = elim (Bool-cases (ltb n 10)) [
  | inl small ↦ rw small refl
  | inr large ↦
      rw large
        (ap (λ t. String.◌++◌ t (digit_text (n % 10))) (print_more fuel (n / 10) (ground arith)))
]

-- No number of 64 bits has more digits than `print_int` has fuel for.
print_int_enough : (n : ℕ) → n < 18446744073709551616 → print_digits 21 n ≡ print_digits 20 n
print_int_enough n h = print_more 19 n (ground arith)

version_tests :
    (increment_version "1.0.9" ≡ "1.0.10")
    × (increment_version "2.x.-1" ≡ "2.0.0")
    × (increment_version "1.0" ≡ "1.0.1")
unfolding increment_version
version_tests = (refl, refl, refl)
