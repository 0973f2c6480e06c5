-- ===== src/Text.antt =====
-- What the program uses of the C and C++ libraries on text, which is a list of character codes:
-- `strtok` and `>>`, `strcmp` for equality, `atoi`, `std::stoi` and `std::to_string` of an `int`.
pub mod Words
use scdtr.Prelude.{
  ℕ, zero, suc, ◌+◌, ◌-◌, ◌*◌, ◌/◌, ◌%◌, ◌^◌, ◌≤◌, ◌<◌, ◌≡◌, refl, Bool, true, false, not, ◌&&◌,
  ◌||◌, Option, none, some, List, [], ◌∷◌, ◌++◌, arith, ltb, leb, ◌==◌, if◌then◌else◌,
}
use scdtr.Prelude.Int.{ℤ, pos, negsuc, sub_ℕ}

-- `!strcmp(a, b)`, and `==` of `std::string`.
unfoldable pub same_text : List ℕ → List ℕ → Bool
same_text [] [] = true
same_text [] (c ∷ cs) = false
same_text (c ∷ cs) [] = false
same_text (c ∷ cs) (d ∷ ds) = (c == d) && same_text cs ds

-- `isspace`.
unfoldable pub is_space : ℕ → Bool
is_space c = c == b' ' || (leb 9 c && leb c 13)

unfoldable pub is_digit : ℕ → Bool
is_digit c = leb b'0' c && leb c b'9'

abbrev pub is_empty : List ℕ → Bool
is_empty [] = true
is_empty (c ∷ cs) = false

-- The words between delimiters; `word` is what has been read of the current one.
unfoldable pub words_from : (ℕ → Bool) → List ℕ → List ℕ → List (List ℕ)
words_from delimits word [] = if is_empty word then [] else word ∷ []
words_from delimits word (c ∷ cs) =
    let rest = words_from delimits (if delimits c then [] else word ++ (c ∷ [])) cs in
    if delimits c && not (is_empty word) then word ∷ rest else rest

unfoldable pub words : (ℕ → Bool) → List ℕ → List (List ℕ)
unfolding words_from
words delimits text = words_from delimits [] text

-- The characters of an array up to the first NUL.
unfoldable pub c_string : List ℕ → List ℕ
c_string [] = []
c_string (c ∷ cs) = let rest = c_string cs in if c == 0 then [] else c ∷ rest

pub skip_spaces : List ℕ → List ℕ
skip_spaces [] = []
skip_spaces (c ∷ cs) = if is_space c then skip_spaces cs else c ∷ cs

-- The value of the digits in front, on top of `acc`.
pub digits_value : ℕ → List ℕ → ℕ
digits_value acc [] = acc
digits_value acc (c ∷ cs) =
    let rest = digits_value (acc * 10 + (c - b'0')) cs in if is_digit c then rest else acc

abbrev signed_digits : Bool → List ℕ → Option ℤ
signed_digits minus [] = none
signed_digits minus (c ∷ cs) =
    if is_digit c
    then some (if minus then sub_ℕ 0 (digits_value 0 (c ∷ cs)) else pos (digits_value 0 (c ∷ cs)))
    else none

abbrev after_spaces : List ℕ → Option ℤ
after_spaces [] = none
after_spaces (c ∷ cs) =
    if c == b'-'
    then signed_digits true cs
    else if c == b'+'
    then signed_digits false cs
    else signed_digits false (c ∷ cs)

-- Spaces, a sign, and at least one digit; what follows is ignored.
unfoldable pub parse_int : List ℕ → Option ℤ
unfolding skip_spaces is_space is_digit digits_value
parse_int text = after_spaces (skip_spaces text)

-- No digit is 0.
unfoldable pub atoi : List ℕ → ℤ
unfolding parse_int
atoi text = elim (parse_int text) [ none ↦ pos 0 | some z ↦ z ]

abbrev pub int_max : ℕ
int_max = 2 ^ 31 - 1

abbrev fits_int : ℤ → Bool
fits_int (pos n) = leb n int_max
fits_int (negsuc n) = leb n int_max

-- `none` is an exception: no digit, or a value that no `int` holds.
unfoldable pub stoi : List ℕ → Option ℤ
unfolding parse_int
stoi text = elim (parse_int text) [ none ↦ none | some z ↦ if fits_int z then some z else none ]

-- Decimal digits; `fuel` bounds their number.
unfoldable pub digits_from : ℕ → ℕ → List ℕ → List ℕ
digits_from zero n out = out
digits_from (suc fuel) n out =
    let out' = (b'0' + n % 10) ∷ out in
    let rest = digits_from fuel (n / 10) out' in if ltb n 10 then out' else rest

-- A number below 2 ^ 64 has at most 20 digits.
unfoldable pub to_string : ℕ → List ℕ
unfolding digits_from
to_string n = digits_from 20 n []

unfoldable pub to_string_int : ℤ → List ℕ
unfolding to_string
to_string_int (pos n) = to_string n
to_string_int (negsuc n) = b'-' ∷ to_string (suc n)
