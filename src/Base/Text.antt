-- ===== src/Base/Text.antt =====
-- The text functions of the language that the source calls, on ASCII texts: `toLowerCase`, `trim`,
-- `split(",")`, the test `/^\d+$/`, `parseInt` on digits, and `parseFloat`.
-- A number with a fraction is held in billionths; digits further down are dropped.
use Prim.Native.Nat.{ℕ, zero, suc, ◌+◌, ◌-◌, ◌*◌, ◌/◌, ◌^◌}
use Prim.Native.Char.{code}
use Prim.Native.String
use Prim.Native.String.{String}
use mathlib.Core.Bool.{Bool, true, false, ◌&&◌, ◌||◌, not}
use mathlib.Core.List.{List, [], ◌∷◌, map}
use bobby_execute.Base.Tests.{leb, ◌==◌, if◌then◌else◌}

abbrev pub codes : String → List ℕ
codes String.[] = []
codes (String.◌∷◌ c s) = code c ∷ codes s

abbrev pub same_codes : List ℕ → List ℕ → Bool
same_codes [] [] = true
same_codes (a ∷ s) (b ∷ t) = a == b && same_codes s t
same_codes _ _ = false

abbrev pub is_upper : ℕ → Bool
is_upper c = leb b'A' c && leb c b'Z'

-- `toLowerCase`, as character codes
unfoldable pub lower : String → List ℕ
lower s = map (λ c. if is_upper c then c + 32 else c) (codes s)

-- `s.toLowerCase() === t`
unfoldable pub lower_is : String → String → Bool
unfolding lower
lower_is s t = same_codes (lower s) (codes t)

abbrev pub is_space : ℕ → Bool
is_space c = c == 32 || leb 9 c && leb c 13

abbrev pub is_empty : String → Bool
is_empty String.[] = true
is_empty (String.◌∷◌ c s) = false

unfoldable pub trim_start : String → String
trim_start String.[] = String.[]
trim_start (String.◌∷◌ c s) =
    let rest = trim_start s in if is_space (code c) then rest else String.◌∷◌ c s

unfoldable pub trim_end : String → String
trim_end String.[] = String.[]
trim_end (String.◌∷◌ c s) =
    let rest = trim_end s in
    if is_space (code c) && is_empty rest then String.[] else String.◌∷◌ c rest

unfoldable pub trim : String → String
unfolding trim_start trim_end
trim s = trim_end (trim_start s)

-- `s.split(",")`; the part that is being read stands first
unfoldable pub split_commas_from : String → String → List String
split_commas_from part String.[] = part ∷ []
split_commas_from part (String.◌∷◌ c s) =
    let closed = part ∷ split_commas_from "" s in
    let longer = split_commas_from (String.◌++◌ part (String.◌∷◌ c String.[])) s in
    if code c == b',' then closed else longer

unfoldable pub split_commas : String → List String
unfolding split_commas_from
split_commas s = split_commas_from "" s

abbrev pub is_digit : ℕ → Bool
is_digit c = leb b'0' c && leb c b'9'

abbrev all_digits : List ℕ → Bool
all_digits [] = true
all_digits (c ∷ s) = is_digit c && all_digits s

-- `/^\d+$/.test(s)`
unfoldable pub is_digits : String → Bool
is_digits s = not (is_empty s) && all_digits (codes s)

decimal_from : ℕ → List ℕ → ℕ
decimal_from n [] = n
decimal_from n (c ∷ s) = decimal_from (n * 10 + (c - b'0')) s

-- `Number.parseInt(s, 10)` where `s` is all digits
unfoldable pub parse_int : String → ℕ
unfolding decimal_from
parse_int s = decimal_from 0 (codes s)

-- What `parseFloat` returns. A negative number's size is of no use to the callers.
pub data Float : Type 0 where
  nan infinite negative : Float
  amount : ℕ → Float

abbrev pub units : ℕ → ℕ
units n = n * 1000000000

-- the digits in front: their value behind `n`, how many, and the rest
take_digits : ℕ → ℕ → List ℕ → ℕ × ℕ × List ℕ
take_digits n k [] = (n, k, [])
take_digits n k (c ∷ s) =
    let more = take_digits (n * 10 + (c - b'0')) (suc k) s in
    if is_digit c then more else (n, k, c ∷ s)

-- a power of ten, up or down
pub data Shift : Type 0 where
  up down : ℕ → Shift

shift_digits : (ℕ → Shift) → ℕ × ℕ × List ℕ → Shift
unfolding take_digits
shift_digits f (n, zero, s) = up 0
shift_digits f (n, suc k, s) = f n

shift_signed : List ℕ → Shift
unfolding shift_digits take_digits
shift_signed [] = up 0
shift_signed (c ∷ s) =
    if c == b'-'
    then shift_digits down (take_digits 0 0 s)
    else if c == b'+'
    then shift_digits up (take_digits 0 0 s)
    else shift_digits up (take_digits 0 0 (c ∷ s))

exponent : List ℕ → Shift
unfolding shift_signed
exponent [] = up 0
exponent (c ∷ s) = if c == b'e' || c == b'E' then shift_signed s else up 0

scale : ℕ → ℕ → Shift → ℕ
scale m k (up e) = units m * 10 ^ e / 10 ^ k
scale m k (down e) = units m / 10 ^ (k + e)

-- Beyond the largest double lies `Infinity`.
finite : ℕ → Float
finite v = if leb (units (2 ^ 1024)) v then infinite else amount v

-- `m` of the integer digits, `n` how many, and what follows the point
fraction : ℕ → ℕ → ℕ × ℕ × List ℕ → Float
unfolding exponent scale finite
fraction n zero (m, zero, s) = nan
fraction n (suc j) (m, k, s) = finite (scale m k (exponent s))
fraction n zero (m, suc k, s) = finite (scale m (suc k) (exponent s))

after_integer : ℕ × ℕ × List ℕ → Float
unfolding fraction take_digits
after_integer (n, j, []) = fraction n j (n, 0, [])
after_integer (n, j, c ∷ s) =
    if c == b'.' then fraction n j (take_digits n 0 s) else fraction n j (n, 0, c ∷ s)

abbrev pub starts_with_codes : List ℕ → List ℕ → Bool
starts_with_codes [] s = true
starts_with_codes (a ∷ t) [] = false
starts_with_codes (a ∷ t) (b ∷ s) = a == b && starts_with_codes t s

parse_unsigned : List ℕ → Float
unfolding after_integer take_digits
parse_unsigned s =
    if starts_with_codes (codes "Infinity") s then infinite else after_integer (take_digits 0 0 s)

negate : Float → Float
negate nan = nan
negate infinite = infinite
negate negative = negative
negate (amount zero) = amount 0
negate (amount (suc n)) = negative

parse_signed : List ℕ → Float
unfolding parse_unsigned negate
parse_signed [] = nan
parse_signed (c ∷ s) =
    if c == b'-'
    then negate (parse_unsigned s)
    else if c == b'+'
    then parse_unsigned s
    else parse_unsigned (c ∷ s)

-- `Number.parseFloat(s)`
unfoldable pub parse_float : String → Float
unfolding parse_signed trim_start
parse_float s = parse_signed (codes (trim_start s))
