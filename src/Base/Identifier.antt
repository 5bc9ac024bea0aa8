-- ===== src/Base/Identifier.antt =====
-- Identifiers as a part of a key: `trim`, `toLowerCase`, runs of other characters as one dash.
use Prim.Native.Nat.{ℕ, zero, suc, ◌-◌}
use Prim.Native.Char.{Char, code, nul}
use Prim.Native.String
use Prim.Native.String.{String}
use mathlib.Core.Bool.{Bool, false, ◌&&◌, ◌||◌}
use bobby_execute.Base.Tests.{leb, ◌==◌, if◌then◌else◌}
use bobby_execute.Base.Text.{trim, is_empty, is_upper, is_digit, codes, starts_with_codes}

char_at : ℕ → String → Char
char_at n String.[] = nul
char_at zero (String.◌∷◌ c s) = c
char_at (suc n) (String.◌∷◌ c s) = char_at n s

abbrev lower_char : Char → Char
unfolding char_at
lower_char c = if is_upper (code c) then char_at (code c - b'A') "abcdefghijklmnopqrstuvwxyz" else c

to_lower : String → String
unfolding char_at
to_lower String.[] = String.[]
to_lower (String.◌∷◌ c s) = String.◌∷◌ (lower_char c) (to_lower s)

abbrev is_plain : ℕ → Bool
is_plain c = is_digit c || leb b'a' c && leb c b'z'

abbrev is_dashed : String → Bool
is_dashed String.[] = false
is_dashed (String.◌∷◌ c s) = code c == b'-'

-- `.replace(/[^a-z0-9]+/g, "-")`
dashes : String → String
dashes String.[] = String.[]
dashes (String.◌∷◌ c s) =
    let rest = dashes s in
    if is_plain (code c)
    then String.◌∷◌ c rest
    else if is_dashed rest
    then rest
    else String.◌++◌ "-" rest

strip_start : String → String
strip_start String.[] = String.[]
strip_start (String.◌∷◌ c s) =
    let rest = strip_start s in if code c == b'-' then rest else String.◌∷◌ c s

strip_end : String → String
strip_end String.[] = String.[]
strip_end (String.◌∷◌ c s) =
    let rest = strip_end s in
    if code c == b'-' && is_empty rest then String.[] else String.◌∷◌ c rest

unfoldable pub normalize_identifier_part : String → String
unfolding trim to_lower dashes strip_start strip_end char_at
normalize_identifier_part s =
    let normalized = strip_end (strip_start (dashes (to_lower (trim s)))) in
    if is_empty normalized then "unknown" else normalized

-- `s.startsWith(prefix)`
unfoldable pub starts_with : String → String → Bool
starts_with s prefix = starts_with_codes (codes prefix) (codes s)
