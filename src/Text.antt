-- ===== src/Text.antt =====
-- Text as its list of code points, and the methods of Rust's `str` and `char` that
-- src/features/shared/{name,label,utils}.rs use.
pub mod Sanitize
pub mod Name
pub mod Label
pub mod Mention
pub mod Fuel
pub mod Tags
pub mod Tests
use Prim.Native.Char.{code}
use Prim.Native.Nat.{digits}
use sshoosh.Base.{
  ℕ, zero, suc, ◌+◌, ◌-◌, ◌/◌, ◌%◌, String, Bool, true, false, ◌&&◌, ◌||◌, not, List, [], ◌∷◌, ◌++◌,
  ltb, leb, ◌==◌, if◌then◌else◌,
}

abbrev pub Text : Type 0
Text = List ℕ

-- A literal of the source as a text.
abbrev pub codes : String → Text
codes String.[] = []
codes (String.◌∷◌ c s) = code c ∷ codes s

abbrev pub length : Text → ℕ
length [] = 0
length (_ ∷ t) = suc (length t)

abbrev pub is_empty : Text → Bool
is_empty [] = true
is_empty (_ ∷ _) = false

unfoldable pub text_eq : Text → Text → Bool
text_eq [] [] = true
text_eq [] (_ ∷ _) = false
text_eq (_ ∷ _) [] = false
text_eq (a ∷ s) (b ∷ t) = a == b && text_eq s t

unfoldable pub is_ascii_lowercase : ℕ → Bool
is_ascii_lowercase c = leb b'a' c && leb c b'z'

unfoldable pub is_ascii_uppercase : ℕ → Bool
is_ascii_uppercase c = leb b'A' c && leb c b'Z'

unfoldable pub is_ascii_digit : ℕ → Bool
is_ascii_digit c = leb b'0' c && leb c b'9'

unfoldable pub is_ascii_alphabetic : ℕ → Bool
unfolding is_ascii_lowercase is_ascii_uppercase
is_ascii_alphabetic c = is_ascii_lowercase c || is_ascii_uppercase c

unfoldable pub is_ascii_alphanumeric : ℕ → Bool
unfolding is_ascii_alphabetic is_ascii_digit
is_ascii_alphanumeric c = is_ascii_alphabetic c || is_ascii_digit c

-- `char::is_control`: the category Cc.
unfoldable pub is_control : ℕ → Bool
is_control c = ltb c 32 || leb 127 c && leb c 159

-- `char::is_whitespace`: the property White_Space.
unfoldable pub is_whitespace : ℕ → Bool
is_whitespace c =
    leb 9 c && leb c 13
    || c == 32
    || c == 0x85
    || c == 0xa0
    || c == 0x1680
    || leb 0x2000 c && leb c 0x200a
    || c == 0x2028
    || c == 0x2029
    || c == 0x202f
    || c == 0x205f
    || c == 0x3000

unfoldable pub to_ascii_lowercase_char : ℕ → ℕ
unfolding is_ascii_uppercase
to_ascii_lowercase_char c = if is_ascii_uppercase c then c + 32 else c

unfoldable pub to_ascii_lowercase : Text → Text
unfolding to_ascii_lowercase_char
to_ascii_lowercase [] = []
to_ascii_lowercase (c ∷ t) = to_ascii_lowercase_char c ∷ to_ascii_lowercase t

-- `str::to_lowercase`; `unicode_lower` gives what a character beyond ASCII becomes.
unfoldable pub to_lowercase : (ℕ → Text) → Text → Text
unfolding to_ascii_lowercase_char
to_lowercase unicode_lower [] = []
to_lowercase unicode_lower (c ∷ t) =
    (if ltb c 128 then to_ascii_lowercase_char c ∷ [] else unicode_lower c)
    ++ to_lowercase unicode_lower t

-- `str::trim_start_matches` with a test of characters.
unfoldable pub trim_start_matches : (ℕ → Bool) → Text → Text
trim_start_matches p [] = []
trim_start_matches p (c ∷ t) = let rest = trim_start_matches p t in if p c then rest else c ∷ t

-- `str::trim_end_matches`: a character goes if it fits and all after it have gone.
unfoldable pub trim_end_matches : (ℕ → Bool) → Text → Text
trim_end_matches p [] = []
trim_end_matches p (c ∷ t) =
    let rest = trim_end_matches p t in if is_empty rest && p c then [] else c ∷ rest

unfoldable pub trim_matches : (ℕ → Bool) → Text → Text
unfolding trim_start_matches trim_end_matches
trim_matches p t = trim_end_matches p (trim_start_matches p t)

unfoldable pub trim : Text → Text
unfolding trim_matches is_whitespace
trim t = trim_matches is_whitespace t

unfoldable pub all_chars : (ℕ → Bool) → Text → Bool
all_chars p [] = true
all_chars p (c ∷ t) = p c && all_chars p t

unfoldable pub any_char : (ℕ → Bool) → Text → Bool
any_char p [] = false
any_char p (c ∷ t) = p c || any_char p t

-- `tags.iter().any(|existing| existing == &tag)`
unfoldable pub contains : Text → List Text → Bool
unfolding text_eq
contains t [] = false
contains t (x ∷ xs) = text_eq x t || contains t xs

-- The digits of a number, by fuel; a number has at most as many digits as its value plus one.
decimal_digits : ℕ → ℕ → Text → Text
decimal_digits zero n acc = acc
decimal_digits (suc f) n acc =
    let rest = decimal_digits f (n / 10) ((n % 10 + b'0') ∷ acc) in
    if ltb n 10 then (n + b'0') ∷ acc else rest

-- `format!("{n}")`
unfoldable pub decimal : ℕ → Text
unfolding decimal_digits
decimal n = decimal_digits (n + 1) n []
