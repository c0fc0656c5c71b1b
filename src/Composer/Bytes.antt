-- ===== src/Composer/Bytes.antt =====
-- UTF-8 and the calls of `str` and `String` that the composer makes. An offset that is not on a
-- character boundary, or out of range, panics: `none`.
use sshoosh.Base.{
  ℕ, ◌+◌, ◌-◌, ◌/◌, ◌%◌, Bool, ◌||◌, Option, none, some, List, [], ◌∷◌, ◌++◌, ◌==◌, ltb,
  if◌then◌else◌,
}
use sshoosh.Text.{Text}

-- `char::encode_utf8`
unfoldable pub encode : ℕ → List ℕ
encode c =
    if ltb c 128
    then c ∷ []
    else if ltb c 2048
    then (192 + c / 64) ∷ (128 + c % 64) ∷ []
    else if ltb c 65536
    then (224 + c / 4096) ∷ (128 + c / 64 % 64) ∷ (128 + c % 64) ∷ []
    else (240 + c / 262144) ∷ (128 + c / 4096 % 64) ∷ (128 + c / 64 % 64) ∷ (128 + c % 64) ∷ []

-- `char::len_utf8`
unfoldable pub len_utf8 : ℕ → ℕ
len_utf8 c = if ltb c 128 then 1 else if ltb c 2048 then 2 else if ltb c 65536 then 3 else 4

-- `str::len`
unfoldable pub byte_len : Text → ℕ
unfolding len_utf8
byte_len [] = 0
byte_len (c ∷ cs) = byte_len cs + len_utf8 c

-- `str::as_bytes`
unfoldable pub as_bytes : Text → List ℕ
unfolding encode
as_bytes [] = []
as_bytes (c ∷ cs) = encode c ++ as_bytes cs

-- `bytes[n]`
unfoldable pub get_byte : ℕ → List ℕ → Option ℕ
get_byte n [] = none
get_byte n (b ∷ bs) = let rest = get_byte (n - 1) bs in if n == 0 then some b else rest

-- `&s[..n]` and `&s[n..]`
abbrev pub with_first : ℕ → Option (Text × Text) → Option (Text × Text)
with_first c none = none
with_first c (some (before, after)) = some (c ∷ before, after)

unfoldable pub split_at : ℕ → Text → Option (Text × Text)
unfolding len_utf8
split_at n [] = if n == 0 then some ([], []) else none
split_at n (c ∷ cs) =
    let rest = split_at (n - len_utf8 c) cs in
    if n == 0 then some ([], c ∷ cs) else if ltb n (len_utf8 c) then none else with_first c rest

-- The offsets of `str::char_indices`, from the offset of the first.
unfoldable pub char_indices : ℕ → Text → List ℕ
unfolding len_utf8
char_indices offset [] = []
char_indices offset (c ∷ cs) = offset ∷ char_indices (offset + len_utf8 c) cs

-- `last().unwrap_or(default)`
unfoldable pub last_or : ℕ → List ℕ → ℕ
last_or default [] = default
last_or default (n ∷ ns) = last_or n ns

-- `nth(1).map(|n| start + n).unwrap_or(default)`
unfoldable pub second_or : ℕ → ℕ → List ℕ → ℕ
second_or default start [] = default
second_or default start (n ∷ []) = default
second_or default start (n ∷ m ∷ ns) = start + m

-- `u8::is_ascii_whitespace`
unfoldable pub is_ascii_whitespace : ℕ → Bool
is_ascii_whitespace b = b == 9 || b == 10 || b == 12 || b == 13 || b == 32
