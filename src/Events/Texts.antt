-- ===== src/Events/Texts.antt =====
-- What the module uses of Go's `strings`, `strconv` and `encoding/hex`, on texts as UTF-8 bytes.
use mathlib.Core.List.{reverse}
use independency_daemon.Base.{
  ℕ, zero, suc, ◌+◌, ◌/◌, ◌%◌, Bool, ◌&&◌, ◌||◌, List, [], ◌∷◌, ◌++◌, Bytes, ltb, leb, ◌==◌,
  if◌then◌else◌,
}

-- `unicode.IsSpace` on the one-byte characters, and on the two and three bytes of the others.
abbrev pub is_space : ℕ → Bool
is_space b = (leb 9 b && leb b 13) || (b == 32)

abbrev pub is_space2 : ℕ → ℕ → Bool
is_space2 a b = (a == 194) && ((b == 133) || (b == 160))

abbrev pub is_space3 : ℕ → ℕ → ℕ → Bool
is_space3 a b c =
    ((a == 225) && ((b == 154) && (c == 128)))
    || ((a == 226)
        && ((b == 128) && ((leb 128 c && leb c 138) || ((c == 168) || ((c == 169) || (c == 175))))))
    || ((a == 226) && ((b == 129) && (c == 159)))
    || ((a == 227) && ((b == 128) && (c == 128)))

unfoldable pub trim_left : Bytes → Bytes
trim_left [] = []
trim_left (a ∷ []) = if is_space a then [] else a ∷ []
trim_left (a ∷ (b ∷ [])) =
    let rest = trim_left (b ∷ []) in
    if is_space a then rest else (if is_space2 a b then [] else a ∷ b ∷ [])
trim_left (a ∷ (b ∷ (c ∷ text))) =
    let rest1 = trim_left (b ∷ (c ∷ text)) in
    let rest2 = trim_left (c ∷ text) in
    let rest3 = trim_left text in
    if is_space a
    then rest1
    else (if is_space2 a b
        then rest2
        else (if is_space3 a b c then rest3 else a ∷ (b ∷ (c ∷ text))))

-- The same from the end, on the reversed text.
unfoldable pub trim_right_reversed : Bytes → Bytes
trim_right_reversed [] = []
trim_right_reversed (a ∷ []) = if is_space a then [] else a ∷ []
trim_right_reversed (a ∷ (b ∷ [])) =
    let rest = trim_right_reversed (b ∷ []) in
    if is_space a then rest else (if is_space2 b a then [] else a ∷ b ∷ [])
trim_right_reversed (a ∷ (b ∷ (c ∷ text))) =
    let rest1 = trim_right_reversed (b ∷ (c ∷ text)) in
    let rest2 = trim_right_reversed (c ∷ text) in
    let rest3 = trim_right_reversed text in
    if is_space a
    then rest1
    else (if is_space2 b a
        then rest2
        else (if is_space3 c b a then rest3 else a ∷ (b ∷ (c ∷ text))))

-- `strings.TrimSpace`
unfoldable pub trim_space : Bytes → Bytes
unfolding trim_left trim_right_reversed
trim_space text = reverse (trim_right_reversed (reverse (trim_left text)))

-- `strings.Split(text, ",")`, from the piece read so far.
unfoldable pub split_from : Bytes → Bytes → List Bytes
split_from piece [] = piece ∷ []
split_from piece (b ∷ text) =
    let next = split_from [] text in
    let longer = split_from (piece ++ (b ∷ [])) text in if b == 44 then piece ∷ next else longer

-- `strings.Join(texts, ",")`
unfoldable pub join_comma : List Bytes → Bytes
join_comma [] = []
join_comma (t ∷ []) = t
join_comma (t ∷ (u ∷ texts)) = t ++ (44 ∷ join_comma (u ∷ texts))

-- `strconv.FormatUint(n, 10)`: 20 digits are enough for 64 bits.
unfoldable pub digits : ℕ → ℕ → Bytes → Bytes
digits zero n text = text
digits (suc more) n text =
    let last = 48 + n % 10 in
    let rest = digits more (n / 10) (last ∷ text) in if ltb n 10 then last ∷ text else rest

abbrev pub format_uint : ℕ → Bytes
format_uint n = digits 20 n []

abbrev pub hex_digit : ℕ → ℕ
hex_digit d = if ltb d 10 then 48 + d else 87 + d

-- `hex.EncodeToString`
unfoldable pub hex : Bytes → Bytes
hex [] = []
hex (b ∷ bytes) = hex_digit (b / 16) ∷ (hex_digit (b % 16) ∷ hex bytes)
