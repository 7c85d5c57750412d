-- ===== src/Base/Url.antt =====
-- The platform's URL encodings: UTF-8, percent encoding, the form serializer behind
-- `URLSearchParams.toString`, its parser, and `encodeURIComponent`.
pub mod Laws
use scholarmatch_ai.Base.Tests.{◌==◌, ltb, leb, if◌then◌else◌}
use scholarmatch_ai.Base.Text.{Text, is_ascii, text_eq}
use Prim.Native.Nat.{ℕ, ◌+◌, ◌-◌, ◌*◌, ◌/◌, ◌%◌}
use mathlib.Core.Bool.{Bool, true, false, ◌&&◌, ◌||◌}
use mathlib.Core.Option.{Option, none, some}
use mathlib.Core.List.{List, [], ◌∷◌, ◌++◌, map}

unfoldable pub is_high_surrogate : ℕ → Bool
is_high_surrogate c = leb 0xd800 c && leb c 0xdbff

unfoldable pub is_low_surrogate : ℕ → Bool
is_low_surrogate c = leb 0xdc00 c && leb c 0xdfff

-- The UTF-8 bytes of U+FFFD, which a lone surrogate is replaced by.
abbrev replacement : List ℕ
replacement = 0xef ∷ 0xbf ∷ 0xbd ∷ []

unfoldable pub pair_bytes : ℕ → ℕ → List ℕ
pair_bytes h l =
    let c = 0x10000 + (h - 0xd800) * 0x400 + (l - 0xdc00) in
    (0xf0 + c / 0x40000)
    ∷ (0x80 + c / 0x1000 % 0x40)
    ∷ (0x80 + c / 0x40 % 0x40)
    ∷ (0x80 + c % 0x40)
    ∷ []

-- The bytes of a unit that does not follow a high surrogate; a high one waits for the next unit.
unfoldable pub unit_bytes : ℕ → List ℕ
unfolding is_high_surrogate is_low_surrogate
unit_bytes c =
    if ltb c 0x80
    then c ∷ []
    else if ltb c 0x800
    then (0xc0 + c / 0x40) ∷ (0x80 + c % 0x40) ∷ []
    else if is_high_surrogate c
    then []
    else if is_low_surrogate c
    then replacement
    else (0xe0 + c / 0x1000) ∷ (0x80 + c / 0x40 % 0x40) ∷ (0x80 + c % 0x40) ∷ []

abbrev after_high : ℕ → ℕ → List ℕ
after_high h c = if is_low_surrogate c then pair_bytes h c else replacement ++ unit_bytes c

-- UTF-8 encoding of UTF-16 units; the option is a high surrogate that waits for its partner.
unfoldable pub utf8_from : Option ℕ → Text → List ℕ
unfolding pair_bytes unit_bytes is_high_surrogate is_low_surrogate
utf8_from none [] = []
utf8_from (some h) [] = replacement
utf8_from none (c ∷ s) = unit_bytes c ++ utf8_from (if is_high_surrogate c then some c else none) s
utf8_from (some h) (c ∷ s) =
    after_high h c ++ utf8_from (if is_high_surrogate c then some c else none) s

unfoldable pub utf8 : Text → List ℕ
unfolding utf8_from
utf8 s = utf8_from none s

-- UTF-8 decoding: exact on ASCII bytes; `other` decodes all else.
abbrev pub utf8_decode : (List ℕ → Text) → List ℕ → Text
utf8_decode other bs = if is_ascii bs then bs else other bs

unfoldable pub hex_digit : ℕ → ℕ
hex_digit n = if ltb n 10 then n + 48 else n + 55

unfoldable pub percent : ℕ → Text
unfolding hex_digit
percent b = b'%' ∷ hex_digit (b / 16) ∷ hex_digit (b % 16) ∷ []

abbrev pub is_alphanumeric : ℕ → Bool
is_alphanumeric b = leb b'a' b && leb b b'z' || leb b'A' b && leb b b'Z' || leb b'0' b && leb b b'9'

-- The bytes that the form serializer leaves alone: letters, digits and `*-._`.
unfoldable pub is_form_safe : ℕ → Bool
is_form_safe b = is_alphanumeric b || b == b'*' || b == b'-' || b == b'.' || b == b'_'

unfoldable pub form_byte : ℕ → Text
unfolding is_form_safe percent
form_byte b = if b == 32 then b'+' ∷ [] else if is_form_safe b then b ∷ [] else percent b

abbrev pub encode_bytes : (ℕ → Text) → List ℕ → Text
encode_bytes enc [] = []
encode_bytes enc (b ∷ bs) = enc b ++ encode_bytes enc bs

unfoldable pub form_encode : Text → Text
unfolding form_byte utf8
form_encode s = encode_bytes form_byte (utf8 s)

-- `URLSearchParams.toString` on the pairs in order.
unfoldable pub form_serialize : List (Text × Text) → Text
unfolding form_encode
form_serialize [] = []
form_serialize ((k, v) ∷ []) = form_encode k ++ (b'=' ∷ form_encode v)
form_serialize ((k, v) ∷ (p ∷ ps)) =
    form_encode k ++ (b'=' ∷ (form_encode v ++ (b'&' ∷ form_serialize (p ∷ ps))))

-- The bytes that `encodeURIComponent` leaves alone: letters, digits and `-_.!~*'()`.
unfoldable pub is_component_safe : ℕ → Bool
is_component_safe b =
    is_alphanumeric b
    || b == b'-'
    || b == b'_'
    || b == b'.'
    || b == b'!'
    || b == b'~'
    || b == b'*'
    || b == b'\''
    || b == b'('
    || b == b')'

unfoldable pub component_byte : ℕ → Text
unfolding is_component_safe percent
component_byte b = if is_component_safe b then b ∷ [] else percent b

-- Every surrogate stands in a pair; `encodeURIComponent` throws on any other text.
unfoldable pub well_formed_from : Bool → Text → Bool
unfolding is_high_surrogate is_low_surrogate
well_formed_from false [] = true
well_formed_from true [] = false
well_formed_from false (c ∷ s) =
    (if is_low_surrogate c then false else true) && well_formed_from (is_high_surrogate c) s
well_formed_from true (c ∷ s) = is_low_surrogate c && well_formed_from false s

unfoldable pub encode_uri_component : Text → Option Text
unfolding well_formed_from component_byte utf8
encode_uri_component s =
    if well_formed_from false s then some (encode_bytes component_byte (utf8 s)) else none

unfoldable pub hex_value : ℕ → Option ℕ
hex_value d =
    if leb b'0' d && leb d b'9'
    then some (d - 48)
    else if leb b'A' d && leb d b'F'
    then some (d - 55)
    else if leb b'a' d && leb d b'f'
    then some (d - 87)
    else none

abbrev from_plus : ℕ → ℕ
from_plus c = if c == b'+' then 32 else c

-- The byte that the three units stand for, if they are an escape.
unfoldable pub escape : ℕ → ℕ → ℕ → Option ℕ
unfolding hex_value
escape c d e =
    if c == b'%'
    then (elim (hex_value d) [
      | none ↦ none
      | some h ↦ elim (hex_value e) [ none ↦ none | some l ↦ some (h * 16 + l) ]
    ])
    else none

unfoldable pub form_decode : Text → List ℕ
form_decode [] = []
form_decode (c ∷ []) = from_plus c ∷ []
form_decode (c ∷ d ∷ []) = from_plus c ∷ form_decode (d ∷ [])
form_decode (c ∷ d ∷ e ∷ s) = elim (escape c d e) [
  | some b ↦ b ∷ form_decode s
  | none ↦ from_plus c ∷ form_decode (d ∷ e ∷ s)
]

abbrev cons_first : ℕ → List Text → List Text
cons_first c [] = (c ∷ []) ∷ []
cons_first c (s ∷ ss) = (c ∷ s) ∷ ss

unfoldable pub split_on : ℕ → Text → List Text
split_on d [] = [] ∷ []
split_on d (c ∷ s) = let rest = split_on d s in if c == d then [] ∷ rest else cons_first c rest

-- Everything before the first `d`, and everything after it.
unfoldable pub split_first : ℕ → Text → Text × Text
split_first d [] = ([], [])
split_first d (c ∷ s) =
    let rest = split_first d s in if c == d then ([], s) else (c ∷ rest.0, rest.1)

-- `URLSearchParams.get` on the pieces of a query.
unfoldable pub find_param : (List ℕ → Text) → Text → List Text → Option Text
find_param other key [] = none
find_param other key (piece ∷ pieces) =
    let (k, v) = split_first b'=' piece in
    if text_eq (utf8_decode other (form_decode k)) key
    then some (utf8_decode other (form_decode v))
    else find_param other key pieces

-- `url.searchParams.get(key)`; `other` decodes bytes that are not ASCII.
unfoldable pub search_param : (List ℕ → Text) → Text → Text → Option Text
unfolding find_param split_on split_first form_decode escape text_eq
search_param other key url = find_param other key (split_on b'&' (split_first b'?' url).1)
