-- ===== src/Base/Url/Laws.antt =====
-- Encoding followed by decoding, and the units that an encoding can hold.
use scholarmatch_ai.Base.Tests.{◌==◌, ltb, leb, if◌then◌else◌, Bool-cases}
use scholarmatch_ai.Base.Lists.{All, All-append}
use scholarmatch_ai.Base.Text.{Text, is_ascii}
use scholarmatch_ai.Base.Url.{
  utf8, utf8_from, unit_bytes, is_high_surrogate, form_byte, is_form_safe, encode_bytes,
  form_encode, form_serialize, form_decode, split_on, split_first, hex_value, hex_digit, escape,
  percent,
}
use Prim.Native.Nat.{ℕ, ◌<◌, ◌/◌, ◌%◌}
use mathlib.Core.Bool.{Bool, true, false, not, ◌||◌}
use mathlib.Core.Logic.{◌≢◌, inl, inr}
use mathlib.Core.Option.{none, some}
use mathlib.Core.List.{List, [], ◌∷◌, ◌++◌}
use mathlib.Core.Path.{◌≡◌, refl, ap, ◌∙◌}
use native.Mathlib.Omega.{arith}

unit_bytes_ascii : (c : ℕ) → leb c 127 ≡ true → unit_bytes c ≡ c ∷ []
unfolding unit_bytes
unit_bytes_ascii c h = rw (ltb_of_leb c h)
  where
    ltb_of_leb : (c : ℕ) → leb c 127 ≡ true → ltb c 128 ≡ true
    ltb_of_leb c h = ground arith

not_high : (c : ℕ) → leb c 127 ≡ true → is_high_surrogate c ≡ false
unfolding is_high_surrogate
not_high c h = ground arith

utf8_from_ascii : (s : Text) → is_ascii s ≡ true → utf8_from none s ≡ s
unfolding utf8_from
utf8_from_ascii [] h = refl
utf8_from_ascii (c ∷ s) h =
    let small : leb c 127 ≡ true = ground arith in
    rw (unit_bytes_ascii c small, not_high c small)
      (ap (λ r. c ∷ r) (utf8_from_ascii s (ground arith)))

pub utf8_ascii : (s : Text) → is_ascii s ≡ true → utf8 s ≡ s
unfolding utf8
utf8_ascii s h = utf8_from_ascii s h

escape-none : (c d e : ℕ) → c ≢ b'%' → escape c d e ≡ none
unfolding escape
escape-none c d e h = ground arith

form_decode-plain :
    (c : ℕ) (s : Text)
    → c ≢ b'%'
    → form_decode (c ∷ s) ≡ (if c == b'+' then 32 else c) ∷ form_decode s
unfolding form_decode
form_decode-plain c [] h = refl
form_decode-plain c (d ∷ []) h = refl
form_decode-plain c (d ∷ e ∷ s) h = rw (escape-none c d e h, form_decode)

hex_value-digit : (n : ℕ) → n < 16 → hex_value (hex_digit n) ≡ some n
unfolding hex_value hex_digit
hex_value-digit n h = ground arith

escape-percent : (b : ℕ) → b < 256 → escape b'%' (hex_digit (b / 16)) (hex_digit (b % 16)) ≡ some b
unfolding escape
escape-percent b h =
    rw (hex_value-digit (b / 16) (omega arith), hex_value-digit (b % 16) (omega arith))
      (ap some (omega arith))

form_decode-percent :
    (b : ℕ) (s : Text) → b < 256 → form_decode (percent b ++ s) ≡ b ∷ form_decode s
unfolding percent form_decode
form_decode-percent b s h = rw (escape-percent b h, form_decode)

is_form_safe_plain : (b : ℕ) → is_form_safe b ≡ true → (b ≢ b'%') × ((b == b'+') ≡ false)
unfolding is_form_safe
is_form_safe_plain b h = ground arith

form_decode-byte : (b : ℕ) (s : Text) → b < 256 → form_decode (form_byte b ++ s) ≡ b ∷ form_decode s
unfolding form_byte
form_decode-byte b s h = elim (Bool-cases (b == 32)) [
  | inl space ↦
      rw space (form_decode-plain b'+' s (omega arith) ∙ ap (λ c. c ∷ form_decode s) (ground arith))
  | inr other ↦ elim (Bool-cases (is_form_safe b)) [
    | inl safe ↦
        let (plain, no_plus) = is_form_safe_plain b safe in
        rw (other, safe) (form_decode-plain b s plain ∙ rw no_plus)
    | inr unsafe ↦ rw (other, unsafe) (form_decode-percent b s h)
  ]
]

pub form_decode-encode :
    (bs : List ℕ) → All (λ b. b < 256) bs → form_decode (encode_bytes form_byte bs) ≡ bs
unfolding form_decode
form_decode-encode [] h = refl
form_decode-encode (b ∷ bs) (p, h) =
    form_decode-byte b (encode_bytes form_byte bs) p ∙ ap (λ r. b ∷ r) (form_decode-encode bs h)

-- A unit of a form-encoded name or value never ends it, nor the query.
abbrev pub is_piece_unit : ℕ → Bool
is_piece_unit c = not (c == b'&' || c == b'=' || c == b'?' || c == b'#')

hex_digit_plain : (n : ℕ) → n < 16 → is_piece_unit (hex_digit n) ≡ true
unfolding hex_digit
hex_digit_plain n h = ground arith

form_byte_plain : (b : ℕ) → b < 256 → All (λ c. is_piece_unit c ≡ true) (form_byte b)
unfolding form_byte
form_byte_plain b h = ground (arith, hex_digit_plain (b / 16), hex_digit_plain (b % 16))

pub form_encode_plain :
    (bs : List ℕ)
    → All (λ b. b < 256) bs
    → All (λ c. is_piece_unit c ≡ true) (encode_bytes form_byte bs)
form_encode_plain [] h = tt
form_encode_plain (b ∷ bs) (p, h) =
    All-append _ (form_byte b) _ (form_byte_plain b p) (form_encode_plain bs h)

pub split_on-plain :
    (d : ℕ) (s rest : Text)
    → All (λ c. (c == d) ≡ false) s
    → split_on d (s ++ (d ∷ rest)) ≡ s ∷ split_on d rest
unfolding split_on
split_on-plain d [] rest h = ground arith
split_on-plain d (c ∷ s) rest (p, h) = rw (p, split_on-plain d s rest h)

pub split_on-last : (d : ℕ) (s : Text) → All (λ c. (c == d) ≡ false) s → split_on d s ≡ s ∷ []
unfolding split_on
split_on-last d [] h = refl
split_on-last d (c ∷ s) (p, h) = rw (p, split_on-last d s h)

pub split_first-plain :
    (d : ℕ) (s rest : Text)
    → All (λ c. (c == d) ≡ false) s
    → split_first d (s ++ (d ∷ rest)) ≡ (s, rest)
unfolding split_first
split_first-plain d [] rest h = ground arith
split_first-plain d (c ∷ s) rest (p, h) = rw (p, split_first-plain d s rest h)

-- A unit that no URL delimiter of a scheme or a control character has.
abbrev pub IsTame : ℕ → Type 0
IsTame c = (c ≢ b':') × (0x1f < c)

hex_digit-IsTame : (n : ℕ) → IsTame (hex_digit n)
unfolding hex_digit
hex_digit-IsTame n = ground arith

is_form_safe-IsTame : (b : ℕ) → is_form_safe b ≡ true → IsTame b
unfolding is_form_safe
is_form_safe-IsTame b h = ground arith

percent-IsTame : (b : ℕ) → All IsTame (percent b)
unfolding percent
percent-IsTame b = (omega arith, (hex_digit-IsTame (b / 16), (hex_digit-IsTame (b % 16), tt)))

form_byte-IsTame : (b : ℕ) → All IsTame (form_byte b)
unfolding form_byte
form_byte-IsTame b = elim (Bool-cases (b == 32)) [
  | inl space ↦ rw space (omega arith)
  | inr other ↦ elim (Bool-cases (is_form_safe b)) [
    | inl safe ↦ rw (other, safe) (is_form_safe-IsTame b safe, tt)
    | inr unsafe ↦ rw (other, unsafe) (percent-IsTame b)
  ]
]

encode_bytes-IsTame : (bs : List ℕ) → All IsTame (encode_bytes form_byte bs)
encode_bytes-IsTame [] = tt
encode_bytes-IsTame (b ∷ bs) =
    All-append IsTame (form_byte b) _ (form_byte-IsTame b) (encode_bytes-IsTame bs)

form_encode-IsTame : (s : Text) → All IsTame (form_encode s)
unfolding form_encode
form_encode-IsTame s = encode_bytes-IsTame (utf8 s)

pub form_serialize-IsTame : (ps : List (Text × Text)) → All IsTame (form_serialize ps)
unfolding form_serialize
form_serialize-IsTame [] = tt
form_serialize-IsTame ((k, v) ∷ []) =
    All-append IsTame (form_encode k) _ (form_encode-IsTame k) (omega arith, form_encode-IsTame v)
form_serialize-IsTame ((k, v) ∷ (p ∷ ps)) =
    All-append IsTame (form_encode k) _ (form_encode-IsTame k) (
      omega arith,
      All-append IsTame (form_encode v) _ (form_encode-IsTame v)
          (omega arith, form_serialize-IsTame (p ∷ ps)),
    )
