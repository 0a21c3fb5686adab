-- ===== src/Base/Bytes.antt =====
-- Byte strings as lists of numbers: big-endian encoding, comparison and hexadecimal digits.
use Prim.Native.Nat.{bit_and, bit_or}
use supernova_classic_farm.Base.{
  take, zero, suc, ℕ, ◌+◌, ◌-◌, ◌*◌, ◌/◌, ◌%◌, ◌^◌, ◌≡◌, refl, Bool, true, false, ◌&&◌, Option,
  none, some, List, [], ◌∷◌, ◌++◌, arith, leb, ◌==◌, if◌then◌else◌,
}

-- bytes.Equal
unfoldable pub bytes_equal : List ℕ → List ℕ → Bool
bytes_equal (b ∷ left) (c ∷ right) = b == c && bytes_equal left right
bytes_equal (b ∷ left) [] = false
bytes_equal [] (c ∷ right) = false
bytes_equal [] [] = true

pub bytes_equal_refl : (bytes : List ℕ) → bytes_equal bytes bytes ≡ true
unfolding bytes_equal
bytes_equal_refl (b ∷ bytes) = ground (arith, bytes_equal_refl bytes)
bytes_equal_refl [] = refl

pub bytes_equal-eq : (left right : List ℕ) → bytes_equal left right ≡ true → left ≡ right
unfolding bytes_equal
bytes_equal-eq (b ∷ left) (c ∷ right) h = ground (arith, bytes_equal-eq left right)
bytes_equal-eq (b ∷ left) [] h = cc
bytes_equal-eq [] (c ∷ right) h = cc
bytes_equal-eq [] [] h = refl

-- binary.BigEndian.AppendUint32 and AppendUint64, as the bytes that they append.
unfoldable pub big_endian32 : ℕ → List ℕ
big_endian32 n = (n / 2 ^ 24 % 256) ∷ (n / 2 ^ 16 % 256) ∷ (n / 2 ^ 8 % 256) ∷ (n % 256) ∷ []

unfoldable pub big_endian64 : ℕ → List ℕ
unfolding big_endian32
big_endian64 n = big_endian32 (n / 2 ^ 32) ++ big_endian32 n

-- strings.ReplaceAll(value, "-", "")
unfoldable pub remove_dashes : List ℕ → List ℕ
remove_dashes [] = []
remove_dashes (c ∷ cs) = if c == b'-' then remove_dashes cs else c ∷ remove_dashes cs

unfoldable pub hex_digit : ℕ → Option ℕ
hex_digit c =
    if leb b'0' c && leb c b'9'
    then some (c - b'0')
    else if leb b'a' c && leb c b'f'
    then some (c - b'a' + 10)
    else if leb b'A' c && leb c b'F'
    then some (c - b'A' + 10)
    else none

unfoldable pub hex_pair : Option ℕ → Option ℕ → Option (List ℕ) → Option (List ℕ)
hex_pair (some hi) (some lo) (some rest) = some ((hi * 16 + lo) ∷ rest)
hex_pair _ _ _ = none

-- hex.DecodeString
unfoldable pub hex_decode : List ℕ → Option (List ℕ)
unfolding hex_digit hex_pair
hex_decode [] = some []
hex_decode (c ∷ []) = none
hex_decode (c ∷ d ∷ cs) = hex_pair (hex_digit c) (hex_digit d) (hex_decode cs)

unfoldable pub encode_digit : ℕ → ℕ
encode_digit n = if leb n 9 then n + b'0' else n - 10 + b'a'

-- hex.Encode
unfoldable pub hex_encode : List ℕ → List ℕ
unfolding encode_digit
hex_encode [] = []
hex_encode (b ∷ bs) = encode_digit (b / 16) ∷ encode_digit (b % 16) ∷ hex_encode bs

abbrev update_byte : ℕ → (ℕ → ℕ) → List ℕ → List ℕ
update_byte i f [] = []
update_byte zero f (x ∷ xs) = f x ∷ xs
update_byte (suc i) f (x ∷ xs) = x ∷ update_byte i f xs

-- The first 16 bytes of a hash, with the version and variant bits of a UUID.
abbrev pub uuid_of_hash : List ℕ → List ℕ
uuid_of_hash sum =
    update_byte 8 (λ b. bit_or (bit_and b 0x3f) 0x80)
      (update_byte 6 (λ b. bit_or (bit_and b 0x0f) 0x50) (take 16 sum))
