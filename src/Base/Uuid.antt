-- ===== src/Base/Uuid.antt =====
-- The text of a UUID: 32 hexadecimal digits with dashes between them, and back.
use supernova_classic_farm.Base.{
  ℕ, suc, zero, ◌+◌, ◌-◌, ◌*◌, ◌/◌, ◌%◌, ◌≤◌, ◌<◌, ◌≡◌, refl, ap, ◌∙◌, false, some, List, [], ◌∷◌,
  ◌++◌, arith, ◌==◌, length, drop, take, length-drop, All, All-append, All-take, All-drop,
}
use supernova_classic_farm.Base.Bytes.{
  hex_encode, hex_decode, remove_dashes, encode_digit, hex_digit, hex_pair,
}
use supernova_classic_farm.Base.Text.{IsGraphic}

-- raw[from:to]
abbrev slice : ℕ → ℕ → List ℕ → List ℕ
slice from to raw = take (to - from) (drop from raw)

-- raw[:8] + "-" + raw[8:12] + "-" + raw[12:16] + "-" + raw[16:20] + "-" + raw[20:]
unfoldable pub dashed : List ℕ → List ℕ
dashed raw =
    slice 0 8 raw
    ++ b'-'
      ∷ (slice 8 12 raw
          ++ b'-' ∷ (slice 12 16 raw ++ b'-' ∷ (slice 16 20 raw ++ b'-' ∷ slice 20 32 raw)))

abbrev pub IsByte : ℕ → Type 0
IsByte b = b < 256

-- A character that is visible and no dash.
abbrev pub IsSign : ℕ → Type 0
IsSign c = IsGraphic c × ((c == b'-') ≡ false)

encode_digit-IsSign : (n : ℕ) → n < 16 → IsSign (encode_digit n)
unfolding encode_digit
encode_digit-IsSign n h = ((ground arith, ground arith), ground arith)

hex_digit-encode_digit : (n : ℕ) → n < 16 → hex_digit (encode_digit n) ≡ some n
unfolding encode_digit hex_digit
hex_digit-encode_digit n h = ground arith

pub hex_encode-IsSign : (bytes : List ℕ) → All IsByte bytes → All IsSign (hex_encode bytes)
unfolding hex_encode
hex_encode-IsSign [] h = tt
hex_encode-IsSign (b ∷ bytes) h =
    let p = h.0 in
    (
      encode_digit-IsSign (b / 16) (omega arith),
      (encode_digit-IsSign (b % 16) (omega arith), hex_encode-IsSign bytes h.1),
    )

pub length-hex_encode : (bytes : List ℕ) → length (hex_encode bytes) ≡ 2 * length bytes
unfolding hex_encode
length-hex_encode [] = refl
length-hex_encode (b ∷ bytes) = omega (arith, length-hex_encode bytes)

both_digits : (b : ℕ) → b / 16 * 16 + b % 16 ≡ b
both_digits b = omega arith

pub hex_decode-hex_encode :
    (bytes : List ℕ) → All IsByte bytes → hex_decode (hex_encode bytes) ≡ some bytes
unfolding hex_decode hex_encode hex_pair
hex_decode-hex_encode [] h = refl
hex_decode-hex_encode (b ∷ bytes) h =
    let p = h.0 in
    rw
      (
        hex_digit-encode_digit (b / 16) (omega arith),
        hex_digit-encode_digit (b % 16) (omega arith),
        hex_decode-hex_encode bytes h.1,
        both_digits b,
      )
      refl

remove_dashes-append :
    (xs ys : List ℕ) → remove_dashes (xs ++ ys) ≡ remove_dashes xs ++ remove_dashes ys
unfolding remove_dashes
remove_dashes-append [] ys = refl
remove_dashes-append (x ∷ xs) ys = ground (arith, remove_dashes-append xs ys)

remove_dashes-IsSign : (xs : List ℕ) → All IsSign xs → remove_dashes xs ≡ xs
unfolding remove_dashes
remove_dashes-IsSign [] h = refl
remove_dashes-IsSign (x ∷ xs) h = rw (h.0.1, remove_dashes-IsSign xs h.1) refl

All-slice : (P : ℕ → Type 0) (from to : ℕ) (xs : List ℕ) → All P xs → All P (slice from to xs)
All-slice P from to xs h = All-take P (to - from) (drop from xs) (All-drop P from xs h)

-- One part of the text, without its dash.
part :
    (xs rest : List ℕ)
    → All IsSign xs
    → remove_dashes (xs ++ b'-' ∷ rest) ≡ xs ++ remove_dashes rest
unfolding remove_dashes
part xs rest h =
    remove_dashes-append xs (b'-' ∷ rest)
    ∙ ap (λ first. first ++ remove_dashes rest) (remove_dashes-IsSign xs h)

take-drop : (n : ℕ) (xs : List ℕ) → take n xs ++ drop n xs ≡ xs
take-drop zero xs = refl
take-drop (suc n) [] = refl
take-drop (suc n) (x ∷ xs) = ap (λ rest. x ∷ rest) (take-drop n xs)

drop-drop : (m n k : ℕ) (xs : List ℕ) → m + n ≡ k → drop n (drop m xs) ≡ drop k xs
drop-drop zero n zero xs e = rw (n_zero) refl
  where
    n_zero : n ≡ 0
    n_zero = omega arith
drop-drop zero n (suc k) xs e = rw (same) refl
  where
    same : n ≡ suc k
    same = omega arith
drop-drop (suc m) n zero xs e = absurd (omega arith)
drop-drop (suc m) zero (suc k) [] e = refl
drop-drop (suc m) (suc n) (suc k) [] e = refl
drop-drop (suc m) n (suc k) (x ∷ xs) e = drop-drop m n k xs (omega arith)

take_all : (n : ℕ) (xs : List ℕ) → length xs ≤ n → take n xs ≡ xs
take_all zero [] h = refl
take_all zero (x ∷ xs) h = absurd (omega arith)
take_all (suc n) [] h = refl
take_all (suc n) (x ∷ xs) h = ap (λ rest. x ∷ rest) (take_all n xs (omega arith))

-- A slice and what follows it.
joined :
    (from size : ℕ) (xs rest : List ℕ)
    → rest ≡ drop (from + size) xs
    → take size (drop from xs) ++ rest ≡ drop from xs
joined from size xs rest e =
    rw (e, ← drop-drop from size (from + size) xs refl) (take-drop size (drop from xs))

pub remove_dashes-dashed :
    (raw : List ℕ) → length raw ≡ 32 → All IsSign raw → remove_dashes (dashed raw) ≡ raw
unfolding dashed
remove_dashes-dashed raw size h =
    part (slice 0 8 raw) _ (All-slice IsSign 0 8 raw h)
    ∙ joined 0 8 raw _ (
        part (slice 8 12 raw) _ (All-slice IsSign 8 12 raw h)
        ∙ joined 8 4 raw _ (
            part (slice 12 16 raw) _ (All-slice IsSign 12 16 raw h)
            ∙ joined 12 4 raw _ (
                part (slice 16 20 raw) _ (All-slice IsSign 16 20 raw h)
                ∙ joined 16 4 raw _ (
                    remove_dashes-IsSign (slice 20 32 raw) (All-slice IsSign 20 32 raw h)
                    ∙ take_all 12 (drop 20 raw) (let e = length-drop 20 raw in omega arith)))))

All-dashed : (P : ℕ → Type 0) (raw : List ℕ) → P b'-' → All P raw → All P (dashed raw)
unfolding dashed
All-dashed P raw d h = All-append P (slice 0 8 raw) _ (All-slice P 0 8 raw h) (
  d,
  All-append P (slice 8 12 raw) _ (All-slice P 8 12 raw h) (
    d,
    All-append P (slice 12 16 raw) _ (All-slice P 12 16 raw h) (
      d,
      All-append P (slice 16 20 raw) _ (All-slice P 16 20 raw h) (d, All-slice P 20 32 raw h),
    ),
  ),
)

All-Graphic : (xs : List ℕ) → All IsSign xs → All IsGraphic xs
All-Graphic [] h = tt
All-Graphic (x ∷ xs) h = (h.0.0, All-Graphic xs h.1)

pub dashed-IsGraphic : (raw : List ℕ) → All IsSign raw → All IsGraphic (dashed raw)
dashed-IsGraphic raw h = All-dashed IsGraphic raw (omega arith, omega arith) (All-Graphic raw h)
