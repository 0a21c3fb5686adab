-- ===== src/Base/Text.antt =====
-- strings.TrimSpace on the bytes of a UTF-8 string: the characters with the Unicode property
-- White_Space are cut off at both ends.
use mathlib.Core.List.{reverse, reverse-reverse}
use supernova_classic_farm.Base.{
  ℕ, ◌≤◌, ◌≡◌, refl, Bool, true, false, ◌&&◌, ◌||◌, List, [], ◌∷◌, arith, leb, ◌==◌, if◌then◌else◌,
  All, All-reverse,
}

unfoldable one_byte_space : ℕ → Bool
one_byte_space a = leb 9 a && leb a 13 || a == 32

-- U+0085 and U+00A0.
unfoldable two_byte_space : ℕ → ℕ → Bool
two_byte_space a b = a == 194 && (b == 133 || b == 160)

-- U+1680, U+2000 to U+200A, U+2028, U+2029, U+202F, U+205F and U+3000.
unfoldable three_byte_space : ℕ → ℕ → ℕ → Bool
three_byte_space a b c =
    a == 225 && (b == 154 && c == 128)
    || (a == 226 && (b == 128 && (leb 128 c && leb c 138 || (c == 168 || (c == 169 || c == 175))))
        || (a == 226 && (b == 129 && c == 159) || a == 227 && (b == 128 && c == 128)))

-- The white space at the start, whose bytes are tested in the order of `is_two` and `is_three`.
trim_start : (ℕ → ℕ → Bool) → (ℕ → ℕ → ℕ → Bool) → List ℕ → List ℕ
trim_start is_two is_three [] = []
trim_start is_two is_three (a ∷ []) = if one_byte_space a then [] else a ∷ []
trim_start is_two is_three (a ∷ b ∷ []) = elim (one_byte_space a) [
  | true ↦ trim_start is_two is_three (b ∷ [])
  | false ↦ if is_two a b then [] else a ∷ b ∷ []
]
trim_start is_two is_three (a ∷ b ∷ c ∷ cs) = elim (one_byte_space a) [
  | true ↦ trim_start is_two is_three (b ∷ c ∷ cs)
  | false ↦ elim (is_two a b) [
    | true ↦ trim_start is_two is_three (c ∷ cs)
    | false ↦ elim (is_three a b c) [
      | true ↦ trim_start is_two is_three cs
      | false ↦ a ∷ b ∷ c ∷ cs
    ]
  ]
]

unfoldable pub trim_space : List ℕ → List ℕ
unfolding trim_start one_byte_space two_byte_space three_byte_space
trim_space text = reverse (
    trim_start (λ b a. two_byte_space a b) (λ c b a. three_byte_space a b c)
      (reverse (trim_start two_byte_space three_byte_space text)))

-- Visible ASCII characters.
abbrev pub IsGraphic : ℕ → Type 0
IsGraphic c = (33 ≤ c) × (c ≤ 126)

graphic_one : (a : ℕ) → IsGraphic a → one_byte_space a ≡ false
unfolding one_byte_space
graphic_one a h = let (p, q) = h in ground arith

trim_start-Graphic :
    (is_two : ℕ → ℕ → Bool) (is_three : ℕ → ℕ → ℕ → Bool)
    → ((a b : ℕ) → IsGraphic a → IsGraphic b → is_two a b ≡ false)
    → ((a b c : ℕ) → IsGraphic a → IsGraphic b → IsGraphic c → is_three a b c ≡ false)
    → (text : List ℕ) → All IsGraphic text
    → trim_start is_two is_three text ≡ text
unfolding trim_start
trim_start-Graphic is_two is_three two three [] h = refl
trim_start-Graphic is_two is_three two three (a ∷ []) h = rw (trim_start, graphic_one a h.0) refl
trim_start-Graphic is_two is_three two three (a ∷ b ∷ []) h =
    rw (trim_start, graphic_one a h.0, two a b h.0 h.1.0) refl
trim_start-Graphic is_two is_three two three (a ∷ b ∷ c ∷ cs) h =
    rw (trim_start, graphic_one a h.0, two a b h.0 h.1.0, three a b c h.0 h.1.0 h.1.1.0) refl

graphic_two : (a b : ℕ) → IsGraphic a → two_byte_space a b ≡ false
unfolding two_byte_space
graphic_two a b h = let (p, q) = h in ground arith

graphic_three : (a b c : ℕ) → IsGraphic a → three_byte_space a b c ≡ false
unfolding three_byte_space
graphic_three a b c h = let (p, q) = h in ground arith

-- Text of visible ASCII characters stays as it is.
pub trim_space-Graphic : (text : List ℕ) → All IsGraphic text → trim_space text ≡ text
unfolding trim_space
trim_space-Graphic text h =
    rw
      (trim_start-Graphic two_byte_space three_byte_space (λ a b p q. graphic_two a b p)
        (λ a b c p q r. graphic_three a b c p) text h)
      (rw
        (trim_start-Graphic (λ b a. two_byte_space a b) (λ c b a. three_byte_space a b c)
          (λ a b p q. graphic_two b a q) (λ a b c p q r. graphic_three c b a r) (reverse text)
          (All-reverse IsGraphic text h))
        (reverse-reverse text))
