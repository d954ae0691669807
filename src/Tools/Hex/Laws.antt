-- ===== src/Tools/Hex/Laws.antt =====
-- Hexadecimal numbers as they are written, against the `strtol` that init_address_from_file calls.
use unity_game_localization.Prelude.{
  ℕ, zero, suc, ◌+◌, ◌-◌, ◌*◌, ◌/◌, ◌%◌, ◌^◌, ◌<◌, ◌≤◌, ◌≡◌, ◌≢◌, ==_of_ne, leb, true, ltb,
  if◌then◌else◌, List, [], ◌∷◌, ◌++◌, some, arith, refl, append_assoc, append-nil, length,
  length-append, sym, ◌∙◌, ap,
}
use unity_game_localization.Tools.Hex.{hex_digit, hex_value, strtol16, skip_space, skip_0x}

unfoldable pub digit : ℕ → ℕ
digit d = if ltb d 10 then b'0' + d else b'a' + (d - 10)

-- The last `w` hexadecimal digits of a number.
unfoldable pub digits : (w n : ℕ) → List ℕ
digits zero n = []
digits (suc w) n = digits w (n / 16) ++ digit (n % 16) ∷ []

hex_digit-digit : (d : ℕ) → d < 16 → hex_digit (digit d) ≡ some d
unfolding hex_digit digit
hex_digit-digit d h = ground arith

hex_value-digit :
    (n d : ℕ) (s : List ℕ) → d < 16 → hex_value n (digit d ∷ s) ≡ hex_value (n * 16 + d) s
unfolding hex_value
hex_value-digit n d s h = rw (hex_digit-digit d h, hex_value)

pub hex_value-digits :
    (w n : ℕ) (s : List ℕ) → n < 16 ^ w → hex_value 0 (digits w n ++ s) ≡ hex_value n s
unfolding digits
hex_value-digits zero n s h = ap (λ k. hex_value k s) (omega arith)
hex_value-digits (suc w) n s h =
    ap (hex_value 0) (append_assoc (digits w (n / 16)) (digit (n % 16) ∷ []) s)
    ∙ (hex_value-digits w (n / 16) (digit (n % 16) ∷ s) (omega arith)
        ∙ (hex_value-digit (n / 16) (n % 16) s (omega arith)
            ∙ ap (λ k. hex_value k s) (omega arith)))

pub length-digits : (w n : ℕ) → length (digits w n) ≡ w
unfolding digits
length-digits zero n = refl
length-digits (suc w) n =
    omega (arith, length-append (digits w (n / 16)) (digit (n % 16) ∷ []), length-digits w (n / 16))

-- Bytes that are neither blank nor a sign nor the `x` of a prefix.
abbrev pub Plain : List ℕ → Type 0
Plain [] = Unit {0}
Plain (b ∷ s) = (b'0' ≤ b) × (b ≤ b'f') × (b ≢ b'X') × Plain s

Plain-append : (s t : List ℕ) → Plain s → Plain t → Plain (s ++ t)
Plain-append [] t p q = q
Plain-append (b ∷ s) t p q = (p.0, p.1, p.2, Plain-append s t p.3 q)

pub Plain-digits : (w n : ℕ) → Plain (digits w n)
unfolding digits digit
Plain-digits zero n = tt
Plain-digits (suc w) n =
    Plain-append (digits w (n / 16)) (digit (n % 16) ∷ []) (Plain-digits w (n / 16))
      (ground arith, ground arith, ground arith, tt)

skip_space-Plain : (b : ℕ) (s : List ℕ) → b'0' ≤ b → skip_space (b ∷ s) ≡ b ∷ s
unfolding skip_space
skip_space-Plain b s h = ground arith

skip_0x-Plain : (s : List ℕ) → Plain s → skip_0x s ≡ s
unfolding skip_0x
skip_0x-Plain [] p = refl
skip_0x-Plain (b ∷ []) p = refl
skip_0x-Plain (b ∷ c ∷ s) p =
    rw (==_of_ne c b'x' (omega (arith, p.3.1)), ==_of_ne c b'X' p.3.2, skip_0x) (ground arith)

strtol16-Plain : (s : List ℕ) → Plain s → hex_value 0 s ≤ 0x7FFFFFFF → strtol16 s ≡ hex_value 0 s
unfolding strtol16
strtol16-Plain [] p h = unfold hex_value in (unfold skip_space in refl)
strtol16-Plain (b ∷ s) p h =
    let e : leb (hex_value 0 (b ∷ s)) 0x7FFFFFFF ≡ true = ground arith in
    rw (skip_space-Plain b s p.0, strtol16)
      (rw
        (
          ==_of_ne b b'-' (omega (arith, p.0)),
          ==_of_ne b b'+' (omega (arith, p.0)),
          skip_0x-Plain (b ∷ s) p,
        )
        (rw e refl))

-- A number below 2 ^ 31 that is written with enough hexadecimal digits is the number that `strtol`
-- reads in base 16.
pub strtol16-digits : (w n : ℕ) → n < 16 ^ w → n < 2 ^ 31 → strtol16 (digits w n) ≡ n
strtol16-digits w n h l =
    let e : hex_value 0 (digits w n) ≡ n =
      ap (hex_value 0) (sym (append-nil (digits w n)))
      ∙ (hex_value-digits w n [] h ∙ (unfold hex_value in refl)) in
    strtol16-Plain (digits w n) (Plain-digits w n) (omega (arith, e)) ∙ e
