-- ===== src/NativeLib/Encode.antt =====
-- What `encode` of native-lib.cpp does to a buffer.
use unity_game_localization.Prelude.{
  ℕ, zero, suc, ◌≤◌, ◌≡◌, refl, sym, ap, ◌∙◌, bit_xor, List, [], ◌∷◌, arith, length,
}
use unity_game_localization.Prelude.Xor.{bit_xor_assoc, bit_xor_self, bit_xor-zero}
use unity_game_localization.Run.{ok, ◌>>=◌}
use unity_game_localization.Localize.Dictionary.{c_string}
use unity_game_localization.NativeLib.{encode, encode_vector, encode_string}

-- The first `n` bytes, each with the key.
unfoldable pub mixed : (n key : ℕ) → List ℕ → List ℕ
mixed zero key bs = bs
mixed (suc n) key [] = []
mixed (suc n) key (b ∷ bs) = bit_xor key b ∷ mixed n key bs

-- The bytes of a key in one.
unfoldable pub folded : List ℕ → ℕ
folded [] = 0
folded (k ∷ ks) = bit_xor (folded ks) k

length-mixed : (n key : ℕ) (bs : List ℕ) → length (mixed n key bs) ≡ length bs
unfolding mixed
length-mixed zero key bs = refl
length-mixed (suc n) key [] = refl
length-mixed (suc n) key (b ∷ bs) = ap suc (length-mixed n key bs)

encode-mixed : (bs : List ℕ) (n key : ℕ) → n ≤ length bs → encode bs n key ≡ ok (mixed n key bs)
unfolding encode mixed
encode-mixed bs zero key h = refl
encode-mixed [] (suc n) key h = absurd (omega arith)
encode-mixed (b ∷ bs) (suc n) key h = rw (encode-mixed bs n key (omega arith), ◌>>=◌) refl

mixed-zero : (n : ℕ) (bs : List ℕ) → mixed n 0 bs ≡ bs
unfolding mixed
mixed-zero zero bs = refl
mixed-zero (suc n) [] = refl
mixed-zero (suc n) (b ∷ bs) = rw (bit_xor-zero b, mixed-zero n bs) refl

mixed-mixed :
    (n key key' : ℕ) (bs : List ℕ) → mixed n key (mixed n key' bs) ≡ mixed n (bit_xor key key') bs
unfolding mixed
mixed-mixed zero key key' bs = refl
mixed-mixed (suc n) key key' [] = refl
mixed-mixed (suc n) key key' (b ∷ bs) =
    rw (bit_xor_assoc key key' b, mixed-mixed n key key' bs) refl

encode_vector-folded :
    (key : List ℕ) (bs : List ℕ) (n : ℕ)
    → n ≤ length bs
    → encode_vector bs n key ≡ ok (mixed n (folded key) bs)
unfolding encode_vector folded
encode_vector-folded [] bs n h = ap ok (sym (mixed-zero n bs))
encode_vector-folded (k ∷ key) bs n h =
    rw (encode-mixed bs n k h, ◌>>=◌)
      (encode_vector-folded key (mixed n k bs) n (omega (arith, length-mixed n k bs))
        ∙ ap ok (mixed-mixed n (folded key) k bs))

-- On a buffer of the length at least, `encode` of native-lib.cpp with a string as the key does what
-- it does with one byte as the key, the exclusive or of the string's bytes before its first NUL.
pub encode_string-encode :
    (bs : List ℕ) (n : ℕ) (key : List ℕ)
    → n ≤ length bs
    → encode_string bs n key ≡ encode bs n (folded (c_string key))
unfolding encode_string
encode_string-encode bs n key h =
    encode_vector-folded (c_string key) bs n h ∙ sym (encode-mixed bs n (folded (c_string key)) h)

-- On a buffer of the length at least, encoding twice with the same string ends without a fault and
-- gives the buffer back.
pub encode_string-encode_string :
    (bs : List ℕ) (n : ℕ) (key : List ℕ)
    → n ≤ length bs
    → (bs' : List ℕ) × (encode_string bs n key ≡ ok bs') × (encode_string bs' n key ≡ ok bs)
unfolding encode_string
encode_string-encode_string bs n key h =
    let k = folded (c_string key) in
    (
      mixed n k bs,
      encode_vector-folded (c_string key) bs n h,
      encode_vector-folded (c_string key) (mixed n k bs) n (omega (arith, length-mixed n k bs))
          ∙ ap ok (
              mixed-mixed n k k bs
              ∙ ap (λ (x : ℕ). mixed n x bs) (bit_xor_self k)
              ∙ mixed-zero n bs),
    )
