-- ===== src/Tools/Search/Laws.antt =====
-- The laws of `memcmp_plus` of Tools/tools.cpp.
use unity_game_localization.Prelude.{
  ℕ, zero, suc, ◌+◌, ◌≤◌, ◌<◌, ◌≡◌, refl, true, false, List, [], ◌∷◌, none, some, arith, take, drop,
  Bool-cases, Option-cases, inl, inr, eq_of_==,
}
use unity_game_localization.Tools.Search.{memcmp_equal, memcmp_plus}

-- Bytes that compare as equal are equal.
pub take-eq_of_memcmp_equal :
    (p q : List ℕ) (n : ℕ) → memcmp_equal p q n ≡ true → take n p ≡ take n q
unfolding memcmp_equal
take-eq_of_memcmp_equal p q zero h = refl
take-eq_of_memcmp_equal [] [] (suc n) h = refl
take-eq_of_memcmp_equal [] (y ∷ q) (suc n) h = absurd (cc)
take-eq_of_memcmp_equal (x ∷ p) [] (suc n) h = absurd (cc)
take-eq_of_memcmp_equal (x ∷ p) (y ∷ q) (suc n) h =
    ground (arith, take-eq_of_memcmp_equal p q n, eq_of_== x y)

drop-one : (j : ℕ) (p : List ℕ) → drop j (drop 1 p) ≡ drop (suc j) p
drop-one zero [] = refl
drop-one (suc j) [] = refl
drop-one j (x ∷ p) = refl

-- `k` is the first place, of those up to `lt1 - lt2`, where the bytes stand.
pub record IsFirst (p0 p1 : List ℕ) (lt1 lt2 k : ℕ) : Type 0 where
  pub searched : 0 < lt2
  pub fits : k + lt2 ≤ lt1
  pub stands : memcmp_equal (drop k p0) p1 lt2 ≡ true
  pub first : (j : ℕ) → j < k → memcmp_equal (drop j p0) p1 lt2 ≡ false

IsFirst-suc :
    (p0 p1 : List ℕ) (lt1 lt2 k : ℕ)
    → memcmp_equal p0 p1 lt2 ≡ false
    → IsFirst (drop 1 p0) p1 lt1 lt2 k
    → IsFirst p0 p1 (suc lt1) lt2 (suc k)
IsFirst-suc p0 p1 lt1 lt2 k miss h = record {
  searched = h.searched;
  fits = omega (arith, h.fits);
  stands = rw (drop-one k p0) at h.stands;
  first = elim [ zero ↦ λ _. miss | suc j ↦ λ l. rw (drop-one j p0) at (h.first j (omega arith)) ];
}

-- A place that `memcmp_plus` returns is one where the searched bytes, at least one, compare as
-- equal and end within the first `lt1` bytes, and they do not at any place before it.
pub memcmp_plus-IsFirst :
    (p0 p1 : List ℕ) (lt1 lt2 k : ℕ) → memcmp_plus p0 p1 lt1 lt2 ≡ some k → IsFirst p0 p1 lt1 lt2 k
unfolding memcmp_plus
memcmp_plus-IsFirst p0 p1 zero lt2 k h = absurd (cc)
memcmp_plus-IsFirst p0 p1 (suc lt1) lt2 k h = elim (Bool-cases (memcmp_equal p0 p1 lt2)) [
  | inl hit ↦ record {
    searched = ground arith;
    fits = ground arith;
    stands = let e : k ≡ 0 = ground arith in rw e hit;
    first = λ j l. absurd (ground arith);
  }
  | inr miss ↦ elim (Option-cases (memcmp_plus (drop 1 p0) p1 lt1 lt2)) [
    | inl stop ↦ absurd (ground arith)
    | inr (k', found) ↦
        let e : k ≡ suc k' = ground arith in
        rw e
          (IsFirst-suc p0 p1 lt1 lt2 k' miss (memcmp_plus-IsFirst (drop 1 p0) p1 lt1 lt2 k' found))
  ]
]

-- Where `memcmp_plus` returns NULL for at least one byte to search, these bytes compare as equal at
-- no place from which they end within the first `lt1` bytes.
pub memcmp_plus-none :
    (p0 p1 : List ℕ) (lt1 lt2 j : ℕ)
    → memcmp_plus p0 p1 lt1 lt2 ≡ none
    → 0 < lt2
    → j + lt2 ≤ lt1
    → memcmp_equal (drop j p0) p1 lt2 ≡ false
unfolding memcmp_plus
memcmp_plus-none p0 p1 zero lt2 j h pos fits = absurd (omega arith)
memcmp_plus-none p0 p1 (suc lt1) lt2 zero h pos fits = ground arith
memcmp_plus-none p0 p1 (suc lt1) lt2 (suc j) h pos fits =
    rw (← drop-one j p0)
      (memcmp_plus-none (drop 1 p0) p1 lt1 lt2 j (ground arith) pos (omega arith))
