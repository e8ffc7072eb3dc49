-- ===== src/Executor/Precompiles/Rounds.antt =====
-- The compression of BLAKE2b as RFC 7693 draws it, beside the loop of
-- crates/executor/src/precompiles/blake2_f.rs: the sixteen words are a square of four columns, and
-- a round mixes the columns and then the diagonals.
use Prim.Native.Nat.{bit_xor}
use rt_evm.Common.{ℕ, zero, suc, ◌+◌, ◌%◌, ◌≡◌, refl, ap, ◌∙◌, List, [], ◌∷◌, unwrap_or, get_elem?}
use rt_evm.Executor.Precompiles.Blake2F.{
  sigma, at, wrapping_add, rotate_right, g, one_round, rounds_from,
}

-- Four words from the rows of the square.
pub record Quad : Type 0 where
  pub a : ℕ
  pub b : ℕ
  pub c : ℕ
  pub d : ℕ

pub record Square : Type 0 where
  pub first : Quad
  pub second : Quad
  pub third : Quad
  pub fourth : Quad

-- The words in the order of the rows.
unfoldable pub flatten : Square → List ℕ
flatten s =
    s.first.a ∷ s.second.a ∷ s.third.a ∷ s.fourth.a ∷ s.first.b ∷ s.second.b ∷ s.third.b
    ∷ s.fourth.b ∷ s.first.c ∷ s.second.c ∷ s.third.c ∷ s.fourth.c ∷ s.first.d ∷ s.second.d
    ∷ s.third.d ∷ s.fourth.d ∷ []

-- The mixing function of RFC 7693, section 3.1, on the words of `q`.
unfoldable pub mix : Quad → ℕ → ℕ → Quad
mix q x y =
    let a1 = wrapping_add (wrapping_add q.a q.b) x in
    let d1 = rotate_right (bit_xor q.d a1) 32 in
    let c1 = wrapping_add q.c d1 in
    let b1 = rotate_right (bit_xor q.b c1) 24 in
    let a2 = wrapping_add (wrapping_add a1 b1) y in
    let d2 = rotate_right (bit_xor d1 a2) 16 in
    let c2 = wrapping_add c1 d2 in
    record { a = a2; b = rotate_right (bit_xor b1 c2) 63; c = c2; d = d2 }

-- The diagonals of a square, and the square of four diagonals.
abbrev pub diagonals : Square → Square
diagonals s = record {
  first = record { a = s.first.a; b = s.second.b; c = s.third.c; d = s.fourth.d };
  second = record { a = s.second.a; b = s.third.b; c = s.fourth.c; d = s.first.d };
  third = record { a = s.third.a; b = s.fourth.b; c = s.first.c; d = s.second.d };
  fourth = record { a = s.fourth.a; b = s.first.b; c = s.second.c; d = s.third.d };
}

abbrev pub from_diagonals : Square → Square
from_diagonals s = record {
  first = record { a = s.first.a; b = s.fourth.b; c = s.third.c; d = s.second.d };
  second = record { a = s.second.a; b = s.first.b; c = s.fourth.c; d = s.third.d };
  third = record { a = s.third.a; b = s.second.b; c = s.first.c; d = s.fourth.d };
  fourth = record { a = s.fourth.a; b = s.third.b; c = s.second.c; d = s.first.d };
}

-- The word of the message that round `i` takes at place `j`.
abbrev pub chosen : List ℕ → ℕ → ℕ → ℕ
chosen m i j = at m (at (unwrap_or (get_elem? sigma (i % 10)) []) j)

-- The columns mixed with the words at the places `j`, `j + 1`, ... of the schedule `w`.
abbrev pub mix_columns : (ℕ → ℕ) → ℕ → Square → Square
mix_columns w j s = record {
  first = mix s.first (w j) (w (j + 1));
  second = mix s.second (w (j + 2)) (w (j + 3));
  third = mix s.third (w (j + 4)) (w (j + 5));
  fourth = mix s.fourth (w (j + 6)) (w (j + 7));
}

abbrev pub square_round : List ℕ → ℕ → Square → Square
square_round m i s =
    from_diagonals (mix_columns (chosen m i) 8 (diagonals (mix_columns (chosen m i) 0 s)))

abbrev pub square_rounds : List ℕ → ℕ → ℕ → Square → Square
square_rounds m i zero s = s
square_rounds m i (suc n) s = square_rounds m (suc i) n (square_round m i s)

-- `g` on the words of one column, and of one diagonal.
g-first :
    (s : Square) (x y : ℕ)
    → g (flatten s) 0 4 8 12 x y ≡ flatten (record s { first = mix s.first x y })
unfolding g flatten mix
g-first s x y = refl

g-second :
    (s : Square) (x y : ℕ)
    → g (flatten s) 1 5 9 13 x y ≡ flatten (record s { second = mix s.second x y })
unfolding g flatten mix
g-second s x y = refl

g-third :
    (s : Square) (x y : ℕ)
    → g (flatten s) 2 6 10 14 x y ≡ flatten (record s { third = mix s.third x y })
unfolding g flatten mix
g-third s x y = refl

g-fourth :
    (s : Square) (x y : ℕ)
    → g (flatten s) 3 7 11 15 x y ≡ flatten (record s { fourth = mix s.fourth x y })
unfolding g flatten mix
g-fourth s x y = refl

g-from_first :
    (s : Square) (x y : ℕ)
    → g (flatten (from_diagonals s)) 0 5 10 15 x y
      ≡ flatten (from_diagonals (record s { first = mix s.first x y }))
unfolding g flatten mix
g-from_first s x y = refl

g-from_second :
    (s : Square) (x y : ℕ)
    → g (flatten (from_diagonals s)) 1 6 11 12 x y
      ≡ flatten (from_diagonals (record s { second = mix s.second x y }))
unfolding g flatten mix
g-from_second s x y = refl

g-from_third :
    (s : Square) (x y : ℕ)
    → g (flatten (from_diagonals s)) 2 7 8 13 x y
      ≡ flatten (from_diagonals (record s { third = mix s.third x y }))
unfolding g flatten mix
g-from_third s x y = refl

g-from_fourth :
    (s : Square) (x y : ℕ)
    → g (flatten (from_diagonals s)) 3 4 9 14 x y
      ≡ flatten (from_diagonals (record s { fourth = mix s.fourth x y }))
unfolding g flatten mix
g-from_fourth s x y = refl

-- The eight calls of `g` in a row are a round on the square.
pub one_round-flatten :
    (m : List ℕ) (i : ℕ) (s : Square) → one_round m i (flatten s) ≡ flatten (square_round m i s)
unfolding one_round
one_round-flatten m i s =
    let w = chosen m i in
    let s1 : Square = record s { first = mix s.first (w 0) (w 1) } in
    let s2 : Square = record s1 { second = mix s.second (w 2) (w 3) } in
    let s3 : Square = record s2 { third = mix s.third (w 4) (w 5) } in
    let t = diagonals (record s3 { fourth = mix s.fourth (w 6) (w 7) }) in
    let t1 : Square = record t { first = mix t.first (w 8) (w 9) } in
    let t2 : Square = record t1 { second = mix t.second (w 10) (w 11) } in
    let t3 : Square = record t2 { third = mix t.third (w 12) (w 13) } in
    rw
      (
        g-first s (w 0) (w 1),
        g-second s1 (w 2) (w 3),
        g-third s2 (w 4) (w 5),
        g-fourth s3 (w 6) (w 7),
        g-from_first t (w 8) (w 9),
        g-from_second t1 (w 10) (w 11),
        g-from_third t2 (w 12) (w 13),
        g-from_fourth t3 (w 14) (w 15),
      )
      refl

pub rounds_from-flatten :
    (m : List ℕ) (i n : ℕ) (s : Square)
    → rounds_from m i n (flatten s) ≡ flatten (square_rounds m i n s)
unfolding rounds_from
rounds_from-flatten m i zero s = refl
rounds_from-flatten m i (suc n) s =
    ap (rounds_from m (suc i) n) (one_round-flatten m i s)
    ∙ rounds_from-flatten m (suc i) n (square_round m i s)
