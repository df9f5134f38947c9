-- ===== src/Base/Order.antt =====
-- The order of a `std::map`'s keys: numbers by `<`, strings byte by byte.
use Prim.Native.Nat.{ℕ, compare, Ordering}
use Prim.Native.Nat.Ordering.{lt, eq, gt}
use mathlib.Core.Path.{◌≡◌, refl}
use mathlib.Core.List.{List, [], ◌∷◌}
use native.Mathlib.Omega.{arith}

pub record Ord {ℓ} (K : Type ℓ) : Type ℓ where
  pub cmp : K → K → Ordering
  pub cmp_same : (a : K) → cmp a a ≡ eq
  pub same_of_eq : (a b : K) → cmp a b ≡ eq → a ≡ b
  pub flip_gt : (a b : K) → cmp a b ≡ gt → cmp b a ≡ lt
  pub flip_lt : (a b : K) → cmp a b ≡ lt → cmp b a ≡ gt
  pub lt_chain : (a b c : K) → cmp a b ≡ lt → cmp b c ≡ lt → cmp a c ≡ lt

pub compare_refl : (a : ℕ) → compare a a ≡ eq
compare_refl a = ground arith

pub compare-eq : (a b : ℕ) → compare a b ≡ eq → a ≡ b
compare-eq a b h = ground arith

pub compare-gt : (a b : ℕ) → compare a b ≡ gt → compare b a ≡ lt
compare-gt a b h = ground arith

pub compare-lt : (a b : ℕ) → compare a b ≡ lt → compare b a ≡ gt
compare-lt a b h = ground arith

pub compare_trans : (a b c : ℕ) → compare a b ≡ lt → compare b c ≡ lt → compare a c ≡ lt
compare_trans a b c h k = ground arith

instance abbrev pub nat_ord : Ord ℕ
nat_ord = record {
  cmp = compare;
  cmp_same = compare_refl;
  same_of_eq = compare-eq;
  flip_gt = compare-gt;
  flip_lt = compare-lt;
  lt_chain = compare_trans;
}

-- A `std::string`: its bytes.
abbrev pub Bytes : Type 0
Bytes = List ℕ

abbrev pub then_by : Ordering → Ordering → Ordering
then_by eq second = second
then_by lt second = lt
then_by gt second = gt

abbrev pub cmp_bytes : Bytes → Bytes → Ordering
cmp_bytes [] [] = eq
cmp_bytes [] (y ∷ ys) = lt
cmp_bytes (x ∷ xs) [] = gt
cmp_bytes (x ∷ xs) (y ∷ ys) = then_by (compare x y) (cmp_bytes xs ys)

pub cmp_bytes_refl : (a : Bytes) → cmp_bytes a a ≡ eq
cmp_bytes_refl [] = refl
cmp_bytes_refl (x ∷ xs) = ground (arith, cmp_bytes_refl xs)

pub cmp_bytes-eq : (a b : Bytes) → cmp_bytes a b ≡ eq → a ≡ b
cmp_bytes-eq [] [] h = refl
cmp_bytes-eq [] (y ∷ ys) h = cc
cmp_bytes-eq (x ∷ xs) [] h = cc
cmp_bytes-eq (x ∷ xs) (y ∷ ys) h = ground (arith, cmp_bytes-eq xs ys)

pub cmp_bytes-gt : (a b : Bytes) → cmp_bytes a b ≡ gt → cmp_bytes b a ≡ lt
cmp_bytes-gt [] [] h = cc
cmp_bytes-gt [] (y ∷ ys) h = cc
cmp_bytes-gt (x ∷ xs) [] h = refl
cmp_bytes-gt (x ∷ xs) (y ∷ ys) h = ground (arith, cmp_bytes-gt xs ys)

pub cmp_bytes-lt : (a b : Bytes) → cmp_bytes a b ≡ lt → cmp_bytes b a ≡ gt
cmp_bytes-lt [] [] h = cc
cmp_bytes-lt [] (y ∷ ys) h = refl
cmp_bytes-lt (x ∷ xs) [] h = cc
cmp_bytes-lt (x ∷ xs) (y ∷ ys) h = ground (arith, cmp_bytes-lt xs ys)

pub cmp_bytes_trans : (a b c : Bytes) → cmp_bytes a b ≡ lt → cmp_bytes b c ≡ lt → cmp_bytes a c ≡ lt
cmp_bytes_trans [] [] c h k = cc
cmp_bytes_trans [] (y ∷ ys) [] h k = cc
cmp_bytes_trans [] (y ∷ ys) (z ∷ zs) h k = refl
cmp_bytes_trans (x ∷ xs) [] c h k = cc
cmp_bytes_trans (x ∷ xs) (y ∷ ys) [] h k = cc
cmp_bytes_trans (x ∷ xs) (y ∷ ys) (z ∷ zs) h k = ground (arith, cmp_bytes_trans xs ys zs)

instance abbrev pub bytes_ord : Ord Bytes
bytes_ord = record {
  cmp = cmp_bytes;
  cmp_same = cmp_bytes_refl;
  same_of_eq = cmp_bytes-eq;
  flip_gt = cmp_bytes-gt;
  flip_lt = cmp_bytes-lt;
  lt_chain = cmp_bytes_trans;
}
