-- ===== src/Net/Session/Cutting.antt =====
-- What a read cuts off the bytes that have come.
use haraka_engine.Base.{
  ℕ, zero, suc, ◌<◌, ◌≡◌, refl, sym, ap, ◌∙◌, Option, none, some, [], ◌∷◌, ◌++◌, length, arith,
}
use haraka_engine.Base.Order.{Bytes}
use haraka_engine.Net.Session.{split_at}

pub append_cancel :
    (xs ys us vs : Bytes) → length xs ≡ length us → xs ++ ys ≡ us ++ vs → (xs ≡ us) × (ys ≡ vs)
append_cancel [] ys [] vs n e = (refl, e)
append_cancel (x ∷ xs) ys (u ∷ us) vs n e =
    let (k, j) = append_cancel xs ys us vs (omega (arith, n)) (cc) in
    let h : x ≡ u = cc in (λ i. h i ∷ k i, j)
append_cancel [] ys (u ∷ us) vs n e = absurd (omega (arith, n))
append_cancel (x ∷ xs) ys [] vs n e = absurd (omega (arith, n))

pub no_bytes :
    (n : ℕ) (taken rest left : Bytes) → 0 < n → length taken ≡ n → ¬ ((taken ++ rest) ++ left ≡ [])
no_bytes n [] rest left some_bytes size e = omega (arith, some_bytes, size)
no_bytes n (b ∷ taken) rest left some_bytes size e = cc (e)

-- What a read of so many bytes takes.
pub split_at-some :
    (n : ℕ) (bytes taken rest : Bytes)
    → split_at n bytes ≡ some (taken, rest)
    → (bytes ≡ taken ++ rest) × (length taken ≡ n)
unfolding split_at
split_at-some zero bytes taken rest e =
    let h : [] ≡ taken = cc in
    let k : bytes ≡ rest = cc in (k ∙ ap (λ t. t ++ rest) h, ap length (sym h))
split_at-some (suc n) [] taken rest e = absurd (cc (e))
split_at-some (suc n) (b ∷ bytes) taken rest e = go (split_at n bytes) refl (split_at-some n bytes)
  where
    go :
        (r : Option (Bytes × Bytes))
        → split_at n bytes ≡ r
        → ((t u : Bytes) → split_at n bytes ≡ some (t, u) → (bytes ≡ t ++ u) × (length t ≡ n))
        → (b ∷ bytes ≡ taken ++ rest) × (length taken ≡ suc n)
    go none f shorter = absurd (cc (rw (f, split_at) at e))
    go (some (t, u)) f shorter =
        let (parts, size) = shorter t u f in
        let h : b ∷ t ≡ taken = cc (rw (f, split_at) at e) in
        let k : u ≡ rest = cc (rw (f, split_at) at e) in
        (ap (λ l. b ∷ l) parts ∙ λ i. h i ++ k i, ap length (sym h) ∙ ap suc size)
