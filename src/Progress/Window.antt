-- ===== src/Progress/Window.antt =====
-- Which bytes of a file a read at an offset takes, for server-setup/progress-tailer.ts.
use ai_support_agent_cli.Common.{
  ℕ, zero, suc, ◌+◌, ◌≤◌, List, [], ◌∷◌, ◌++◌, ◌≡◌, refl, sym, ap, ◌∙◌, arith, length, take, drop,
}

take-nil : (n : ℕ) → [] ≡ take {A = ℕ} n []
take-nil zero = refl
take-nil (suc n) = refl

pub take-split : (o n : ℕ) (xs : List ℕ) → take (o + n) xs ≡ take o xs ++ take n (drop o xs)
take-split zero n xs = let e : 0 + n ≡ n = omega arith in rw e refl
take-split (suc o) n [] = sym (take-nil (suc o + n)) ∙ refl ∙ take-nil n
take-split (suc o) n (x ∷ xs) =
    let e : suc o + n ≡ suc (o + n) = omega arith in
    rw e (ap (λ (t : List ℕ). x ∷ t) (take-split o n xs))

take_prefix : (n : ℕ) (xs ys : List ℕ) → take (length (take n xs)) (xs ++ ys) ≡ take n xs
take_prefix zero xs ys = refl
take_prefix (suc n) [] ys = refl
take_prefix (suc n) (x ∷ xs) ys = ap (λ (t : List ℕ). x ∷ t) (take_prefix n xs ys)

-- The bytes that a read at `o` gives are those of the file at `o`, although the file grows.
pub take-window :
    (o n : ℕ) (xs ys : List ℕ)
    → take (length (take n (drop o xs))) (drop o (xs ++ ys)) ≡ take n (drop o xs)
take-window zero n xs ys = take_prefix n xs ys
take-window (suc o) zero [] ys = refl
take-window (suc o) (suc n) [] ys = refl
take-window (suc o) n (x ∷ xs) ys = take-window o n xs ys

-- A read at an offset in the file stays in it.
pub length-window :
    (o n : ℕ) (xs ys : List ℕ)
    → o ≤ length (xs ++ ys)
    → o + length (take n (drop o xs)) ≤ length (xs ++ ys)
length-window zero n [] ys h = ground (arith, nothing n)
  where
    nothing : (n : ℕ) → length (take {A = ℕ} n []) ≡ 0
    nothing zero = refl
    nothing (suc n) = refl
length-window zero zero (x ∷ xs) ys h = omega arith
length-window zero (suc n) (x ∷ xs) ys h = ground (arith, length-window zero n xs ys)
length-window (suc o) zero [] ys h = omega arith
length-window (suc o) (suc n) [] ys h = omega arith
length-window (suc o) n (x ∷ xs) ys h = ground (arith, length-window o n xs ys)

pub length-take-drop : (o n : ℕ) (xs : List ℕ) → o + n ≤ length xs → length (take n (drop o xs)) ≡ n
length-take-drop zero zero xs h = refl
length-take-drop zero (suc n) [] h = absurd (omega arith)
length-take-drop zero (suc n) (x ∷ xs) h = ground (arith, length-take-drop zero n xs)
length-take-drop (suc o) n [] h = absurd (omega arith)
length-take-drop (suc o) n (x ∷ xs) h = length-take-drop o n xs (omega arith)
