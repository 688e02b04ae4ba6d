-- ===== src/Prelude/Drop.antt =====
-- What is left of a list without its first elements, and its last elements.
use Prim.Native.Nat.{ℕ, zero, suc, ◌+◌, ◌-◌, ◌≤◌}
use mathlib.Core.Path.{◌≡◌, refl, sym, ap, ◌∙◌}
use mathlib.Core.List.{List, [], ◌∷◌, ◌++◌}
use native.Mathlib.Omega.{arith}
use ron_personal_assistant.Prelude.Lists.{drop, length, length-append}

module _ {ℓ} {A : Type ℓ} where
  pub append_nil : (xs : List A) → xs ++ [] ≡ xs
  append_nil [] = refl
  append_nil (x ∷ xs) = ap (λ t. x ∷ t) (append_nil xs)

  pub append_assoc : (xs ys zs : List A) → (xs ++ ys) ++ zs ≡ xs ++ (ys ++ zs)
  append_assoc [] ys zs = refl
  append_assoc (x ∷ xs) ys zs = ap (λ t. x ∷ t) (append_assoc xs ys zs)

  pub drop-append_le :
      (n : ℕ) (xs ys : List A) → n ≤ length xs → drop n (xs ++ ys) ≡ drop n xs ++ ys
  drop-append_le zero xs ys h = refl
  drop-append_le (suc n) [] ys h = ground (arith, h)
  drop-append_le (suc n) (x ∷ xs) ys h = drop-append_le n xs ys (omega arith)

  pub drop-append_ge :
      (n : ℕ) (xs ys : List A) → length xs ≤ n → drop n (xs ++ ys) ≡ drop (n - length xs) ys
  drop-append_ge n [] ys h = ap (λ k. drop k ys) (omega arith)
  drop-append_ge zero (x ∷ xs) ys h = ground (arith, h)
  drop-append_ge (suc n) (x ∷ xs) ys h =
      drop-append_ge n xs ys (omega arith) ∙ ap (λ k. drop k ys) (omega arith)

  pub length-drop : (n : ℕ) (xs : List A) → length (drop n xs) ≡ length xs - n
  length-drop zero xs = omega arith
  length-drop (suc n) [] = omega arith
  length-drop (suc n) (x ∷ xs) = omega (arith, length-drop n xs)

  pub drop_nil : (n : ℕ) → drop {A = A} n [] ≡ []
  drop_nil zero = refl
  drop_nil (suc n) = refl

  pub drop-drop : (m n : ℕ) (xs : List A) → drop m (drop n xs) ≡ drop (n + m) xs
  drop-drop m zero xs = ap (λ k. drop k xs) (omega arith)
  drop-drop m (suc n) [] = drop_nil m ∙ sym (drop_nil (suc n + m))
  drop-drop m (suc n) (x ∷ xs) =
      let shifted : suc (n + m) ≡ suc n + m = omega arith in
      drop-drop m n xs ∙ ap (λ k. drop k (x ∷ xs)) shifted

  pub drop_none : (xs : List A) (n : ℕ) → n ≡ 0 → drop n xs ≡ xs
  drop_none xs n e = rw e refl

  -- The last `n` elements, all of them if there are fewer.
  abbrev pub latest : ℕ → List A → List A
  latest n xs = drop (length xs - n) xs

  pub latest_all : (n : ℕ) (xs : List A) → length xs ≤ n → latest n xs ≡ xs
  latest_all n xs h = drop_none xs (length xs - n) (omega arith)

  pub latest-append : (n : ℕ) (xs ys : List A) → n ≤ length ys → latest n (xs ++ ys) ≡ latest n ys
  latest-append n xs ys h =
      let size = length-append xs ys in
      let rest : length (xs ++ ys) - n - length xs ≡ length ys - n = omega (arith, size) in
      drop-append_ge (length (xs ++ ys) - n) xs ys (omega (arith, size)) ∙ ap (λ k. drop k ys) rest

  pub latest-latest : (n : ℕ) (xs ys : List A) → latest n (latest n xs ++ ys) ≡ latest n (xs ++ ys)
  latest-latest n xs ys =
      let k = length xs - n in
      let rest = drop k (xs ++ ys) in
      let counted : k + (length rest - n) ≡ length (xs ++ ys) - n =
        omega (arith, length-drop k (xs ++ ys), length-append xs ys) in
      ap (λ t. latest n t) (sym (drop-append_le k xs ys (omega arith)))
      ∙ drop-drop (length rest - n) k (xs ++ ys)
      ∙ ap (λ j. drop j (xs ++ ys)) counted

  pub latest_shorter : (n m : ℕ) (xs : List A) → n ≤ m → latest n (latest m xs) ≡ latest n xs
  latest_shorter n m xs h =
      let k = length xs - m in
      let counted : k + (length (drop k xs) - n) ≡ length xs - n =
        omega (arith, h, length-drop k xs) in
      drop-drop (length (drop k xs) - n) k xs ∙ ap (λ j. drop j xs) counted
