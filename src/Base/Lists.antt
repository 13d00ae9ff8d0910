-- ===== src/Base/Lists.antt =====
-- Lists measured by native numbers, under the library's names.
use Prim.Native.Nat.{ℕ, zero, suc, ◌+◌, ◌<◌}
use mathlib.Core.Path.{◌≡◌, refl, ap}
use mathlib.Core.List.{List, [], ◌∷◌, ◌++◌, map}
use native.Mathlib.Omega.{arith}

module _ {ℓ} {A : Type ℓ} where
  abbrev pub length : List A → ℕ
  length [] = 0
  length (x ∷ xs) = suc (length xs)

  pub length-append : (xs ys : List A) → length (xs ++ ys) ≡ length xs + length ys
  length-append [] ys = omega arith
  length-append (x ∷ xs) ys = omega (arith, length-append xs ys)

module _ {ℓ κ} {A : Type ℓ} {B : Type κ} where
  pub length-map : (xs : List A) (f : A → B) → length (map f xs) ≡ length xs
  length-map [] f = refl
  length-map (x ∷ xs) f = ap suc (length-map xs f)

-- `count` numbers from `start` on: start, start + 1, …
abbrev pub range : (start count : ℕ) → List ℕ
range start zero = []
range start (suc n) = start ∷ range (start + 1) n

-- The entry at an index, or the value given.
abbrev pub get_or {ℓ} : {A : Type ℓ} → List A → ℕ → A → A
get_or [] i d = d
get_or (x ∷ xs) zero d = x
get_or (x ∷ xs) (suc i) d = get_or xs i d

-- `P` of all entries.
abbrev pub All {ℓ κ} : {A : Type ℓ} → (A → Type κ) → List A → Type κ
All P [] = Unit
All P (x ∷ xs) = P x × All P xs

pub All-append {ℓ κ} :
    {A : Type ℓ} (P : A → Type κ) (xs ys : List A) → All P xs → All P ys → All P (xs ++ ys)
All-append P [] ys hx hy = hy
All-append P (x ∷ xs) ys hx hy = (hx.0, All-append P xs ys hx.1 hy)

module _ {ℓ} {A : Type ℓ} where
  pub get_or-append_left :
      (xs ys : List A) (i : ℕ) (d : A) → i < length xs → get_or (xs ++ ys) i d ≡ get_or xs i d
  get_or-append_left [] ys i d h = absurd (omega arith)
  get_or-append_left (x ∷ xs) ys zero d h = refl
  get_or-append_left (x ∷ xs) ys (suc i) d h = get_or-append_left xs ys i d (omega arith)

  pub get_or-append_last :
      (xs : List A) (y : A) (i : ℕ) (d : A) → i ≡ length xs → get_or (xs ++ y ∷ []) i d ≡ y
  get_or-append_last [] y zero d h = refl
  get_or-append_last [] y (suc i) d h = absurd (omega arith)
  get_or-append_last (x ∷ xs) y zero d h = absurd (omega arith)
  get_or-append_last (x ∷ xs) y (suc i) d h = get_or-append_last xs y i d (omega arith)

-- Lists with the same entries.
pub list-ext :
    (xs ys : List ℕ)
    → length xs ≡ length ys
    → ((i : ℕ) → i < length xs → get_or xs i 0 ≡ get_or ys i 0)
    → xs ≡ ys
list-ext [] [] e h = refl
list-ext [] (y ∷ ys) e h = absurd (omega arith)
list-ext (x ∷ xs) [] e h = absurd (omega arith)
list-ext (x ∷ xs) (y ∷ ys) e h =
    let rest = list-ext xs ys (omega arith) (λ i l. h (suc i) (omega arith)) in
    cc (h 0 (omega arith), rest)
