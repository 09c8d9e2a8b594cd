-- ===== src/Prelude/Prefix.antt =====
-- One list begins another.
use mathlib.Core.Path.{◌≡◌, refl, sym, ap, ◌∙◌}
use mathlib.Core.List.{List, [], ◌∷◌, ◌++◌, append-nil, append_assoc}

abbrev pub IsPrefix {ℓ} : {A : Type ℓ} → List A → List A → Type ℓ
IsPrefix {A} xs ys = (rest : List A) × (xs ++ rest ≡ ys)

abbrev tail_of {ℓ} : {A : Type ℓ} → List A → List A
tail_of [] = []
tail_of (x ∷ xs) = xs

module _ {ℓ} {A : Type ℓ} where
  pub IsPrefix-refl : (xs : List A) → IsPrefix xs xs
  IsPrefix-refl xs = ([], append-nil xs)

  pub IsPrefix-trans : (xs ys zs : List A) → IsPrefix xs ys → IsPrefix ys zs → IsPrefix xs zs
  IsPrefix-trans xs ys zs (r, p) (q, e) =
      (r ++ q, sym (append_assoc xs r q) ∙ ap (λ t. t ++ q) p ∙ e)

  pub IsPrefix-append : (xs ys : List A) → IsPrefix xs (xs ++ ys)
  IsPrefix-append xs ys = (ys, refl)

  -- What two lists that share a beginning add to it.
  pub IsPrefix-cancel : (xs ys zs : List A) → IsPrefix (xs ++ ys) (xs ++ zs) → IsPrefix ys zs
  IsPrefix-cancel [] ys zs h = h
  IsPrefix-cancel (x ∷ xs) ys zs (r, p) = IsPrefix-cancel xs ys zs (r, ap tail_of p)
