-- ===== src/Base/Reorder.antt =====
-- Results over a list that do not hang on the order of its members.
use mathlib.Core.Path.{◌≡◌, refl, ◌∙◌}
use mathlib.Core.Bool.{Bool, Bool-set, ◌&&◌, ◌||◌}
use mathlib.Core.List.{List, ◌∷◌}
use mathlib.Core.List.{Perm, Permᴰ}
use mathlib.Core.Logic.{∥∥₁_elim}
use native.Mathlib.Omega.{arith}
use chain_sieve.Base.Lists.{length, any, every}
use native.Mathlib.Nat.{ℕ_set}
use Prim.Native.Nat.{suc}

or_commute : (a b c : Bool) → (a || (b || c)) ≡ (b || (a || c))
or_commute a b c = ground arith

and_commute : (a b c : Bool) → (a && (b && c)) ≡ (b && (a && c))
and_commute a b c = ground arith

module _ {ℓ} {A : Type ℓ} where
  -- a fold whose steps commute
  fold-Permᴰ :
      {B : Type 0} (f : List A → B) (h : A → B → B)
      → ((a : A) (xs : List A) → f (a ∷ xs) ≡ h a (f xs))
      → ((a b : A) (c : B) → h a (h b c) ≡ h b (h a c))
      → {xs ys : List A} → Permᴰ xs ys
      → f xs ≡ f ys
  fold-Permᴰ f h step commute Permᴰ.nil = refl
  fold-Permᴰ f h step commute (Permᴰ.cons {a = a} {b = b} {l₁ = l₁} {l₂ = l₂} e d) =
      rw (step a l₁, step b l₂, e, fold-Permᴰ f h step commute d) refl
  fold-Permᴰ f h step commute (Permᴰ.swap {a = a} {b = b} {a' = a'} {b' = b'} {l = l} e e') =
      rw (step a (b ∷ l), step b l, step a' (b' ∷ l), step b' l, e, e') (commute b' a' (f l))
  fold-Permᴰ f h step commute (Permᴰ.trans d d') =
      fold-Permᴰ f h step commute d ∙ fold-Permᴰ f h step commute d'

  fold-Perm :
      {B : Type 0} (f : List A → B) (h : A → B → B)
      → IsSet B
      → ((a : A) (xs : List A) → f (a ∷ xs) ≡ h a (f xs))
      → ((a b : A) (c : B) → h a (h b c) ≡ h b (h a c))
      → {xs ys : List A} → Perm xs ys
      → f xs ≡ f ys
  fold-Perm f h s step commute {xs} {ys} p =
      ∥∥₁_elim p (s (f xs) (f ys)) (fold-Permᴰ f h step commute)

  pub any-Perm : (p : A → Bool) {xs ys : List A} → Perm xs ys → any p xs ≡ any p ys
  any-Perm p =
      fold-Perm (any p) (λ a c. p a || c) Bool-set (λ a xs. refl)
        (λ a b c. or_commute (p a) (p b) c)

  pub every-Perm : (p : A → Bool) {xs ys : List A} → Perm xs ys → every p xs ≡ every p ys
  every-Perm p =
      fold-Perm (every p) (λ a c. p a && c) Bool-set (λ a xs. refl)
        (λ a b c. and_commute (p a) (p b) c)

  pub length-Perm : {xs ys : List A} → Perm xs ys → length xs ≡ length ys
  length-Perm = fold-Perm length (λ (a : A). λ n. suc n) ℕ_set (λ a xs. refl) (λ a b c. refl)
