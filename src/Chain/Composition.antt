-- ===== src/Chain/Composition.antt =====
-- middleware.go: the order in which a chain applies its middlewares.
use r8e.Prelude.{◌≡◌, refl, sym, ap, ◌∙◌, List, [], ◌∷◌, ◌++◌, reverse}
use r8e.Chain.{Middleware, wrap, chain}
use mathlib.Core.List.{reverse-cons}

module _ {H : Type 0} where
  wrap-++ : (xs ys : List (Middleware H)) (h : H) → wrap (xs ++ ys) h ≡ wrap ys (wrap xs h)
  unfolding wrap
  wrap-++ [] ys h = refl
  wrap-++ (x ∷ xs) ys h = wrap-++ xs ys (x h)

  -- The first middleware is the outermost.
  pub chain-∷ :
      (x : Middleware H) (xs : List (Middleware H)) (h : H) → chain (x ∷ xs) h ≡ x (chain xs h)
  unfolding chain wrap
  chain-∷ x xs h =
      ap (λ (l : List (Middleware H)). wrap l h) (reverse-cons x xs)
      ∙ wrap-++ (reverse xs) (x ∷ []) h

  -- A chain of two lists is the chain of the first around the chain of the second; with no
  -- middleware a chain is the handler itself, and with one it is that middleware.
  pub chain-++ :
      (xs ys : List (Middleware H)) (m : Middleware H) (h : H)
      → (chain (xs ++ ys) h ≡ chain xs (chain ys h)) × (chain [] h ≡ h) × (chain (m ∷ []) h ≡ m h)
  unfolding chain wrap
  chain-++ [] ys m h = (refl, refl, refl)
  chain-++ (x ∷ xs) ys m h = (
    chain-∷ x (xs ++ ys) h ∙ ap x (chain-++ xs ys m h).0 ∙ sym (chain-∷ x xs (chain ys h)),
    refl,
    refl,
  )
