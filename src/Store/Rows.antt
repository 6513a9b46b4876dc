-- ===== src/Store/Rows.antt =====
-- Looking up and writing back the rows of a table.
use human_data.Model.Entities.{Ident}
use human_data.Prelude.{List, ◌≡◌, some, ◌∷◌, arith, []}
use human_data.Store.{find, put}

module _ {A : Type 0} (id_of : A → Ident) where
  pub find-id : (k : Ident) (xs : List A) {x : A} → find id_of k xs ≡ some x → id_of x ≡ k
  find-id k [] e = absurd cc
  find-id k (y ∷ ys) {x = x} e = grind (arith, find-id k ys {x = x})

  -- a row that is written back is the one found
  pub find-put :
      (k : Ident) (xs : List A) {x : A} (y : A)
      → find id_of k xs ≡ some x
      → id_of y ≡ k
      → find id_of k (put id_of y xs) ≡ some y
  find-put k [] y f e = absurd cc
  find-put k (z ∷ zs) {x = x} y f e = grind (arith, find-put k zs {x = x} y)
