-- ===== src/Retrieval/Scoping/Structural.antt =====
-- The rows that `filter_structural_rows` keeps.
use cire_rag.Base.{if◌then◌else◌, length, ◌+◌, ◌≡◌, refl, Bool, true, not, List, [], ◌∷◌, arith}
use cire_rag.Base.Value.{dict, Items, nil, cons, Fields}
use cire_rag.Retrieval.Scoping.{is_structural_only_row, filter_structural_rows}

-- The rows of a list that are dictionaries, with or without the structural ones.
abbrev pub rows_where : (Fields → Bool) → Items → List Fields
rows_where p nil = []
rows_where p (cons (dict row) vs) = let rest = rows_where p vs in if p row then row ∷ rest else rest
rows_where p (cons v vs) = rows_where p vs

-- Exactly the rows that are not only structure are kept, in their order, and each of the others is
-- counted; entries that are no rows are left out without a count.
structural_split :
    (vs : Items)
    → (rows_where (λ row. true) (filter_structural_rows vs).0
        ≡ rows_where (λ row. not (is_structural_only_row row)) vs)
      × (length (rows_where (λ row. true) vs)
          ≡ length (rows_where (λ row. true) (filter_structural_rows vs).0)
            + (filter_structural_rows vs).1)
unfolding filter_structural_rows
structural_split nil = (refl, refl)
structural_split (cons (dict row) vs) =
    let rest = structural_split vs in (ground (arith, rest.0), ground (arith, rest.1))
structural_split (cons v vs) = structural_split vs
