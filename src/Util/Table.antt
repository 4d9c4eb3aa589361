-- ===== src/Util/Table.antt =====
-- Tables between the user's type and the messages':
-- cucumber_cpp/library/util/TransformTable.cpp and cucumber_cpp/library/util/Table.hpp.
use amp_cucumber_cpp_runner.Prelude.{◌≡◌, refl, ap, String, Option, none, some, List, [], ◌∷◌}
use amp_cucumber_cpp_runner.Messages.{PickleTable}

pub record TableCell : Type 0 where
  pub value : String

pub record TableRow : Type 0 where
  pub cells : List TableCell

pub record Table : Type 0 where
  pub rows : List TableRow

-- `tableRow.cells.emplace_back`, for each cell
unfoldable cells_of : List String → List TableCell
cells_of [] = []
cells_of (v ∷ vs) = record { value = v } ∷ cells_of vs

unfoldable rows_of : List (List String) → List TableRow
unfolding cells_of
rows_of [] = []
rows_of (r ∷ rs) = record { cells = cells_of r } ∷ rows_of rs

-- `TransformTable` of a message's table
unfoldable pub transform_pickle_table : Option PickleTable → Option Table
unfolding rows_of
transform_pickle_table none = none
transform_pickle_table (some t) = some (record { rows = rows_of t.rows })

unfoldable values_of_cells : List TableCell → List String
values_of_cells [] = []
values_of_cells (c ∷ cs) = c.value ∷ values_of_cells cs

unfoldable values_of_rows : List TableRow → List (List String)
unfolding values_of_cells
values_of_rows [] = []
values_of_rows (r ∷ rs) = values_of_cells r.cells ∷ values_of_rows rs

-- `TransformTable` of the user's table
unfoldable pub transform_table : Option Table → Option PickleTable
unfolding values_of_rows
transform_table none = none
transform_table (some t) = some (record { rows = values_of_rows t.rows })

values-cells : (vs : List String) → values_of_cells (cells_of vs) ≡ vs
unfolding values_of_cells cells_of
values-cells [] = refl
values-cells (v ∷ vs) = ap (λ rest. v ∷ rest) (values-cells vs)

values-rows : (rs : List (List String)) → values_of_rows (rows_of rs) ≡ rs
unfolding values_of_rows rows_of
values-rows [] = refl
values-rows (r ∷ rs) = rw (values-cells r, values-rows rs) refl

-- A table that a step received and hands on to a nested step is the table of the feature.
pub transform_table-transform_pickle_table :
    (t : Option PickleTable) → transform_table (transform_pickle_table t) ≡ t
unfolding transform_table transform_pickle_table
transform_table-transform_pickle_table none = refl
transform_table-transform_pickle_table (some t) =
    ap (λ rows. some (record { rows = rows })) (values-rows t.rows)
