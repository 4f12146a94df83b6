-- ===== src/Net/Wire/Tests.antt =====
-- A library for tables that keeps the calls as they are, and a message on its way.
use grit.Common.{
  get_default, Text, codes, ℕ, ◌≡◌, refl, ap, false, Option, none, some, List, [], ◌∷◌, arith, ok,
}
use grit.Net.{RootMsg, db_service_msg, create_db_service_msg, create_data}
use grit.Net.HeaderCmd.{k_data}
use grit.Net.Wire.{
  Pointer, to_text, to_vector, to_table, Field, element, offset, number_at, pointer_at, Flatbuffers,
}
use grit.Net.Wire.Root.{read_root_msg}
use grit.Net.Wire.Letters.{letter, read_root_msg-letter}

-- A table with its calls, in lists of its own.
mutual
  data Plain : Type 0 where
    plain : Cells → Plain

  data Cells : Type 0 where
    no_cells : Cells
    element_cell : ℕ → ℕ → ℕ → ℕ → Cells → Cells
    null_cell : ℕ → Cells → Cells
    text_cell : ℕ → Text → Cells → Cells
    vector_cell : ℕ → Plains → Cells → Cells
    table_cell : ℕ → Plain → Cells → Cells

  data Plains : Type 0 where
    no_plains : Plains
    one_more : Plain → Plains → Plains

abbrev tables_of : Plains → List Plain
tables_of no_plains = []
tables_of (one_more t ts) = t ∷ tables_of ts

abbrev plains_of : List Plain → Plains
plains_of [] = no_plains
plains_of (t ∷ ts) = one_more t (plains_of ts)

tables_of-plains_of : (ts : List Plain) → tables_of (plains_of ts) ≡ ts
tables_of-plains_of [] = refl
tables_of-plains_of (t ∷ ts) = ap (◌∷◌ t) (tables_of-plains_of ts)

abbrev fields_of : Cells → List (Field Plain)
fields_of no_cells = []
fields_of (element_cell bits slot value default cs) = element bits slot value default ∷ fields_of cs
fields_of (null_cell slot cs) = offset slot none ∷ fields_of cs
fields_of (text_cell slot s cs) = offset slot (some (to_text s)) ∷ fields_of cs
fields_of (vector_cell slot ts cs) = offset slot (some (to_vector (tables_of ts))) ∷ fields_of cs
fields_of (table_cell slot t cs) = offset slot (some (to_table t)) ∷ fields_of cs

abbrev cells_of : List (Field Plain) → Cells
cells_of [] = no_cells
cells_of (element bits slot value default ∷ fs) = element_cell bits slot value default (cells_of fs)
cells_of (offset slot none ∷ fs) = null_cell slot (cells_of fs)
cells_of (offset slot (some (to_text s)) ∷ fs) = text_cell slot s (cells_of fs)
cells_of (offset slot (some (to_vector ts)) ∷ fs) = vector_cell slot (plains_of ts) (cells_of fs)
cells_of (offset slot (some (to_table t)) ∷ fs) = table_cell slot t (cells_of fs)

fields_of-cells_of : (fs : List (Field Plain)) → fields_of (cells_of fs) ≡ fs
fields_of-cells_of [] = refl
fields_of-cells_of (element bits slot value default ∷ fs) =
    ap (◌∷◌ (element bits slot value default)) (fields_of-cells_of fs)
fields_of-cells_of (offset slot none ∷ fs) = ap (◌∷◌ (offset slot none)) (fields_of-cells_of fs)
fields_of-cells_of (offset slot (some (to_text s)) ∷ fs) =
    ap (◌∷◌ (offset slot (some (to_text s)))) (fields_of-cells_of fs)
fields_of-cells_of (offset slot (some (to_vector ts)) ∷ fs) =
    rw (tables_of-plains_of ts, fields_of-cells_of fs) refl
fields_of-cells_of (offset slot (some (to_table t)) ∷ fs) =
    ap (◌∷◌ (offset slot (some (to_table t)))) (fields_of-cells_of fs)

abbrev calls_of : Plain → List (Field Plain)
calls_of (plain cs) = fields_of cs

abbrev pack : List (Field Plain) → Plain
pack fs = plain (cells_of fs)

abbrev field_of : ℕ → Plain → ℕ → ℕ → ℕ
field_of bits t slot default = get_default default (number_at bits slot default (calls_of t))

abbrev pointer_of : Plain → ℕ → Option (Pointer Plain)
pointer_of t slot = get_default none (pointer_at slot (calls_of t))

abbrev plain_tables : Flatbuffers
plain_tables = record {
  FlatTable = Plain;
  end_table = pack;
  get_field = field_of;
  get_pointer = pointer_of;
  get_field_added = λ fs bits slot value default e. rw (fields_of-cells_of fs, e) refl;
  get_pointer_added = λ fs slot p e. rw (fields_of-cells_of fs, e) refl;
}

abbrev some_data : RootMsg
some_data = db_service_msg (
    create_db_service_msg k_data 7 false (some [])
      (some (create_data (some (codes "apple")) (some (codes "n")) (some (codes "3")) ∷ [])))

read_root_msg-letter_example :
    read_root_msg plain_tables (letter plain_tables some_data) ≡ ok some_data
read_root_msg-letter_example =
    read_root_msg-letter plain_tables some_data (omega arith, omega arith)
