-- ===== src/Batch/Csv.antt =====
-- `ParseCSVBatch` of batch.go. The reader of the csv package and `strings.ToLower` are parameters:
-- a file is what the reader gives, its header and then its records, each of which may be an error.
use gomsggw.Base.{
  ℕ, zero, suc, ◌+◌, Bool, false, ◌||◌, List, [], ◌∷◌, ◌++◌, Option, none, some, Text, codes,
  Eq_Text, ◌==◌, if◌then◌else◌,
}
use gomsggw.ApiKeys.{trim_space}
use gomsggw.Batch.Messages.{BatchMessage}

pub record CsvFile : Type 0 where
  pub header : Option (List Text)
  pub records : List (Option (List Text))

pub data CsvResult : Type 0 where
  no_header no_to_column no_messages : CsvResult
  bad_line : ℕ → CsvResult
  parsed : List BatchMessage → CsvResult

-- The columns that the header names; `none` stands for the index -1.
pub record CsvColumns : Type 0 where
  pub to_idx : Option ℕ
  pub text_idx : Option ℕ
  pub var_cols : List (ℕ × Text)

abbrev pub among : Text → List Text → Bool
among s [] = false
among s (t ∷ ts) = s == t || among s ts

abbrev pub to_names : List Text
to_names = codes "to" ∷ codes "phone" ∷ codes "number" ∷ codes "destination" ∷ []

abbrev pub text_names : List Text
text_names = codes "text" ∷ codes "message" ∷ codes "body" ∷ []

unfoldable pub column : (Text → Text) → ℕ → Text → CsvColumns → CsvColumns
unfolding trim_space
column to_lower i col cols =
    let normalized = trim_space (to_lower col) in
    if among normalized to_names
    then record cols { to_idx = some i }
    else if among normalized text_names
    then record cols { text_idx = some i }
    else record cols { var_cols = cols.var_cols ++ ((i, trim_space col) ∷ []) }

unfoldable pub columns : (Text → Text) → ℕ → List Text → CsvColumns → CsvColumns
unfolding column
columns to_lower i [] cols = cols
columns to_lower i (col ∷ header) cols =
    columns to_lower (i + 1) header (column to_lower i col cols)

abbrev pub get_elem? : List Text → ℕ → Option Text
get_elem? [] i = none
get_elem? (x ∷ xs) zero = some x
get_elem? (x ∷ xs) (suc i) = get_elem? xs i

abbrev pub trimmed_or_empty : Option Text → Text
trimmed_or_empty none = []
trimmed_or_empty (some s) = trim_space s

abbrev pub text_of : Option ℕ → List Text → Text
text_of none fields = []
text_of (some i) fields = trimmed_or_empty (get_elem? fields i)

abbrev pub with_variable : Text → Option Text → List (Text × Text) → List (Text × Text)
with_variable name none rest = rest
with_variable name (some value) rest = (name, trim_space value) ∷ rest

unfoldable pub variables_of : List (ℕ × Text) → List Text → List (Text × Text)
unfolding trim_space
variables_of [] fields = []
variables_of ((i, name) ∷ cols) fields =
    with_variable name (get_elem? fields i) (variables_of cols fields)

abbrev pub row_message : CsvColumns → List Text → Text → BatchMessage
row_message cols fields to = record {
  to = to;
  text = text_of cols.text_idx fields;
  variables = variables_of cols.var_cols fields;
}

-- A short row, and one with no destination, is passed over.
unfoldable pub message_of_row : ℕ → CsvColumns → List Text → List BatchMessage
unfolding trim_space variables_of
message_of_row to_idx cols fields =
    let to = trimmed_or_empty (get_elem? fields to_idx) in
    if to == [] then [] else row_message cols fields to ∷ []

abbrev pub with_messages : List BatchMessage → CsvResult → CsvResult
with_messages new (parsed messages) = parsed (new ++ messages)
with_messages new failure = failure

unfoldable pub parse_rows : ℕ → CsvColumns → ℕ → List (Option (List Text)) → CsvResult
unfolding message_of_row
parse_rows to_idx cols line [] = parsed []
parse_rows to_idx cols line (none ∷ records) = bad_line line
parse_rows to_idx cols line (some fields ∷ records) =
    with_messages (message_of_row to_idx cols fields) (parse_rows to_idx cols (line + 1) records)

abbrev pub refuse_empty : CsvResult → CsvResult
refuse_empty (parsed []) = no_messages
refuse_empty result = result

abbrev pub parse_columns : Option ℕ → CsvColumns → List (Option (List Text)) → CsvResult
parse_columns none cols records = no_to_column
parse_columns (some i) cols records = refuse_empty (parse_rows i cols 2 records)

abbrev pub no_columns : CsvColumns
no_columns = record { to_idx = none; text_idx = none; var_cols = [] }

abbrev pub parse_with_header :
    (Text → Text) → Option (List Text) → List (Option (List Text)) → CsvResult
parse_with_header to_lower none records = no_header
parse_with_header to_lower (some header) records =
    let cols = columns to_lower 0 header no_columns in parse_columns cols.to_idx cols records

unfoldable pub parse_csv_batch : (Text → Text) → CsvFile → CsvResult
unfolding columns parse_rows
parse_csv_batch to_lower file = parse_with_header to_lower file.header file.records
