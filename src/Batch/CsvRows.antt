-- ===== src/Batch/CsvRows.antt =====
-- What `ParseCSVBatch` of batch.go gives for a CSV file.
use gomsggw.Base.{
  ℕ, ◌+◌, List, [], ◌∷◌, ◌++◌, Option, none, some, Text, Eq_Text, ◌==◌, ==_iff, length,
  length-append, All, ◌≡◌, ◌≢◌, ◌≤◌, refl, subst, arith, Bool-cases, inl, inr,
}
use gomsggw.Batch.Messages.{BatchMessage}
use gomsggw.Batch.Csv.{
  CsvColumns, CsvResult, parsed, no_header, no_to_column, no_messages, bad_line, columns,
  no_columns, trimmed_or_empty, get_elem?, message_of_row, with_messages, parse_rows, parse_columns,
  refuse_empty, parse_csv_batch,
}

module _ (to_idx : ℕ) (cols : CsvColumns) where
  message_of_row-few :
      (fields : List Text)
      → (length (message_of_row to_idx cols fields) ≤ 1)
        × All (λ m. m.to ≢ []) (message_of_row to_idx cols fields)
  unfolding message_of_row
  message_of_row-few fields = elim (Bool-cases (trimmed_or_empty (get_elem? fields to_idx) == [])) [
    | inl empty ↦ rw empty (omega arith, tt)
    | inr given ↦ rw given (
      omega arith,
      ((λ e. ground (arith, ==_iff (trimmed_or_empty (get_elem? fields to_idx)) [], given, e)), tt),
    )
  ]

  All-join :
      (xs ys : List BatchMessage)
      → All (λ m. m.to ≢ []) xs
      → All (λ m. m.to ≢ []) ys
      → All (λ m. m.to ≢ []) (xs ++ ys)
  All-join [] ys h k = k
  All-join (x ∷ xs) ys h k = (h.0, All-join xs ys h.1 k)

  -- One message at most comes of a record, and every record was read.
  abbrev Rows : List (Option (List Text)) → List BatchMessage → Type 0
  Rows records messages =
      (length messages ≤ length records)
      × All (λ m. m.to ≢ []) messages
      × All (λ r. r ≢ none) records

  with_messages-parsed :
      (new : List BatchMessage) (r : CsvResult) (messages : List BatchMessage)
      → with_messages new r ≡ parsed messages
      → (others : List BatchMessage) × (r ≡ parsed others) × (new ++ others ≡ messages)
  with_messages-parsed new (parsed others) messages h = (others, refl, cc h)
  with_messages-parsed new no_header messages h = cc
  with_messages-parsed new no_to_column messages h = cc
  with_messages-parsed new no_messages messages h = cc
  with_messages-parsed new (bad_line n) messages h = cc

  parse_rows-Rows :
      (line : ℕ) (records : List (Option (List Text))) (messages : List BatchMessage)
      → parse_rows to_idx cols line records ≡ parsed messages
      → Rows records messages
  unfolding parse_rows
  parse_rows-Rows line [] messages h =
      let none_left : [] ≡ messages = cc h in
      subst (λ ms. Rows [] ms) none_left (omega arith, tt, tt)
  parse_rows-Rows line (none ∷ records) messages h = cc
  parse_rows-Rows line (some fields ∷ records) messages h =
      let (others, rest, joined) =
        with_messages-parsed (message_of_row to_idx cols fields)
          (parse_rows to_idx cols (line + 1) records) messages h in
      let (few, given, whole) = parse_rows-Rows (line + 1) records others rest in
      let (one, this) = message_of_row-few fields in
      subst (λ ms. Rows (some fields ∷ records) ms) joined
        (
          omega (arith, length-append (message_of_row to_idx cols fields) others, few, one),
          All-join (message_of_row to_idx cols fields) others this given,
          ((λ e. cc), whole),
        )

refuse_empty-parsed :
    (r : CsvResult) (messages : List BatchMessage)
    → refuse_empty r ≡ parsed messages
    → (r ≡ parsed messages) × (1 ≤ length messages)
refuse_empty-parsed (parsed []) messages h = cc
refuse_empty-parsed (parsed (m ∷ ms)) messages h = (h, ground (arith, h))
refuse_empty-parsed no_header messages h = cc
refuse_empty-parsed no_to_column messages h = cc
refuse_empty-parsed no_messages messages h = cc
refuse_empty-parsed (bad_line n) messages h = cc

parse_columns-Rows :
    (o : Option ℕ) (cols : CsvColumns) (records : List (Option (List Text)))
    (messages : List BatchMessage)
    → parse_columns o cols records ≡ parsed messages
    → (1 ≤ length messages)
      × (length messages ≤ length records)
      × All (λ m. m.to ≢ []) messages
      × All (λ r. r ≢ none) records
parse_columns-Rows none cols records messages h = cc
parse_columns-Rows (some i) cols records messages h =
    let (done, some_messages) = refuse_empty-parsed (parse_rows i cols 2 records) messages h in
    let (few, given, whole) = parse_rows-Rows i cols 2 records messages done in
    (some_messages, few, given, whole)

-- When `ParseCSVBatch` returns messages, there is at least one and at most one for each record of
-- the file, each has a destination, and no record was an error of the csv reader.
pub parse_csv_batch-parsed :
    (to_lower : Text → Text) (header : Option (List Text)) (records : List (Option (List Text)))
    {messages : List BatchMessage}
    → parse_csv_batch to_lower (record { header = header; records = records }) ≡ parsed messages
    → (1 ≤ length messages)
      × (length messages ≤ length records)
      × All (λ m. m.to ≢ []) messages
      × All (λ r. r ≢ none) records
unfolding parse_csv_batch
parse_csv_batch-parsed to_lower none records {messages} h = cc
parse_csv_batch-parsed to_lower (some header) records {messages} h =
    parse_columns-Rows (columns to_lower 0 header no_columns).to_idx
      (columns to_lower 0 header no_columns) records messages h
