-- ===== src/Batch/Messages.antt =====
-- The messages of a batch request in batch.go, and the rows made of them.
use gomsggw.Base.{
  ℕ, zero, suc, ◌+◌, ◌-◌, not, ◌&&◌, List, [], ◌∷◌, ◌++◌, none, String, Text, Eq_Text, ◌==◌, length,
  if◌then◌else◌,
}
use gomsggw.Base.Strings.{has_prefix}
use gomsggw.Numbers.{format_to_e164}
use gomsggw.Batch.{BatchMessageItem, pending}

-- `Variables` is a Go map: the list is the order in which the loop of `ApplyTemplate` visits it.
pub record BatchMessage : Type 0 where
  pub to : Text
  pub text : Text
  pub variables : List (Text × Text)

-- `strings.ReplaceAll(s, old, new)` for a text `old` that is not empty, past `skip` code points
unfoldable pub replace_from : ℕ → Text → Text → Text → Text
unfolding has_prefix
replace_from skip old new [] = []
replace_from (suc skip) old new (a ∷ s) = replace_from skip old new s
replace_from zero old new (a ∷ s) =
    let replaced = new ++ replace_from (length old - 1) old new s in
    let kept = a ∷ replace_from zero old new s in if has_prefix old (a ∷ s) then replaced else kept

abbrev pub replace_all : Text → Text → Text → Text
replace_all old new s = replace_from 0 old new s

abbrev pub placeholder : Text → Text
placeholder key = b'{' ∷ b'{' ∷ (key ++ (b'}' ∷ b'}' ∷ []))

unfoldable pub apply_template : Text → List (Text × Text) → Text
unfolding replace_from
apply_template template [] = template
apply_template template ((key, value) ∷ variables) =
    apply_template (replace_all (placeholder key) value template) variables

unfoldable pub message_text : Text → BatchMessage → Text
unfolding apply_template
message_text template msg =
    if msg.text == [] && not (template == [])
    then apply_template template msg.variables
    else msg.text

unfoldable pub make_item : (ℕ → String) → Text → ℕ → BatchMessage → BatchMessageItem
unfolding message_text format_to_e164
make_item new_id template i msg = record {
  id = new_id i;
  index = i;
  to = (format_to_e164 msg.to).0;
  text = message_text template msg;
  status = pending;
  error = "";
  error_code = 0;
  queued_at = none;
  sent_at = none;
}

-- The items from index `i` on; `new_id i` is the UUID made for the message at `i`.
unfoldable pub make_items : (ℕ → String) → Text → ℕ → List BatchMessage → List BatchMessageItem
unfolding make_item
make_items new_id template i [] = []
make_items new_id template i (msg ∷ messages) =
    make_item new_id template i msg ∷ make_items new_id template (i + 1) messages
