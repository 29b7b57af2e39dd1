-- ===== src/Lineage/Texts.antt =====
-- The texts of a lineage view: the messages, the lines of the text alternative, and the short forms
-- of ids.
use data_quality_toolkit.Prelude.{
  ℕ, zero, suc, String, Bool, true, false, Option, none, some, List, [], ◌∷◌, ◌++◌, map, length,
  concat, joined, first_chars, decimal,
}
use data_quality_toolkit.Lineage.{
  LineageState, empty, ready, selected_unavailable, selected_ambiguous, corrupt_relation, truncated,
  Resolution, resolved, no_parent, not_available, not_verified, LineageNode,
}

-- `_MESSAGES`
abbrev pub message_of : LineageState → String
message_of empty = "No managed version is selected for lineage."
message_of ready = "Direct lineage for the selected managed version."
message_of selected_unavailable = "The selected managed version is no longer available."
message_of selected_ambiguous = "The selected reference is ambiguous and cannot be shown."
message_of corrupt_relation = "Some direct relationships are unavailable or could not be verified."
message_of truncated = "Direct lineage shown; some direct children are not listed."

abbrev pub hex_start : Option String → String
hex_start none = ""
hex_start (some hex) = first_chars 8 hex

abbrev pub summary_of : String → String
summary_of short = concat ("Family f-" ∷ short ∷ [])

-- `_family_summary`, of what `_short_hex` gives.
unfoldable pub family_summary : Option String → String
unfolding first_chars concat
family_summary none = "Family (unavailable)"
family_summary (some hex) = summary_of (hex_start (some hex))

abbrev pub status_label : Bool → Bool → String
status_label true is_selected = "Active"
status_label false true = "Selected"
status_label false false = "Available"

abbrev pub named_node : String → LineageNode → String → String
named_node front n back = concat (front ∷ n.label ∷ " (" ∷ n.short_version_id ∷ back ∷ [])

-- `_root_line`
abbrev pub root_line : Resolution LineageNode → String
root_line (resolved n) = named_node "Root: " n ")."
root_line not_verified = "Root: unavailable (relationship could not be verified)."
root_line no_parent = "Root: unavailable."
root_line not_available = "Root: unavailable."

-- `_parent_line`
abbrev pub parent_line : Resolution LineageNode → String
parent_line (resolved n) = named_node "Direct parent: " n ")."
parent_line no_parent = "Direct parent: none (this is a root version)."
parent_line not_verified = "Direct parent: unavailable (relationship could not be verified)."
parent_line not_available = "Direct parent: unavailable."

abbrev pub line_if : Bool → String → List String
line_if true s = s ∷ []
line_if false s = []

-- `_children_lines`
abbrev pub children_lines : List LineageNode → Bool → List String
children_lines [] more = "Direct children: none." ∷ []
children_lines (c ∷ cs) more =
    concat ("Direct children: " ∷ decimal (length (c ∷ cs)) ∷ "." ∷ [])
    ∷ (map (λ n. named_node "- " n ").") (c ∷ cs)
        ++ line_if more "Some direct children are not listed.")

abbrev pub counted : ℕ → String → List String
counted zero s = []
counted (suc n) s = concat (decimal (suc n) ∷ s ∷ []) ∷ []

-- `_text_alternative`
unfoldable pub text_alternative_of :
    LineageNode
    → Resolution LineageNode
    → Resolution LineageNode
    → List LineageNode
    → ℕ
    → ℕ
    → Bool
    → String
unfolding concat joined decimal
text_alternative_of selected root parent children unavailable corrupt more = joined " " (
    concat (
      "Selected: " ∷ selected.label ∷ " (" ∷ selected.short_version_id ∷ "), "
      ∷ selected.status_label ∷ "." ∷ [])
    ∷ root_line root
    ∷ parent_line parent
    ∷ (children_lines children more
        ++ (counted unavailable " related version(s) unavailable."
            ++ counted corrupt " relationship(s) could not be verified.")))
