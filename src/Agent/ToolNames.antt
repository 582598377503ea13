-- ===== src/Agent/ToolNames.antt =====
-- The names that tools have for the model: makeModelToolName, buildModelToolDefinitions and toolAliasSet
-- of internal/agent/llm_executor.go.
use agent_server.Prelude.{
  ℕ, suc, ◌+◌, ◌&&◌, ◌||◌, List, [], ◌∷◌, ◌++◌, map, if◌then◌else◌, is_empty, ◌==◌, leb, ltb,
  length, take, pos,
}
use agent_server.Text.{
  Text, codes, text_eq, trim_space, trim_left, trim_right, to_lower, in_set, format_int,
}

unfoldable pub model_rune : ℕ → ℕ
model_rune r =
    if leb b'a' r && leb r b'z' || leb b'0' r && leb r b'9' || r == b'_' || r == b'-'
    then r
    else b'_'

-- strings.Trim(s, "_-")
unfoldable pub trim_marks : Text → Text
trim_marks s = trim_right (in_set (codes "_-")) (trim_left (in_set (codes "_-")) s)

unfoldable pub make_model_tool_name : Text → Text
make_model_tool_name name =
    let trimmed = trim_space (to_lower name) in
    let built = trim_marks (map model_rune trimmed) in
    let model_name = if is_empty built then codes "tool" else built in
    if is_empty trimmed
    then []
    else if ltb 64 (length model_name)
    then take 64 model_name
    else model_name

unfoldable pub lookup_alias : Text → List (Text × Text) → Text
lookup_alias name [] = []
lookup_alias name ((model_name, actual) ∷ aliases) =
    if text_eq model_name name then actual else lookup_alias name aliases

-- toolAliasSet.actualName
unfoldable pub actual_name : List (Text × Text) → Text → Text
actual_name aliases name =
    let actual = trim_space (lookup_alias (trim_space name) aliases) in
    if is_empty aliases
    then trim_space name
    else if is_empty actual
    then trim_space name
    else actual

-- How often a name was used; a name that is not there was not.
unfoldable pub used_count : Text → List Text → ℕ
used_count name [] = 0
used_count name (other ∷ used) =
    let later = used_count name used in if text_eq other name then suc later else later

unfoldable pub numbered_name : Text → List Text → Text
numbered_name model_name used =
    let count = used_count model_name used in
    if count == 0 then model_name else model_name ++ codes "_" ++ format_int (pos (count + 1))

-- The loop of buildModelToolDefinitions over the names of the tools: for each that is not blank, the
-- name for the model and the actual one, in their order. The later pair of a name replaces the
-- earlier, so that the pairs stand before those found so far.
unfoldable pub model_tool_names : List Text → List Text → List (Text × Text) → List (Text × Text)
model_tool_names [] used aliases = aliases
model_tool_names (name ∷ names) used aliases =
    let actual = trim_space name in
    let base = make_model_tool_name actual in
    let model_name = numbered_name base used in
    let skipped = is_empty actual || is_empty base in
    model_tool_names names (if skipped then used else model_name ∷ used)
      (if skipped then aliases else (model_name, actual) ∷ aliases)
