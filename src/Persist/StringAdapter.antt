-- ===== src/Persist/StringAdapter.antt =====
-- casbin/persist/string_adapter.cpp: an adapter whose storage is a text.
use casbin_cpp.Base.{
  ℕ, Bool, false, not, List, [], ◌∷◌, ◌++◌, Text, Rule, ◌==◌, str, if◌then◌else◌, Result, ok, err,
  adapter, unsupported_operation, ◌>>=◌,
}
use casbin_cpp.Util.Trim.{rtrim}
use casbin_cpp.Util.Split.{split}
use casbin_cpp.Model.{Model, section, put_section}
use casbin_cpp.Persist.{load_policy_line, section_lines}

pub record StringAdapter : Type 0 where
  pub line : Text
  pub filtered : Bool

unfoldable pub new_string_adapter : Text → StringAdapter
new_string_adapter line = record { line = line; filtered = false }

-- The lines, as they are.
unfoldable pub load_each : List Text → Model → Result Model
unfolding load_policy_line
load_each [] model = ok model
load_each (l ∷ ls) model = do model' ← load_policy_line l model; load_each ls model'

unfoldable pub load_policy_string : StringAdapter → Model → Result Model
unfolding load_each split
load_policy_string a model =
    if a.line == [] then err adapter else load_each (split a.line (10 ∷ []) 0) model

-- The lines of both sections put into the buffer, when they are there, and the model at that point.
abbrev pub save_both :
    StringAdapter → Result Text → Result Text → Model → Model → Result StringAdapter × Model
unfolding rtrim
save_both a (err e) g_lines model1 model2 = (err e, model1)
save_both a (ok p_lines) (err e) model1 model2 = (err e, model2)
save_both a (ok p_lines) (ok g_lines) model1 model2 =
    (ok (record a { line = rtrim (10 ∷ []) (p_lines ++ g_lines) }), model2)

unfoldable pub save_policy_string : StringAdapter → Model → Result StringAdapter × Model
unfolding save_both section_lines section put_section
save_policy_string a model =
    let model1 = put_section (str "p") (section model (str "p")) model in
    let model2 = put_section (str "g") (section model1 (str "g")) model1 in
    let p_lines = section_lines (section model1 (str "p")) in
    let g_lines = section_lines (section model2 (str "g")) in
    if a.line == [] then (err adapter, model) else save_both a p_lines g_lines model1 model2

unfoldable pub add_policy_string : StringAdapter → Text → Text → Rule → Result StringAdapter
add_policy_string a sec p_type rule = err unsupported_operation

-- The whole buffer is emptied.
unfoldable pub remove_policy_string : StringAdapter → Text → Text → Rule → Result StringAdapter
remove_policy_string a sec p_type rule = ok (record a { line = [] })

unfoldable pub remove_filtered_policy_string :
    StringAdapter → Text → Text → ℕ → List Text → Result StringAdapter
remove_filtered_policy_string a sec p_type index values = err unsupported_operation

unfoldable pub is_filtered_string : StringAdapter → Bool
is_filtered_string a = a.filtered

unfoldable pub is_valid_string : StringAdapter → Bool
unfolding ◌==◌
is_valid_string a = not (a.line == [])
