-- ===== src/Persist.antt =====
-- casbin/persist/adapter.cpp and casbin/persist/file_adapter/file_adapter.cpp. The files on the
-- disk are a map from paths to contents; whether a file can be opened for writing is a parameter.
pub mod Filtered
pub mod StringAdapter
pub mod Line
pub mod Lines
pub mod Loads
pub mod Sections
pub mod Roundtrip
pub mod Tests
use casbin_cpp.Base.{
  ℕ, Bool, true, false, not, Option, none, some, List, [], ◌∷◌, ◌++◌, Text, str, Rule, ◌==◌,
  if◌then◌else◌, nat_eq, take, map, Result, ok, err, undefined, adapter, io, unsupported_operation,
  ◌>>=◌,
}
use casbin_cpp.Base.Assoc.{Assoc, lookup, insert}
use casbin_cpp.Util.Trim.{trim, rtrim}
use casbin_cpp.Util.Split.{split}
use casbin_cpp.Util.Arrays.{array_to_string}
use casbin_cpp.Policy.{PoliciesValues, rules_of, emplace}
use casbin_cpp.Assertion.{Assertion}
use casbin_cpp.Model.{Model, AssertionMap, has_section, section, put_section, assertion, put_policy}

-- `line.empty() || line.find('#') == 0`
abbrev pub is_ignored : Text → Bool
is_ignored [] = true
is_ignored (c ∷ line) = nat_eq c b'#'

-- `tokens[0]` names the definition; `assertion_map[key]` of a missing one is a null pointer.
abbrev pub add_tokens : List Text → Model → Result Model
unfolding has_section put_section assertion put_policy emplace
add_tokens [] model = err undefined
add_tokens (key ∷ new_tokens) model =
    let sec = take 1 key in
    let model' = if has_section model sec then model else put_section sec [] model in
    (do
      a ← assertion model' sec key
      ok (put_policy sec key a (emplace a.policy new_tokens) model'))

-- `LoadPolicyLine`; a limit of −1 is none.
unfoldable pub load_policy_line : Text → Model → Result Model
unfolding split trim
load_policy_line line model =
    if is_ignored line then ok model else add_tokens (map trim (split line (str ",") 0)) model

pub record FileAdapter : Type 0 where
  pub file_path : Text
  pub filtered : Bool

unfoldable pub new_file_adapter : Text → FileAdapter
new_file_adapter path = record { file_path = path; filtered = false }

abbrev add_first : ℕ → List Text → List Text
add_first c [] = (c ∷ []) ∷ []
add_first c (l ∷ ls) = (c ∷ l) ∷ ls

-- The lines that `getline` reads; what follows the last newline is a line unless it is empty.
unfoldable pub file_lines : Text → List Text
file_lines [] = []
file_lines (c ∷ s) = if nat_eq c 10 then [] ∷ file_lines s else add_first c (file_lines s)

-- The handler on each line, trimmed.
unfoldable pub load_lines : (Text → Model → Result Model) → List Text → Model → Result Model
unfolding trim
load_lines handler [] model = ok model
load_lines handler (l ∷ ls) model = do model' ← handler (trim l) model; load_lines handler ls model'

-- `LoadPolicyFile`: a file that cannot be opened throws nothing and has no line.
unfoldable pub load_policy_file :
    FileAdapter → Assoc Text → (Text → Model → Result Model) → Model → Result Model
unfolding file_lines load_lines lookup
load_policy_file a disk handler model = elim (lookup a.file_path disk) [
  | none ↦ ok model
  | some text ↦ load_lines handler (file_lines text) model
]

unfoldable pub load_policy : FileAdapter → Assoc Text → Model → Result Model
unfolding load_policy_file load_policy_line
load_policy a disk model =
    if a.file_path == [] then err adapter else load_policy_file a disk load_policy_line model

-- The lines of one definition.
unfoldable pub rule_lines : Text → List Rule → Result Text
unfolding array_to_string
rule_lines key [] = ok []
rule_lines key (r ∷ rs) = do
  fields ← array_to_string r
  rest ← rule_lines key rs
  ok (key ++ (str ", " ++ (fields ++ (10 ∷ rest))))

unfoldable pub section_lines : AssertionMap → Result Text
unfolding rule_lines
section_lines [] = ok []
section_lines ((key, a) ∷ rest) = do
  here ← rule_lines key (rules_of a.policy)
  later ← section_lines rest
  ok (here ++ later)

module _ (can_open : Text → Bool) where
  unfoldable pub save_policy_file : FileAdapter → Text → Assoc Text → Result (Assoc Text)
  unfolding insert
  save_policy_file a text disk =
      if can_open a.file_path then ok (insert a.file_path text disk) else err io

  -- The lines of both sections written, when they are there, and the model at that point.
  abbrev pub save_rest :
      FileAdapter
      → Result Text
      → Result Text
      → Model
      → Model
      → Assoc Text
      → Result (Assoc Text) × Model
  unfolding save_policy_file rtrim
  save_rest a (err e) g_lines model1 model2 disk = (err e, model1)
  save_rest a (ok p_lines) (err e) model1 model2 disk = (err e, model2)
  save_rest a (ok p_lines) (ok g_lines) model1 model2 disk =
      (save_policy_file a (rtrim (10 ∷ []) (p_lines ++ g_lines)) disk, model2)

  -- `SavePolicy`, which makes the sections "p" and "g" where the model has none.
  unfoldable pub save_policy : FileAdapter → Model → Assoc Text → Result (Assoc Text) × Model
  unfolding save_rest section_lines section put_section
  save_policy a model disk =
      let model1 = put_section (str "p") (section model (str "p")) model in
      let model2 = put_section (str "g") (section model1 (str "g")) model1 in
      let p_lines = section_lines (section model1 (str "p")) in
      let g_lines = section_lines (section model2 (str "g")) in
      if a.file_path == []
      then (err adapter, model)
      else save_rest a p_lines g_lines model1 model2 disk

unfoldable pub add_policy : FileAdapter → Text → Text → Rule → Result (Unit {0})
add_policy a sec p_type rule = err unsupported_operation

unfoldable pub remove_policy : FileAdapter → Text → Text → Rule → Result (Unit {0})
remove_policy a sec p_type rule = err unsupported_operation

unfoldable pub remove_filtered_policy :
    FileAdapter → Text → Text → ℕ → List Text → Result (Unit {0})
remove_filtered_policy a sec p_type index values = err unsupported_operation

unfoldable pub is_filtered : FileAdapter → Bool
is_filtered a = a.filtered

unfoldable pub is_valid : FileAdapter → Bool
unfolding ◌==◌
is_valid a = not (a.file_path == [])

-- `BatchFileAdapter`
unfoldable pub add_policies : FileAdapter → Text → Text → PoliciesValues → Result (Unit {0})
add_policies a sec p_type rules = err unsupported_operation

unfoldable pub remove_policies : FileAdapter → Text → Text → PoliciesValues → Result (Unit {0})
remove_policies a sec p_type rules = err unsupported_operation
