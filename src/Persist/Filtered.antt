-- ===== src/Persist/Filtered.antt =====
-- casbin/persist/file_adapter/filtered_file_adapter.cpp.
use casbin_cpp.Base.{
  ℕ, zero, suc, ◌+◌, Bool, true, false, not, ◌&&◌, Option, none, some, List, [], ◌∷◌, Text, str,
  ◌==◌, if◌then◌else◌, ltb, length, ◌≡◌, refl, Result, ok, err, undefined, adapter, ◌>>=◌,
}
use casbin_cpp.Base.Assoc.{Assoc, lookup}
use casbin_cpp.Util.Trim.{trim}
use casbin_cpp.Util.Split.{split}
use casbin_cpp.Model.{Model}
use casbin_cpp.Persist.{FileAdapter, file_lines, load_policy_line, load_policy}

pub record Filter : Type 0 where
  pub p : List Text
  pub g : List Text

-- The loop of `filterWords`. Where it finds no difference, the answer was never written.
unfoldable pub filter_loop : List Text → List Text → Result Bool
unfolding trim ◌==◌
filter_loop words [] = err undefined
filter_loop [] (f ∷ fs) = err undefined
filter_loop (w ∷ ws) (f ∷ fs) =
    let rest = filter_loop ws fs in
    if not (f == []) && not (trim f == trim w) then ok true else rest

unfoldable pub filter_words : List Text → List Text → Result Bool
unfolding filter_loop
filter_words [] filter = ok true
filter_words (w ∷ ws) filter =
    if ltb (length (w ∷ ws)) (length filter + 1) then ok true else filter_loop ws filter

abbrev filter_slice : Filter → List Text → List Text
unfolding trim ◌==◌
filter_slice f [] = []
filter_slice f (w ∷ ws) = if trim w == str "p" then f.p else if trim w == str "g" then f.g else []

-- `filterLine`: is the line left out? A null filter leaves out none.
unfoldable pub filter_line : Text → Option Filter → Result Bool
unfolding split filter_words
filter_line line none = ok false
filter_line line (some f) = let p = split line (str ",") 0 in filter_words p (filter_slice f p)

unfoldable pub load_filtered_lines : List Text → Option Filter → Model → Result Model
unfolding trim filter_line load_policy_line
load_filtered_lines [] filter model = ok model
load_filtered_lines (l ∷ ls) filter model = do
  out ← filter_line (trim l) filter
  model' ← (if out then ok model else load_policy_line (trim l) model)
  load_filtered_lines ls filter model'

unfoldable pub load_filtered_policy_file :
    FileAdapter → Assoc Text → Option Filter → Model → Result Model
unfolding load_filtered_lines file_lines lookup
load_filtered_policy_file a disk filter model = elim (lookup a.file_path disk) [
  | none ↦ ok model
  | some text ↦ load_filtered_lines (file_lines text) filter model
]

unfoldable pub new_filtered_file_adapter : Text → FileAdapter
new_filtered_file_adapter path = record { file_path = path; filtered = true }

unfoldable pub load_policy_filtered : FileAdapter → Assoc Text → Model → Result Model × FileAdapter
unfolding load_policy
load_policy_filtered a disk model = (load_policy a disk model, record a { filtered = false })

-- The filter of the rest of `LoadFilteredPolicy`, and the flag at the end.
abbrev load_rest : FileAdapter → Assoc Text → Option Filter → Model → Result Model × FileAdapter
unfolding load_filtered_policy_file ◌==◌
load_rest a disk filter model =
    if a.file_path == []
    then (err adapter, a)
    else elim (load_filtered_policy_file a disk filter model) [
      | err e ↦ (err e, a)
      | ok model' ↦ (ok model', record a { filtered = true })
    ]

-- `LoadFilteredPolicy`: a null filter loads the policy, and goes on.
unfoldable pub load_filtered_policy :
    FileAdapter → Assoc Text → Option Filter → Model → Result Model × FileAdapter
unfolding load_policy_filtered load_filtered_policy_file
load_filtered_policy a disk (some f) model = load_rest a disk (some f) model
load_filtered_policy a disk none model = elim (load_policy a disk model) [
  | err e ↦ (err e, record a { filtered = false })
  | ok model' ↦ load_rest (record a { filtered = false }) disk none model'
]

-- `SavePolicy` calls itself, with so many calls left.
unfoldable pub save_policy_filtered : ℕ → FileAdapter → Option (Result (Unit {0}))
save_policy_filtered zero a = none
save_policy_filtered (suc n) a =
    let again = save_policy_filtered n a in if a.filtered then some (err adapter) else again

-- `SavePolicy` of a `FilteredFileAdapter` never saves: with a filtered policy it throws, and else
-- no number of nested calls is enough for it to return.
pub save_policy_filtered_lem :
    (a : FileAdapter) (n : ℕ)
    → (a.filtered ≡ true → save_policy_filtered (suc n) a ≡ some (err adapter))
      × (a.filtered ≡ false → save_policy_filtered n a ≡ none)
unfolding save_policy_filtered
save_policy_filtered_lem a zero = (λ h. simp h, λ h. refl)
save_policy_filtered_lem a (suc n) =
    (λ h. simp h, λ h. simp (h, (save_policy_filtered_lem a n).1 h))
