-- ===== src/Config.antt =====
-- casbin/config/config.cpp: `data`, here `section_data`, maps sections to their options. The mutex
-- of all configurations, `mtx_lock`, is a flag, and a call that waits for a lock its own thread
-- holds never returns: `none`.
pub mod Get
pub mod Lock
pub mod Tests
use casbin_cpp.Base.{
  ℕ, Bool, true, false, not, ◌&&◌, Option, none, some, List, [], ◌∷◌, Text, str, ◌==◌,
  if◌then◌else◌, nat_eq, drop, take, length, ◌-◌, Result, ok, err, undefined, illegal_argument,
  ◌>>=◌,
}
use casbin_cpp.Base.Assoc.{Assoc, lookup, insert}
use casbin_cpp.Util.Trim.{trim, ends_with}
use casbin_cpp.Util.Split.{split}
use casbin_cpp.Persist.{file_lines}

pub record Config : Type 0 where
  pub section_data : Assoc (Assoc Text)

abbrev pub default_section : Text
default_section = str "default"

unfoldable pub section_of : Text → Config → Assoc Text
unfolding lookup
section_of section c = elim (lookup section c.section_data) [ none ↦ [] | some options ↦ options ]

unfoldable pub has_option : Text → Assoc Text → Bool
unfolding lookup
has_option option options = elim (lookup option options) [ none ↦ false | some v ↦ true ]

-- `AddConfig`: was the option new?
unfoldable pub add_config : Text → Text → Text → Config → Bool × Config
unfolding section_of has_option insert
add_config section option value c =
    let sec = if section == [] then default_section else section in
    (
      not (has_option option (section_of sec c)),
      record c {
        section_data = insert sec (insert option value (section_of sec c)) c.section_data;
      },
    )

-- `line.find(…) == 0` of one character
abbrev pub begins_with : ℕ → Text → Bool
begins_with c [] = false
begins_with c (d ∷ line) = nat_eq d c

-- The two parts of `Split(line, "=", 2)`.
abbrev pub add_option : Text → List Text → Config → Result (Text × Config)
unfolding add_config trim
add_option section (option ∷ value ∷ []) c =
    ok (section, (add_config section (trim option) (trim value) c).1)
add_option section parts c = err illegal_argument

-- One line, trimmed, in a section: the section of the next line, and the configuration.
unfoldable pub parse_line : Text → Text → Config → Result (Text × Config)
unfolding add_option split ends_with
parse_line line section c =
    let as_option = add_option section (split line (str "=") 2) c in
    let name = take (length line - 2) (drop 1 line) in
    if begins_with b'#' line
    then ok (section, c)
    else if begins_with b';' line
    then ok (section, c)
    else if begins_with b'[' line
    then (do closed ← ends_with line (str "]"); if closed then ok (name, c) else as_option)
    else as_option

-- `ParseBuffer`, line after line. A line that is empty before it is trimmed is passed over.
unfoldable pub parse_lines : List Text → Text → Config → Result Config
unfolding parse_line trim
parse_lines [] section c = ok c
parse_lines (line ∷ rest) section c =
    let later = parse_lines rest in
    if line == []
    then later section c
    else (do (section', c') ← parse_line (trim line) section c; later section' c')

unfoldable pub parse_buffer : Text → Config → Result Config
unfolding parse_lines file_lines
parse_buffer text c = parse_lines (file_lines text) [] c

-- An exception of `ParseBuffer` passes the call of `unlock`.
abbrev pub leave : Result Config → Config → Result Config × Bool
leave (ok c') c = (ok c', false)
leave (err e) c = (err e, true)

-- `Parse`, with the state of the mutex: a file that cannot be opened throws nothing and is empty.
unfoldable pub parse : Assoc Text → Text → Bool → Config → Option (Result Config × Bool)
unfolding parse_buffer lookup
parse disk f_name locked c =
    let text : Text = elim (lookup f_name disk) [ none ↦ [] | some t ↦ t ] in
    if locked then none else some (leave (parse_buffer text c) c)

abbrev pub empty_config : Config
empty_config = record { section_data = [] }

unfoldable pub new_config : Assoc Text → Text → Bool → Option (Result Config × Bool)
unfolding parse
new_config disk conf_name locked = parse disk conf_name locked empty_config

unfoldable pub new_config_from_text : Text → Result Config
unfolding parse_buffer
new_config_from_text text = parse_buffer text empty_config

-- The section and the option that `Get` reads.
abbrev pub get_place : List Text → Text × Text
get_place [] = (default_section, [])
get_place (option ∷ []) = (default_section, option)
get_place (section ∷ option ∷ more) = (section, option)

-- Those that `Set` writes: an empty section is not yet the default one.
abbrev pub set_place : List Text → Text × Text
set_place [] = ([], [])
set_place (option ∷ []) = ([], option)
set_place (section ∷ option ∷ more) = (section, option)

unfoldable pub value_at : Text → Text → Config → Text
unfolding section_of lookup
value_at section option c = elim (lookup option (section_of section c)) [ none ↦ [] | some v ↦ v ]

unfoldable pub get : Text → Config → Text
unfolding value_at split
get key c = let (section, option) = get_place (split key (str "::") 0) in value_at section option c

unfoldable pub set : Text → Text → Bool → Config → Option (Result Config × Bool)
unfolding add_config split
set key value locked c =
    let (section, option) = set_place (split key (str "::") 0) in
    if locked
    then none
    else if key == []
    then some (err illegal_argument, false)
    else some (ok (add_config section option value c).1, false)

unfoldable pub get_bool : Text → Config → Bool
unfolding get
get_bool key c = get key c == str "true"

unfoldable pub get_string : Text → Config → Text
unfolding get
get_string key c = get key c

unfoldable pub get_strings : Text → Config → List Text
unfolding get split
get_strings key c = if get key c == [] then [] else split (get key c) (str ",") 0
