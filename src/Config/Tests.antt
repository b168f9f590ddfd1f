-- ===== src/Config/Tests.antt =====
-- Configurations, run on small texts.
use casbin_cpp.Base.{
  ◌==◌, true, false, none, some, [], ◌∷◌, Text, str, ok, err, illegal_argument, ◌≡◌, refl, ◌↔◌,
  Result,
}
use casbin_cpp.Base.Assoc.{Assoc, lookup}
use casbin_cpp.Util.Split.{split}
use casbin_cpp.Config.{Config, empty_config, parse, set, get, new_config_from_text, add_config}
use casbin_cpp.Config.Get.{place, get-set}
use casbin_cpp.Config.Lock.{is_broken, parse_locks_iff}

abbrev small_text : Text
small_text = str "# policy\n[m]\n a = x=y \n\nb=1,2"

get_test :
    new_config_from_text small_text
    ≡ ok
        (record { section_data = (str "m", (str "a", str "x=y") ∷ (str "b", str "1,2") ∷ []) ∷ [] })
unfolding new_config_from_text ◌==◌
get_test = refl

get-set_example :
    (c' : Config) × (set (str "m::a") (str "v") false empty_config ≡ some (ok c', false))
    × (get (str "m::a") c' ≡ str "v")
    × ((other : Text)
        → (¬ (place other ≡ place (str "m::a")))
        → get other c' ≡ get other empty_config)
unfolding ◌==◌ split
get-set_example = get-set (str "m::a") (str "v") empty_config refl refl

-- A line without "=".
abbrev bad_disk : Assoc Text
bad_disk = (str "a", str "# p\n[m]\nx") ∷ []

parse_locks_iff_example :
    (r : Result Config) × (parse bad_disk (str "a") false empty_config ≡ some (r, true))
    × (true ≡ true → r ≡ err illegal_argument)
    × (true ≡ false → (c' : Config) × (r ≡ ok c'))
    × ((disk' : Assoc Text) (name' : Text) (c' : Config)
        → (parse disk' name' true c' ≡ none) ↔ (true ≡ true))
    × ((key value : Text) (c' : Config) → (set key value true c' ≡ none) ↔ (true ≡ true))
unfolding ◌==◌ lookup is_broken
parse_locks_iff_example = parse_locks_iff bad_disk (str "a") (str "# p\n[m]\nx") empty_config refl

-- A comment, a section and an option: no line is malformed.
broken_test : is_broken (str "# p\n\n[m]\na = b") ≡ false
unfolding is_broken ◌==◌
broken_test = refl

-- An empty line is passed over, a line of blanks is not.
blank_line_test : new_config_from_text (str "[m]\n  \na=b") ≡ err illegal_argument
unfolding new_config_from_text ◌==◌
blank_line_test = refl

-- Under an empty section, what was set is not what is got.
set_get_test : get (str "::a") (add_config [] (str "a") (str "v") empty_config).1 ≡ []
unfolding get add_config ◌==◌
set_get_test = refl
