-- ===== src/Config/Get.antt =====
-- What `Get` reads after `Set`.
use casbin_cpp.Base.{
  false, ◌&&◌, some, List, [], ◌∷◌, Text, str, ◌==◌, ==_iff, ==_refl, ok, ◌≡◌, refl, sym, ◌∙◌,
  if◌then◌else◌, inl, inr, Bool-cases,
}
use casbin_cpp.Base.Assoc.{insert, lookup-insert}
use casbin_cpp.Util.Split.{split}
use casbin_cpp.Config.{
  Config, default_section, section_of, add_config, get_place, set_place, value_at, get, set,
}

abbrev pub place : Text → Text × Text
place key = get_place (split key (str "::") 0)

written : Text → Text → Text → Config → Config
written section option value c = record c {
  section_data = insert section (insert option value (section_of section c)) c.section_data;
}

-- The option that was written, read, and any other one.
value_at-written :
    (section option value s o : Text) (c : Config)
    → value_at s o (written section option value c)
      ≡ (if section == s && option == o then value else value_at s o c)
unfolding value_at section_of written
value_at-written section option value s o c = elim (Bool-cases (section == s)) [
  | inl e ↦
      let same : section ≡ s = (==_iff section s).0 e in
      rw
        (
          lookup-insert section s (insert option value (section_of section c)) c.section_data,
          e,
          value_at,
        )
        (rw (lookup-insert option o value (section_of section c))
          (elim (Bool-cases (option == o)) [ inl f ↦ rw f refl | inr f ↦ rw (← same, f) refl ]))
  | inr e ↦
      rw
        (
          lookup-insert section s (insert option value (section_of section c)) c.section_data,
          e,
          value_at,
        )
        refl
]

add_config-written :
    (section option value : Text) (c : Config)
    → (section == []) ≡ false
    → (add_config section option value c).1 ≡ written section option value c
unfolding add_config written
add_config-written section option value c named = rw named refl

-- An option without a section is written where it is read: in the default section.
add_config-default :
    (option value : Text) (c : Config)
    → (add_config [] option value c).1 ≡ written default_section option value c
unfolding add_config written ◌==◌
add_config-default option value c = refl

set_place-get_place :
    (parts : List Text) (value : Text) (c : Config)
    → ((get_place parts).0 == []) ≡ false
    → (add_config (set_place parts).0 (set_place parts).1 value c).1
      ≡ written (get_place parts).0 (get_place parts).1 value c
set_place-get_place [] value c named = add_config-default [] value c
set_place-get_place (option ∷ []) value c named = add_config-default option value c
set_place-get_place (section ∷ option ∷ more) value c named =
    add_config-written section option value c named

get_lem : (key : Text) (c : Config) → get key c ≡ value_at (place key).0 (place key).1 c
unfolding get
get_lem key c = refl

set_lem :
    (key value : Text) (c : Config)
    → (key == []) ≡ false
    → ((place key).0 == []) ≡ false
    → set key value false c ≡ some (ok (written (place key).0 (place key).1 value c), false)
unfolding set
set_lem key value c present named =
    rw (present, set_place-get_place (split key (str "::") 0) value c named) refl

-- The text that another place reads is none of those just written.
elsewhere : (p q : Text × Text) → (¬ (p ≡ q)) → (q.0 == p.0 && q.1 == p.1) ≡ false
elsewhere (s, o) (section, option) ne = elim (Bool-cases (section == s)) [
  | inl e ↦ elim (Bool-cases (option == o)) [
    | inl f ↦ absurd (ne (rw ((==_iff section s).0 e, (==_iff option o).0 f) refl))
    | inr f ↦ rw (e, f) refl
  ]
  | inr e ↦ rw e refl
]

-- With the mutex free, `Set` of a key that is not empty and does not begin with "::" returns; then
-- `Get` of the key reads the value, and of every key with another section or option what it read
-- before.
pub get-set :
    (key value : Text) (c : Config)
    → (key == []) ≡ false
    → ((place key).0 == []) ≡ false
    → (c' : Config) × (set key value false c ≡ some (ok c', false))
      × (get key c' ≡ value)
      × ((other : Text) → (¬ (place other ≡ place key)) → get other c' ≡ get other c)
get-set key value c present named =
    let (section, option) = place key in
    (
      written section option value c,
      set_lem key value c present named,
      get_lem key (written section option value c)
          ∙ value_at-written section option value section option c
          ∙ rw (==_refl section, ==_refl option) refl,
      λ other ne.
          get_lem other (written section option value c)
          ∙ value_at-written section option value (place other).0 (place other).1 c
          ∙ rw (elsewhere (place other) (place key) ne) (sym (get_lem other c)),
    )
