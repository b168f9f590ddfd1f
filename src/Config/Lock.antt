-- ===== src/Config/Lock.antt =====
-- Which contents make `Parse` throw, and what it leaves of the mutex of the configurations.
use casbin_cpp.Base.{
  ℕ, suc, ◌+◌, leb, ◌-◌, Bool, true, false, not, ◌&&◌, none, some, List, [], ◌∷◌, Text, str, ◌==◌,
  nat_eq, any, take, drop, length, Result, ok, err, illegal_argument, ◌≡◌, ◌↔◌, refl, ap, inl, inr,
  arith, Bool-cases,
}
use casbin_cpp.Base.Assoc.{Assoc, lookup}
use casbin_cpp.Util.Trim.{trim, ends_with}
use casbin_cpp.Util.Split.{find, split, split_rounds}
use casbin_cpp.Persist.{file_lines}
use casbin_cpp.Config.{
  leave, Config, begins_with, add_option, parse_line, parse_lines, parse_buffer, parse, set,
}

abbrev has_char : ℕ → Text → Bool
has_char c s = any (λ d. nat_eq d c) s

abbrev last_is : ℕ → Text → Bool
last_is c [] = false
last_is c (d ∷ []) = nat_eq d c
last_is c (d ∷ e ∷ s) = last_is c (e ∷ s)

-- A trimmed line that is no comment, no section in brackets, and has no "=".
abbrev has_no_sense : Text → Bool
has_no_sense t =
    not (begins_with b'#' t)
    && (not (begins_with b';' t)
        && (not (begins_with b'[' t && last_is b']' t) && not (has_char b'=' t)))

-- A line that is not empty, of which that holds when it is trimmed.
unfoldable pub malformed : Text → Bool
unfolding ◌==◌ trim
malformed line = not (line == []) && has_no_sense (trim line)

find-absent : (c : ℕ) (s : Text) → has_char c s ≡ false → find (c ∷ []) s ≡ none
unfolding find ◌==◌
find-absent c [] h = refl
find-absent c (d ∷ s) h = ground (arith, find-absent c s)

find-present : (c : ℕ) (s : Text) → has_char c s ≡ true → (p : ℕ) × (find (c ∷ []) s ≡ some p)
unfolding find ◌==◌
find-present c [] h = absurd cc
find-present c (d ∷ s) h = elim (Bool-cases (nat_eq d c)) [
  | inl e ↦ (0, ground arith)
  | inr e ↦ let (p, there) = find-present c s (ground arith) in (suc p, ground (arith, there))
]

last_one : (c d : ℕ) (s : Text) → (take 1 (drop (length s) (d ∷ s)) == (c ∷ [])) ≡ last_is c (d ∷ s)
unfolding ◌==◌
last_one c d [] = ground arith
last_one c d (x ∷ s) = last_one c x s

ends_with-last : (c d : ℕ) (s : Text) → ends_with (d ∷ s) (c ∷ []) ≡ ok (last_is c (d ∷ s))
unfolding ends_with
ends_with-last c d s =
    let fits : leb 1 (length (d ∷ s)) ≡ true = ground arith in
    let start : length (d ∷ s) - 1 ≡ length s = omega arith in
    rw fits (rw start (ap ok (last_one c d s)))

split-absent : (t : Text) → has_char b'=' t ≡ false → split t (str "=") 2 ≡ t ∷ []
unfolding split split_rounds
split-absent t h = rw (find-absent b'=' t h, split_rounds) refl

split-present :
    (t : Text)
    → has_char b'=' t ≡ true
    → (option : Text) × (value : Text) × (split t (str "=") 2 ≡ option ∷ value ∷ [])
unfolding split split_rounds
split-present t h =
    let (p, there) = find-present b'=' t h in
    (take p t, drop (p + 1) t, rw (there, split_rounds) refl)

-- What a line without "=", and one with it, is as an option.
option-absent :
    (t section : Text) (c : Config)
    → has_char b'=' t ≡ false
    → add_option section (split t (str "=") 2) c ≡ err illegal_argument
unfolding add_option
option-absent t section c h = ap (λ parts. add_option section parts c) (split-absent t h)

option-present :
    (t section : Text) (c : Config)
    → has_char b'=' t ≡ true
    → (s' : Text) × (c' : Config) × (add_option section (split t (str "=") 2) c ≡ ok (s', c'))
unfolding add_option
option-present t section c h =
    let (option, value, e) = split-present t h in (_, _, ap (λ parts. add_option section parts c) e)

parse_line-malformed :
    (t section : Text) (c : Config)
    → has_no_sense t ≡ true
    → parse_line t section c ≡ err illegal_argument
unfolding parse_line
parse_line-malformed [] section c h = option-absent [] section c refl
parse_line-malformed (d ∷ s) section c h =
    rw (ends_with-last b']' d s) (ground (arith, option-absent (d ∷ s) section c))

parse_line-sense :
    (t section : Text) (c : Config)
    → has_no_sense t ≡ false
    → (s' : Text) × (c' : Config) × (parse_line t section c ≡ ok (s', c'))
unfolding parse_line
parse_line-sense [] section c h = absurd cc
parse_line-sense (d ∷ s) section c h = elim (Bool-cases (begins_with b'#' (d ∷ s))) [
  | inl e ↦ (section, c, ground arith)
  | inr e ↦ elim (Bool-cases (begins_with b';' (d ∷ s))) [
    | inl f ↦ (section, c, ground arith)
    | inr f ↦ elim (Bool-cases (begins_with b'[' (d ∷ s) && last_is b']' (d ∷ s))) [
      | inl g ↦ (take (length (d ∷ s) - 2) s, c, rw (ends_with-last b']' d s) (ground arith))
      | inr g ↦
          let (s', c', o) = option-present (d ∷ s) section c (ground arith) in
          (s', c', rw (ends_with-last b']' d s) (ground (arith, o)))
    ]
  ]
]

-- The loop over the lines: it throws when one is malformed, whatever was read before.
parse_lines-malformed :
    (ls : List Text) (section : Text) (c : Config)
    → any malformed ls ≡ true
    → parse_lines ls section c ≡ err illegal_argument
unfolding parse_lines malformed
parse_lines-malformed [] section c h = absurd cc
parse_lines-malformed (l ∷ ls) section c h = elim (Bool-cases (l == [])) [
  | inl e ↦ rw e (parse_lines-malformed ls section c (ground arith))
  | inr e ↦ elim (Bool-cases (has_no_sense (trim l))) [
    | inl f ↦ rw e (rw (parse_line-malformed (trim l) section c f) refl)
    | inr f ↦
        let (s', c', g) = parse_line-sense (trim l) section c f in
        rw e (rw g (parse_lines-malformed ls s' c' (ground arith)))
  ]
]

parse_lines-sense :
    (ls : List Text) (section : Text) (c : Config)
    → any malformed ls ≡ false
    → (c' : Config) × (parse_lines ls section c ≡ ok c')
unfolding parse_lines malformed
parse_lines-sense [] section c h = (c, refl)
parse_lines-sense (l ∷ ls) section c h = elim (Bool-cases (l == [])) [
  | inl e ↦ rw e (parse_lines-sense ls section c (ground arith))
  | inr e ↦
      let (s', c', g) = parse_line-sense (trim l) section c (ground arith) in
      rw e (rw g (parse_lines-sense ls s' c' (ground arith)))
]

set_returns : (key value : Text) (c : Config) → ¬ (set key value false c ≡ none)
unfolding set
set_returns key value c h = elim (Bool-cases (key == [])) [
  | inl e ↦ absurd (ground arith)
  | inr e ↦ absurd (ground arith)
]

-- Does a text have a malformed line?
unfoldable pub is_broken : Text → Bool
unfolding file_lines malformed
is_broken text = any malformed (file_lines text)

-- For a file that is there, `Parse` with the mutex free returns or throws, and leaves the mutex
-- locked exactly when the file has a malformed line: one that is not empty and, trimmed, is no
-- comment, no section in brackets, and has no "=". With such a line it throws
-- IllegalArgumentException, whatever else stands in the file and in the configuration; without one
-- it returns. The next call of `Parse`, on any configuration and file, waits for ever exactly when
-- the file had such a line, and so does the next call of `Set`.
pub parse_locks_iff :
    (disk : Assoc Text) (f_name text : Text) (c : Config)
    → lookup f_name disk ≡ some text
    → (r : Result Config) × (parse disk f_name false c ≡ some (r, is_broken text))
      × (is_broken text ≡ true → r ≡ err illegal_argument)
      × (is_broken text ≡ false → (c' : Config) × (r ≡ ok c'))
      × ((disk' : Assoc Text) (name' : Text) (c' : Config)
          → (parse disk' name' (is_broken text) c' ≡ none) ↔ (is_broken text ≡ true))
      × ((key value : Text) (c' : Config)
          → (set key value (is_broken text) c' ≡ none) ↔ (is_broken text ≡ true))
unfolding parse parse_buffer is_broken set
parse_locks_iff disk f_name text c there = elim (Bool-cases (is_broken text)) [
  | inl b ↦ (
    err illegal_argument,
    rw (there, b) (ap (λ r. some (leave r c)) (parse_lines-malformed (file_lines text) [] c b)),
    λ _. refl,
    λ f. absurd cc,
    λ disk' name' c'. rw b (λ _. refl, λ _. refl),
    λ key value c'. rw b (λ _. refl, λ _. refl),
  )
  | inr b ↦
      let (c', e) = parse_lines-sense (file_lines text) [] c b in
      (
        ok c',
        rw (there, b) (ap (λ r. some (leave r c)) e),
        λ t. absurd cc,
        λ _. (c', refl),
        λ disk' name' c''. rw b (λ t. absurd cc, λ t. absurd cc),
        λ key value c''. rw b (λ t. absurd (set_returns key value c'' t), λ t. absurd cc),
      )
]
