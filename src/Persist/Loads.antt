-- ===== src/Persist/Loads.antt =====
-- What loading does to one section of the model: the lines of its rules, read in turn.
use mathlib.Core.List.{append-nil}
use casbin_cpp.Base.{
  ℕ, ◌<◌, true, false, some, List, [], ◌∷◌, ◌++◌, Text, str, ==_iff, Rule, nat_eq, take, map,
  length, In, ◌≡◌, refl, ap, ◌∙◌, arith, if◌then◌else◌, ok,
}
use casbin_cpp.Base.Assoc.{lookup, insert, keys}
use casbin_cpp.Util.Trim.{blanks, LastKept, trim}
use casbin_cpp.Util.Trim.Whole.{trim-Kept, LastKept-after}
use casbin_cpp.Util.Split.{split, join_rest, large}
use casbin_cpp.Policy.{emplace}
use casbin_cpp.Assertion.{Assertion}
use casbin_cpp.Model.{Model, AssertionMap, has_section, section, put_section, assertion, put_policy}
use casbin_cpp.Persist.{is_ignored, add_tokens, load_policy_line}
use casbin_cpp.Persist.Line.{Plain, AllPlain, parts_of_line}

-- The line of one rule.
abbrev pub line : Text → Rule → Text
line key r = key ++ join_rest (str ", ") r

-- Not empty, of plain texts, and not longer than `Split` can count.
abbrev pub GoodRule : Rule → Type 0
GoodRule [] = ⊥
GoodRule (x ∷ xs) = AllPlain (x ∷ xs) × (length (x ∷ xs) < large)

-- A plain name that begins with the section's letter.
abbrev pub GoodKey : ℕ → Text → Type 0
GoodKey sec [] = ⊥
GoodKey sec (c ∷ key) = (c ≡ sec) × Plain (c ∷ key)

LastKept-join_rest :
    (x : Text) (xs : List Text)
    → AllPlain (x ∷ xs)
    → LastKept blanks (join_rest (str ", ") (x ∷ xs))
unfolding join_rest
LastKept-join_rest [] xs h = absurd h.0
LastKept-join_rest (c ∷ x) [] h = rw (append-nil x) h.0.0.1
LastKept-join_rest (c ∷ x) (y ∷ ys) h =
    LastKept-after blanks (44 ∷ 32 ∷ c ∷ x) 44 (32 ∷ (y ++ join_rest (str ", ") ys))
      (LastKept-join_rest y ys h.1)

trim-line :
    (sec : ℕ) (key : Text) (r : Rule)
    → GoodKey sec key
    → GoodRule r
    → trim (line key r) ≡ line key r
unfolding join_rest
trim-line sec [] r k g = absurd k
trim-line sec key [] k g = absurd g
trim-line sec (c ∷ key) (x ∷ xs) k g = trim-Kept (line (c ∷ key) (x ∷ xs)) (
  k.1.0.0,
  LastKept-after blanks (c ∷ key) 44 (32 ∷ (x ++ join_rest (str ", ") xs))
      (LastKept-join_rest x xs g.0),
)

-- The assertion in the map, between what stands before it and what stands behind.
insert-middle :
    (key : Text) (v w : Assertion) (pre post : AssertionMap)
    → (¬ In key (keys pre))
    → insert key v (pre ++ (key, w) ∷ post) ≡ pre ++ (key, v) ∷ post
unfolding insert
insert-middle key v w [] post h = ground (arith, ==_iff key key)
insert-middle key v w ((j, u) ∷ pre) post h =
    ground (arith, ==_iff j key, h, insert-middle key v w pre post)

lookup-middle :
    (key : Text) (w : Assertion) (pre post : AssertionMap)
    → (¬ In key (keys pre))
    → lookup key (pre ++ (key, w) ∷ post) ≡ some w
unfolding lookup
lookup-middle key w [] post h = ground (arith, ==_iff key key)
lookup-middle key w ((j, u) ∷ pre) post h =
    ground (arith, ==_iff j key, h, lookup-middle key w pre post)

starts : (sec : ℕ) (key : Text) → GoodKey sec key → take 1 key ≡ sec ∷ []
starts sec [] k = absurd k
starts sec (c ∷ key) k = ap (λ t. t ∷ []) k.0

is_ignored-line :
    (sec : ℕ) (key : Text) (r : Rule)
    → nat_eq sec b'#' ≡ false
    → GoodKey sec key
    → is_ignored (line key r) ≡ false
is_ignored-line sec [] r apart k = absurd k
is_ignored-line sec (c ∷ key) r apart k = rw k.0 apart

tokens_of :
    (t : Text) (tokens : List Text) (m : Model)
    → is_ignored t ≡ false
    → map trim (split t (str ",") 0) ≡ tokens
    → load_policy_line t m ≡ add_tokens tokens m
unfolding load_policy_line
tokens_of t tokens m h e =
    ap (λ b. if b then ok m else add_tokens (map trim (split t (str ",") 0)) m) h
    ∙ ap (λ ts. add_tokens ts m) e

tokens_of_line :
    (sec : ℕ) (key : Text) (r : Rule) (m : Model)
    → nat_eq sec b'#' ≡ false
    → GoodKey sec key
    → GoodRule r
    → load_policy_line (trim (line key r)) m ≡ add_tokens (key ∷ r) m
tokens_of_line sec [] r m apart k g = absurd k
tokens_of_line sec key [] m apart k g = absurd g
tokens_of_line sec (c ∷ key) (x ∷ xs) m apart k g =
    ap (λ t. load_policy_line t m) (trim-line sec (c ∷ key) (x ∷ xs) k g)
    ∙ tokens_of (line (c ∷ key) (x ∷ xs)) ((c ∷ key) ∷ x ∷ xs) m
        (is_ignored-line sec (c ∷ key) (x ∷ xs) apart k)
        (parts_of_line (c ∷ key) (x ∷ xs) k.1 g.0 g.1)

has_section-there :
    (sec : Text) (amap : AssertionMap) (m : Model)
    → lookup sec m.m ≡ some amap
    → (has_section m sec ≡ true) × (section m sec ≡ amap)
unfolding has_section section
has_section-there sec amap m there = (rw (there, has_section) refl, rw (there, section) refl)

assertion-there :
    (sec key : Text) (a : Assertion) (m : Model)
    → lookup key (section m sec) ≡ some a
    → assertion m sec key ≡ ok a
unfolding assertion
assertion-there sec key a m found = rw (found, assertion) refl

add_tokens-there :
    (sec : Text) (key : Text) (r : Rule) (a : Assertion) (amap : AssertionMap) (m : Model)
    → take 1 key ≡ sec
    → lookup sec m.m ≡ some amap
    → lookup key amap ≡ some a
    → add_tokens (key ∷ r) m
      ≡ ok (put_section sec (insert key (record a { policy = emplace a.policy r }) amap) m)
unfolding add_tokens put_policy
add_tokens-there sec key r a amap m e there found =
    let (has, sect) = has_section-there sec amap m there in
    rw (e, has, assertion-there sec key a m (rw sect found), sect) refl

-- One line adds its rule to the definition.
pub load_policy_line-line :
    (sec : ℕ) (key : Text) (r : Rule) (a : Assertion) (pre post : AssertionMap) (m : Model)
    → nat_eq sec b'#' ≡ false
    → GoodKey sec key
    → GoodRule r
    → lookup (sec ∷ []) m.m ≡ some (pre ++ (key, a) ∷ post)
    → (¬ In key (keys pre))
    → load_policy_line (trim (line key r)) m
      ≡ ok
          (put_section (sec ∷ []) (pre ++ (key, record a { policy = emplace a.policy r }) ∷ post) m)
load_policy_line-line sec key r a pre post m apart k g there fresh =
    tokens_of_line sec key r m apart k g
    ∙ add_tokens-there (sec ∷ []) key r a (pre ++ (key, a) ∷ post) m (starts sec key k) there
        (lookup-middle key a pre post fresh)
    ∙ ap (λ (x : AssertionMap). ok (put_section (sec ∷ []) x m))
        (insert-middle key (record a { policy = emplace a.policy r }) a pre post fresh)
