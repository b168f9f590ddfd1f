-- ===== src/Util/Eval.antt =====
-- casbin/util/eval.cpp and escape_assertion.cpp. The regular expression \beval\(([^)]*)\), in any
-- case, is searched by hand: the word at a boundary, a bracket, and the text up to the next ')'.
pub mod Calls
pub mod Replaced
use casbin_cpp.Base.{
  ℕ, zero, suc, ◌+◌, ◌≤◌, ◌<◌, Bool, true, false, not, ◌&&◌, ◌||◌, Option, none, some, List, [],
  ◌∷◌, ◌++◌, Text, str, ◌==◌, if◌then◌else◌, nat_eq, leb, map, length, take, drop, length-drop, ◌≡◌,
  refl, ap, ◌∙◌, inl, inr, arith, Option-cases,
}
use casbin_cpp.Base.Assoc.{Assoc, lookup}
use casbin_cpp.Util.Trim.{find_char}

abbrev pub between : ℕ → ℕ → ℕ → Bool
between lo hi c = leb lo c && leb c hi

abbrev pub is_letter : ℕ → Bool
is_letter c = between b'a' b'z' c || between b'A' b'Z' c

-- what `\w` matches
abbrev pub is_word : ℕ → Bool
is_word c = is_letter c || (between b'0' b'9' c || nat_eq c b'_')

unfoldable pub lower : ℕ → ℕ
lower c = if between b'A' b'Z' c then c + 32 else c

-- The match of the expression: what stands before it, the group, and what stands after it.
pub record EvalMatch : Type 0 where
  pub before : Text
  pub word : Text
  pub arg : Text
  pub after : Text

-- A match at the start of the text, `boundary` being whether `\b` holds there.
pub match_here : Bool → Text → Option EvalMatch
unfolding lower find_char ◌==◌
match_here boundary s =
    if boundary && map lower (take 5 s) == str "eval("
    then elim (find_char b')' (drop 5 s)) [
      | none ↦ none
      | some n ↦ some (record {
        before = [];
        word = take 5 s;
        arg = take n (drop 5 s);
        after = drop (suc n) (drop 5 s);
      })
    ]
    else none

unfoldable pub search_from : Bool → Text → Option EvalMatch
unfolding match_here
search_from boundary [] = none
search_from boundary (c ∷ s) =
    let later : Option EvalMatch = elim (search_from (not (is_word c)) s) [
      | none ↦ none
      | some m ↦ some (record m { before = c ∷ m.before })
    ] in
    elim (match_here boundary (c ∷ s)) [ some m ↦ some m | none ↦ later ]

-- `std::regex_search(s, m, evalReg)`
unfoldable pub eval_search : Text → Option EvalMatch
unfolding search_from
eval_search s = search_from true s

unfoldable pub has_eval : Text → Bool
unfolding eval_search
has_eval s = elim (eval_search s) [ none ↦ false | some m ↦ true ]

-- The loop of `GetEvalValue`, on fuel.
pub eval_values : ℕ → Text → List Text
unfolding eval_search
eval_values zero s = []
eval_values (suc n) s = elim (eval_search s) [ none ↦ [] | some m ↦ m.arg ∷ eval_values n m.after ]

unfoldable pub get_eval_value : Text → List Text
unfolding eval_values
get_eval_value s = eval_values (length s) s

-- The loop of `ReplaceEvalWithMap`, on fuel.
replaced : ℕ → Text → Assoc Text → Text
unfolding eval_search lookup
replaced zero src sets = src
replaced (suc n) src sets = elim (eval_search src) [
  | none ↦ src
  | some m ↦ m.before ++ (elim (lookup m.arg sets) [
    | some v ↦ v ++ replaced n m.after sets
    | none ↦ m.word ++ (m.arg ++ (str ")" ++ replaced n m.after sets))
  ])
]

unfoldable pub replace_eval_with_map : Text → Assoc Text → Text
unfolding replaced
replace_eval_with_map src sets = replaced (length src) src sets

-- The characters of [a-zA-Z0-9. ]
abbrev in_run : ℕ → Bool
in_run c = is_letter c || (between b'0' b'9' c || (nat_eq c b'.' || nat_eq c b' '))

-- In every run of such characters the first '.' becomes '_'; `done` is whether that of this run
-- has.
escape_from : Bool → Text → Text
escape_from done [] = []
escape_from done (c ∷ s) =
    let dot = nat_eq c b'.' && not done in
    (if dot then b'_' else c) ∷ escape_from (in_run c && (done || nat_eq c b'.')) s

unfoldable pub escape_assertion : Text → Text
unfolding escape_from
escape_assertion s = escape_from false s

length-find_char : (c : ℕ) (s : Text) (n : ℕ) → find_char c s ≡ some n → n < length s
unfolding find_char
length-find_char c [] n h = cc
length-find_char c (d ∷ s) n h = elim (Option-cases (find_char c s)) [
  | inl e ↦ ground arith
  | inr (i, e) ↦ ground (arith, length-find_char c s i e)
]

match_here-shorter :
    (b : Bool) (s : Text) (m : EvalMatch) → match_here b s ≡ some m → length m.after < length s
unfolding match_here
match_here-shorter b s m h = elim (Option-cases (find_char b')' (drop 5 s))) [
  | inl e ↦ absurd (ground arith)
  | inr (n, e) ↦
      let le = length-find_char b')' (drop 5 s) n e in
      let len = length-drop (suc n) (drop 5 s) in
      let five = length-drop 5 s in
      let same : drop (suc n) (drop 5 s) ≡ m.after = ground arith in
      omega (arith, ap length same, le, len, five)
]

pub search_from-shorter :
    (b : Bool) (s : Text) (m : EvalMatch) → search_from b s ≡ some m → length m.after < length s
unfolding search_from
search_from-shorter b [] m h = cc
search_from-shorter b (c ∷ s) m h = elim (Option-cases (match_here b (c ∷ s))) [
  | inr (k, e) ↦
      let same : k ≡ m = ground arith in
      omega (arith, match_here-shorter b (c ∷ s) k e, ap (λ (x : EvalMatch). length x.after) same)
  | inl e ↦ elim (Option-cases (search_from (not (is_word c)) s)) [
    | inl f ↦ absurd (ground arith)
    | inr (k, f) ↦
        let same : k.after ≡ m.after = ground arith in
        omega (arith, search_from-shorter (not (is_word c)) s k f, ap length same)
  ]
]

replaced-fuel :
    (n k : ℕ) (s : Text) (sets : Assoc Text)
    → length s ≤ n
    → length s ≤ k
    → replaced n s sets ≡ replaced k s sets
unfolding replaced eval_search
replaced-fuel zero zero s sets h l = refl
replaced-fuel zero (suc k) [] sets h l = unfold search_from in refl
replaced-fuel zero (suc k) (c ∷ s) sets h l = absurd (omega arith)
replaced-fuel (suc n) zero [] sets h l = unfold search_from in refl
replaced-fuel (suc n) zero (c ∷ s) sets h l = absurd (omega arith)
replaced-fuel (suc n) (suc k) s sets h l = elim (Option-cases (search_from true s)) [
  | inl e ↦ rw (e, replaced)
  | inr (m, e) ↦
      let shorter = search_from-shorter true s m e in
      let ih = replaced-fuel n k m.after sets (omega arith) (omega arith) in
      rw (e, replaced)
        (ap
          (λ (t : Text). m.before ++ (elim (lookup m.arg sets) [
            | some v ↦ v ++ t
            | none ↦ m.word ++ (m.arg ++ (str ")" ++ t))
          ]))
          ih)
]

-- A round of the loop of `ReplaceEvalWithMap`: a text without a match is returned as it is; in one
-- with a match the first is replaced by the value of its group, or kept when the map has none, and
-- the text after it is treated the same way. The fuel never runs out.
pub replace_eval_with_map_unrolled :
    (s : Text) (sets : Assoc Text)
    → (eval_search s ≡ none → replace_eval_with_map s sets ≡ s)
      × ((m : EvalMatch)
          → eval_search s ≡ some m
          → replace_eval_with_map s sets
            ≡ m.before ++ (elim (lookup m.arg sets) [
              | some v ↦ v ++ replace_eval_with_map m.after sets
              | none ↦ m.word ++ (m.arg ++ (str ")" ++ replace_eval_with_map m.after sets))
            ]))
unfolding replace_eval_with_map
replace_eval_with_map_unrolled s sets = (
  λ h.
      rw (replaced-fuel (length s) (suc (length s)) s sets (omega arith) (omega arith))
        (rw (h, replaced)),
  λ m h.
      let shorter = search_from-shorter true s m (unfold eval_search in h) in
      replaced-fuel (length s) (suc (length s)) s sets (omega arith) (omega arith)
      ∙ rw (h, replaced)
          (ap
            (λ (t : Text). m.before ++ (elim (lookup m.arg sets) [
              | some v ↦ v ++ t
              | none ↦ m.word ++ (m.arg ++ (str ")" ++ t))
            ]))
            (replaced-fuel (length s) (length m.after) m.after sets (omega arith) (omega arith))),
)
