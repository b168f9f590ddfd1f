-- ===== src/Util/Eval/Calls.antt =====
-- A text as calls of eval() and what stands between them.
use casbin_cpp.Base.{
  ℕ, suc, get_or, ◌≤◌, Bool, true, false, not, Option, none, some, [], ◌∷◌, ◌++◌, Text, str, ◌==◌,
  ==_refl, nat_eq, map, length, take, drop, ◌≡◌, refl, ap, ◌∙◌, arith,
}
use casbin_cpp.Util.Trim.{find_char}
use casbin_cpp.Util.Split.Single.{Without}
use casbin_cpp.Util.Eval.{lower, is_word, EvalMatch, match_here, search_from}

-- Is the fifth character a bracket?
abbrev fifth_open : Text → Bool
fifth_open (a ∷ b ∷ c ∷ d ∷ e ∷ s) = nat_eq e b'('
fifth_open _ = false

fifth_spelled : (s : Text) → fifth_open s ≡ false → (map lower (take 5 s) == str "eval(") ≡ false
unfolding lower ◌==◌
fifth_spelled [] h = refl
fifth_spelled (a ∷ []) h = ground arith
fifth_spelled (a ∷ b ∷ []) h = ground arith
fifth_spelled (a ∷ b ∷ c ∷ []) h = ground arith
fifth_spelled (a ∷ b ∷ c ∷ d ∷ []) h = ground arith
fifth_spelled (a ∷ b ∷ c ∷ d ∷ e ∷ s) h = ground arith

match_here-fifth : (b : Bool) (s : Text) → fifth_open s ≡ false → match_here b s ≡ none
unfolding match_here
match_here-fifth b s h = rw (fifth_spelled s h) (ground arith)

fifth-Without : (s : Text) → Without b'(' s → fifth_open s ≡ false
fifth-Without (a ∷ b ∷ c ∷ d ∷ e ∷ s) h = h.1.1.1.1.0
fifth-Without (a ∷ b ∷ c ∷ d ∷ []) h = refl
fifth-Without (a ∷ b ∷ c ∷ []) h = refl
fifth-Without (a ∷ b ∷ []) h = refl
fifth-Without (a ∷ []) h = refl
fifth-Without [] h = refl

-- One character further.
later : ℕ → Option EvalMatch → Option EvalMatch
later c none = none
later c (some m) = some (record m { before = c ∷ m.before })

search-later :
    (b : Bool) (c : ℕ) (s : Text)
    → match_here b (c ∷ s) ≡ none
    → search_from b (c ∷ s) ≡ later c (search_from (not (is_word c)) s)
unfolding search_from later
search-later b c s h = rw (h, search_from) refl

-- In a text without an opening bracket nothing is found.
pub search-Without : (b : Bool) (s : Text) → Without b'(' s → search_from b s ≡ none
unfolding search_from later
search-Without b [] h = refl
search-Without b (c ∷ s) h =
    search-later b c s (match_here-fifth b (c ∷ s) (fifth-Without (c ∷ s) h))
    ∙ ap (later c) (search-Without (not (is_word c)) s h.1)

-- The word of a call: it spells "eval(" in any case.
abbrev pub Spelled : Text → Type 0
Spelled word = map lower word ≡ str "eval("

not_open : (a n : ℕ) → lower a ≡ n → 97 ≤ n → nat_eq a b'(' ≡ false
unfolding lower
not_open a n e h = ground arith

find-close :
    (arg rest : Text) → Without b')' arg → find_char b')' (arg ++ b')' ∷ rest) ≡ some (length arg)
unfolding find_char
find-close [] rest h = refl
find-close (c ∷ arg) rest h = rw (find-close arg rest h.1) (rw h.0 refl)

take-close : (arg rest : Text) → take (length arg) (arg ++ b')' ∷ rest) ≡ arg
take-close [] rest = refl
take-close (c ∷ arg) rest = ap (λ t. c ∷ t) (take-close arg rest)

drop-close : (arg rest : Text) → drop (suc (length arg)) (arg ++ b')' ∷ rest) ≡ rest
drop-close [] rest = refl
drop-close (c ∷ arg) rest = drop-close arg rest

-- After one to four characters the fifth is one of a text without brackets.
after_one : (a : ℕ) (s : Text) → Without b'(' s → fifth_open (a ∷ s) ≡ false
after_one a [] h = refl
after_one a (b ∷ []) h = refl
after_one a (b ∷ c ∷ []) h = refl
after_one a (b ∷ c ∷ d ∷ []) h = refl
after_one a (b ∷ c ∷ d ∷ e ∷ s) h = h.1.1.1.0

after_two : (a b : ℕ) (s : Text) → Without b'(' s → fifth_open (a ∷ b ∷ s) ≡ false
after_two a b [] h = refl
after_two a b (c ∷ []) h = refl
after_two a b (c ∷ d ∷ []) h = refl
after_two a b (c ∷ d ∷ e ∷ s) h = h.1.1.0

after_three : (a b c : ℕ) (s : Text) → Without b'(' s → fifth_open (a ∷ b ∷ c ∷ s) ≡ false
after_three a b c [] h = refl
after_three a b c (d ∷ []) h = refl
after_three a b c (d ∷ e ∷ s) h = h.1.0

after_four : (a b c d : ℕ) (s : Text) → Without b'(' s → fifth_open (a ∷ b ∷ c ∷ d ∷ s) ≡ false
after_four a b c d [] h = refl
after_four a b c d (e ∷ s) h = h.0

match_here-found :
    (s : Text) (n : ℕ)
    → (map lower (take 5 s) == str "eval(") ≡ true
    → find_char b')' (drop 5 s) ≡ some n
    → match_here true s
      ≡ some (record {
        before = [];
        word = take 5 s;
        arg = take n (drop 5 s);
        after = drop (suc n) (drop 5 s);
      })
unfolding match_here
match_here-found s n e f = rw (e, match_here) (rw f refl)

match_here-inside : (s : Text) → match_here false s ≡ none
unfolding match_here
match_here-inside s = refl

-- Is there a word boundary between this text and a letter that follows it? `b` says so for the
-- empty text.
abbrev pub boundary : Bool → Text → Bool
boundary b [] = b
boundary b (c ∷ s) = boundary (not (is_word c)) s

module _ (v w x y z : ℕ) (h : Spelled (v ∷ w ∷ x ∷ y ∷ z ∷ [])) where
  abbrev word : Text
  word = v ∷ w ∷ x ∷ y ∷ z ∷ []

  letters :
      (nat_eq v b'(' ≡ false)
      × (nat_eq w b'(' ≡ false)
      × (nat_eq x b'(' ≡ false)
      × (nat_eq y b'(' ≡ false)
  letters = (
    not_open v b'e' (ap (λ s. get_or s 0 0) h) (omega arith),
    not_open w b'v' (ap (λ s. get_or s 1 0) h) (omega arith),
    not_open x b'a' (ap (λ s. get_or s 2 0) h) (omega arith),
    not_open y b'l' (ap (λ s. get_or s 3 0) h) (omega arith),
  )

  -- Before the word nothing is found.
  before-fifth :
      (c : ℕ) (p rest : Text)
      → Without b'(' (c ∷ p)
      → fifth_open ((c ∷ p) ++ (v ∷ w ∷ x ∷ y ∷ z ∷ rest)) ≡ false
  before-fifth c [] rest g = letters.3
  before-fifth c (p1 ∷ []) rest g = letters.2
  before-fifth c (p1 ∷ p2 ∷ []) rest g = letters.1
  before-fifth c (p1 ∷ p2 ∷ p3 ∷ []) rest g = letters.0
  before-fifth c (p1 ∷ p2 ∷ p3 ∷ p4 ∷ p) rest g = g.1.1.1.1.0

  match_here-call :
      (arg rest : Text)
      → Without b')' arg
      → match_here true (v ∷ w ∷ x ∷ y ∷ z ∷ (arg ++ b')' ∷ rest))
        ≡ some (record { before = []; word = word; arg = arg; after = rest })
  match_here-call arg rest g =
      let text = v ∷ w ∷ x ∷ y ∷ z ∷ (arg ++ b')' ∷ rest) in
      match_here-found text (length arg) (rw h (==_refl (str "eval("))) (find-close arg rest g)
      ∙ ap
          (λ (s : Text). some (record {
            before = [];
            word = word;
            arg = s;
            after = drop (suc (length arg)) (drop 5 text);
          }))
          (take-close arg rest)
      ∙ ap (λ (s : Text). some (record { before = []; word = word; arg = arg; after = s }))
          (drop-close arg rest)

  pub search-call :
      (b : Bool) (plain arg rest : Text)
      → Without b'(' plain
      → Without b')' arg
      → boundary b plain ≡ true
      → search_from b (plain ++ (v ∷ w ∷ x ∷ y ∷ z ∷ (arg ++ b')' ∷ rest)))
        ≡ some (record { before = plain; word = word; arg = arg; after = rest })
  unfolding search_from later
  search-call b [] arg rest g k at = rw at (rw (match_here-call arg rest k, search_from) refl)
  search-call b (c ∷ plain) arg rest g k at =
      search-later b c (plain ++ (v ∷ w ∷ x ∷ y ∷ z ∷ (arg ++ b')' ∷ rest))) (
        match_here-fifth b ((c ∷ plain) ++ (v ∷ w ∷ x ∷ y ∷ z ∷ (arg ++ b')' ∷ rest)))
          (before-fifth c plain (arg ++ b')' ∷ rest) g))
      ∙ ap (later c) (search-call (not (is_word c)) plain arg rest g.1 k at)

  -- Nor is anything found where a word goes on before it, and no other bracket is there.
  pub search-inside :
      (b : Bool) (plain rest : Text)
      → Without b'(' plain
      → Without b'(' rest
      → boundary b plain ≡ false
      → search_from b (plain ++ (v ∷ w ∷ x ∷ y ∷ z ∷ rest)) ≡ none
  unfolding search_from later
  search-inside b [] rest g k at =
      let step : (b : Bool) (c : ℕ) (s : Text)
          → match_here b (c ∷ s) ≡ none
          → search_from (not (is_word c)) s ≡ none
          → search_from b (c ∷ s) ≡ none =
        λ b c s here there. search-later b c s here ∙ ap (later c) there in
      step b v (w ∷ x ∷ y ∷ z ∷ rest) (rw at (match_here-inside (v ∷ w ∷ x ∷ y ∷ z ∷ rest))) (
        step _ w (x ∷ y ∷ z ∷ rest)
          (match_here-fifth _ (w ∷ x ∷ y ∷ z ∷ rest) (after_four w x y z rest k))
          (step _ x (y ∷ z ∷ rest)
            (match_here-fifth _ (x ∷ y ∷ z ∷ rest) (after_three x y z rest k))
            (step _ y (z ∷ rest) (match_here-fifth _ (y ∷ z ∷ rest) (after_two y z rest k)) (
              step _ z rest (match_here-fifth _ (z ∷ rest) (after_one z rest k))
                (search-Without _ rest k)))))
  search-inside b (c ∷ plain) rest g k at =
      search-later b c (plain ++ (v ∷ w ∷ x ∷ y ∷ z ∷ rest)) (
        match_here-fifth b ((c ∷ plain) ++ (v ∷ w ∷ x ∷ y ∷ z ∷ rest))
          (before-fifth c plain rest g))
      ∙ ap (later c) (search-inside (not (is_word c)) plain rest g.1 k at)
