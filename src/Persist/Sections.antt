-- ===== src/Persist/Sections.antt =====
-- What loading the lines of a section gives: the assertions that were saved.
use mathlib.Core.List.{append-nil, append_assoc}
use casbin_cpp.Base.{
  ℕ, false, some, List, [], ◌∷◌, ◌++◌, Text, Rule, rule_eq, rule_eq_iff, any, In-any, nat_eq, In,
  Distinct, In-concat, ◌≡◌, refl, ap, sym, ◌∙◌, subst, arith, inl, inr, ok, first_step, Bool-cases,
}
use casbin_cpp.Base.Assoc.{lookup, keys, lookup-insert-same, lookup-insert-other}
use casbin_cpp.Util.Trim.{trim}
use casbin_cpp.Policy.{PoliciesValues, vector, hashset, emplace, rules_of, clear}
use casbin_cpp.Assertion.{Assertion}
use casbin_cpp.Model.{Model, AssertionMap, put_section, clear_all}
use casbin_cpp.Persist.{load_policy_line, load_lines}
use casbin_cpp.Persist.Loads.{line, GoodRule, GoodKey, load_policy_line-line}

abbrev pub lines_of : Text → List Rule → List Text
lines_of key [] = []
lines_of key (r ∷ rs) = line key r ∷ lines_of key rs

abbrev pub all_lines : AssertionMap → List Text
all_lines [] = []
all_lines ((key, a) ∷ rest) = lines_of key (rules_of a.policy) ++ all_lines rest

abbrev pub GoodRules : List Rule → Type 0
GoodRules [] = Unit
GoodRules (r ∷ rs) = GoodRule r × GoodRules rs

-- A hash set holds no rule twice.
abbrev pub Settled : PoliciesValues → Type 0
Settled (vector rules) = Unit
Settled (hashset rules) = Distinct rules

-- Every definition's name begins with the section's letter, and names and rules can be read back.
abbrev pub Savable : ℕ → AssertionMap → Type 0
Savable sec [] = Unit
Savable sec ((key, a) ∷ rest) =
    GoodKey sec key × GoodRules (rules_of a.policy) × Settled a.policy × Savable sec rest

abbrev emplace_all : PoliciesValues → List Rule → PoliciesValues
unfolding emplace
emplace_all p [] = p
emplace_all p (r ∷ rs) = emplace_all (emplace p r) rs

emplace_all-vector : (xs ys : List Rule) → emplace_all (vector xs) ys ≡ vector (xs ++ ys)
unfolding emplace
emplace_all-vector xs [] = ap vector (sym (append-nil xs))
emplace_all-vector xs (y ∷ ys) =
    emplace_all-vector (xs ++ y ∷ []) ys ∙ ap vector (append_assoc xs (y ∷ []) ys)

emplace-new :
    (xs : List Rule) (y : Rule) → (¬ In y xs) → emplace (hashset xs) y ≡ hashset (xs ++ y ∷ [])
unfolding emplace
emplace-new xs y new = elim (Bool-cases (any (rule_eq y) xs)) [
  | inl e ↦
      let (z, i, q) = In-any (rule_eq y) xs e in
      absurd (new (subst (λ w. In w xs) (sym ((rule_eq_iff y z).0 q)) i))
  | inr e ↦ rw (e, emplace) refl
]

emplace_all-hashset :
    (xs ys : List Rule)
    → ((r : Rule) → In r ys → ¬ In r xs)
    → Distinct ys
    → emplace_all (hashset xs) ys ≡ hashset (xs ++ ys)
unfolding emplace
emplace_all-hashset xs [] apart d = ap hashset (sym (append-nil xs))
emplace_all-hashset xs (y ∷ ys) apart d =
    ap (λ p. emplace_all p ys) (emplace-new xs y (apart y (inl refl)))
    ∙ emplace_all-hashset (xs ++ y ∷ []) ys
        (λ r i j. elim ((In-concat r y xs).0 j) [
          | inl k ↦ apart r (inr i) k
          | inr e ↦ d.0 (subst (λ w. In w ys) e i)
        ])
        d.1
    ∙ ap hashset (append_assoc xs (y ∷ []) ys)

-- The rules of a container, put into it when it was cleared.
emplace_all-clear : (p : PoliciesValues) → Settled p → emplace_all (clear p) (rules_of p) ≡ p
unfolding clear
emplace_all-clear (vector rules) s = emplace_all-vector [] rules
emplace_all-clear (hashset rules) s = emplace_all-hashset [] rules (λ r i j. j) s

-- Section `sec` of the one model is `x`, and all other sections are the other's.
abbrev pub Holds : Text → AssertionMap → Model → Model → Type 0
Holds sec x before after =
    (lookup sec after.m ≡ some x)
    × ((s : Text) → (¬ (s ≡ sec)) → lookup s after.m ≡ lookup s before.m)

abbrev pub Loads : List Text → Text → AssertionMap → Model → Type 0
Loads ls sec x m = (m' : Model) × (load_lines load_policy_line ls m ≡ ok m') × Holds sec x m m'

pub Holds-put_section :
    (sec : Text) (x : AssertionMap) (m : Model) → Holds sec x m (put_section sec x m)
unfolding put_section
Holds-put_section sec x m =
    (lookup-insert-same sec x m.m, λ s ne. lookup-insert-other sec s x m.m ne)

Loads-cons :
    (l : Text) (ls : List Text) (sec : Text) (x : AssertionMap) (m m' : Model)
    → load_policy_line (trim l) m ≡ ok m'
    → ((s : Text) → (¬ (s ≡ sec)) → lookup s m'.m ≡ lookup s m.m)
    → Loads ls sec x m'
    → Loads (l ∷ ls) sec x m
unfolding load_lines
Loads-cons l ls sec x m m' e same (m'', f, (here, others)) =
    (m'', rw (e, load_lines) f, (here, λ s ne. others s ne ∙ same s ne))

pub load_lines-append :
    (ks ls : List Text) (m m' : Model)
    → load_lines load_policy_line ks m ≡ ok m'
    → load_lines load_policy_line (ks ++ ls) m ≡ load_lines load_policy_line ls m'
unfolding load_lines
load_lines-append [] ls m m' e = ap (load_lines load_policy_line ls) (ground arith)
load_lines-append (k ∷ ks) ls m m' e =
    let (m1, f, g) = first_step (load_policy_line (trim k) m) (load_lines load_policy_line ks) e in
    rw (f, load_lines) (load_lines-append ks ls m1 m' g)

Loads-append :
    (ks ls : List Text) (sec : Text) (x y : AssertionMap) (m : Model)
    → Loads ks sec y m
    → ((m' : Model) → lookup sec m'.m ≡ some y → Loads ls sec x m')
    → Loads (ks ++ ls) sec x m
Loads-append ks ls sec x y m (m1, e, (here, others)) k =
    let (m2, f, (there, rest)) = k m1 here in
    (m2, load_lines-append ks ls m m1 e ∙ f, (there, λ s ne. rest s ne ∙ others s ne))

Loads-lines_of :
    (sec : ℕ) (key : Text) (rs : List Rule) (a : Assertion) (pre post : AssertionMap) (m : Model)
    → nat_eq sec b'#' ≡ false
    → GoodKey sec key
    → GoodRules rs
    → lookup (sec ∷ []) m.m ≡ some (pre ++ (key, a) ∷ post)
    → (¬ In key (keys pre))
    → Loads
        (lines_of key rs)
        (sec ∷ [])
        (pre ++ (key, record a { policy = emplace_all a.policy rs }) ∷ post)
        m
unfolding load_lines emplace_all
Loads-lines_of sec key [] a pre post m apart k g there fresh = (m, refl, (there, λ s ne. refl))
Loads-lines_of sec key (r ∷ rs) a pre post m apart k g there fresh =
    let a' : Assertion = record a { policy = emplace a.policy r } in
    let x : AssertionMap = pre ++ (key, a') ∷ post in
    let (here, others) = Holds-put_section (sec ∷ []) x m in
    Loads-cons (line key r) (lines_of key rs) (sec ∷ [])
      (pre ++ (key, record a { policy = emplace_all (emplace a.policy r) rs }) ∷ post) m
      (put_section (sec ∷ []) x m)
      (load_policy_line-line sec key r a pre post m apart k g.0 there fresh) others
      (Loads-lines_of sec key rs a' pre post (put_section (sec ∷ []) x m) apart k g.1 here fresh)

keys-append :
    (pre : AssertionMap) (key : Text) (a : Assertion)
    → keys (pre ++ (key, a) ∷ []) ≡ keys pre ++ key ∷ []
keys-append [] key a = refl
keys-append ((j, b) ∷ pre) key a = ap (λ t. j ∷ t) (keys-append pre key a)

-- From a section whose last definitions were cleared, the lines of these make it what it was.
pub Loads-all_lines :
    (sec : ℕ) (pre amap : AssertionMap) (m : Model)
    → nat_eq sec b'#' ≡ false
    → Savable sec amap
    → Distinct (keys amap)
    → ((k : Text) → In k (keys amap) → ¬ In k (keys pre))
    → lookup (sec ∷ []) m.m ≡ some (pre ++ clear_all amap)
    → Loads (all_lines amap) (sec ∷ []) (pre ++ amap) m
unfolding load_lines clear_all
Loads-all_lines sec pre [] m apart g d fresh there = (m, refl, (there, λ s ne. refl))
Loads-all_lines sec pre ((key, a) ∷ rest) m apart g d fresh there =
    let a' : Assertion = record a { policy = clear a.policy } in
    let whole : emplace_all (clear a.policy) (rules_of a.policy) ≡ a.policy =
      emplace_all-clear a.policy g.2 in
    Loads-append (lines_of key (rules_of a.policy)) (all_lines rest) (sec ∷ [])
      (pre ++ (key, a) ∷ rest) (pre ++ (key, a) ∷ clear_all rest) m
      (subst
        (λ (p : PoliciesValues).
          Loads (lines_of key (rules_of a.policy)) (sec ∷ [])
            (pre ++ (key, record a { policy = p }) ∷ clear_all rest) m)
        whole
        (Loads-lines_of sec key (rules_of a.policy) a' pre (clear_all rest) m apart g.0 g.1 there
          (fresh key (inl refl))))
      (λ m' here.
        subst (λ (x : AssertionMap). Loads (all_lines rest) (sec ∷ []) x m')
          (append_assoc pre ((key, a) ∷ []) rest)
          (Loads-all_lines sec (pre ++ (key, a) ∷ []) rest m' apart g.3 d.1
            (λ k i j. elim ((In-concat k key (keys pre)).0 (rw (← keys-append pre key a) j)) [
              | inl old ↦ fresh k (inr i) old
              | inr e ↦ d.0 (subst (λ w. In w (keys rest)) e i)
            ])
            (here ∙ ap some (sym (append_assoc pre ((key, a) ∷ []) (clear_all rest))))))
