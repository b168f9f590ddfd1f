-- ===== src/Persist/Roundtrip.antt =====
-- Saving a policy to a file and loading it again.
use mathlib.Core.List.{append_assoc}
use casbin_cpp.Base.{
  ℕ, Bool, true, false, some, List, [], ◌∷◌, ◌++◌, Text, str, Rule, ◌==◌, ==_iff, Distinct, ◌≡◌,
  refl, ap, sym, ◌∙◌, subst, inl, inr, if◌then◌else◌, ok, err, adapter, Bool-cases,
}
use casbin_cpp.Base.Assoc.{Assoc, lookup, insert, keys, insert_same, lookup-insert-same}
use casbin_cpp.Util.Trim.{rtrim}
use casbin_cpp.Util.Split.{join_rest}
use casbin_cpp.Util.Split.Single.{Without}
use casbin_cpp.Util.Arrays.{array_to_string-cons}
use casbin_cpp.Policy.{rules_of}
use casbin_cpp.Model.{Model, AssertionMap, section, put_section, clear_all, clear_policy}
use casbin_cpp.Persist.{
  FileAdapter, file_lines, load_policy_line, load_lines, load_policy_file, load_policy, rule_lines,
  section_lines, save_policy_file, save_rest, save_policy,
}
use casbin_cpp.Persist.Line.{AllPlain}
use casbin_cpp.Persist.Lines.{with_newlines, Line, AllLines, file_lines-rtrim}
use casbin_cpp.Persist.Loads.{line, GoodRule, GoodKey}
use casbin_cpp.Persist.Sections.{
  lines_of, all_lines, GoodRules, Savable, load_lines-append, Holds-put_section, Loads-all_lines,
}

with_newlines-append :
    (xs ys : List Text) → with_newlines (xs ++ ys) ≡ with_newlines xs ++ with_newlines ys
with_newlines-append [] ys = refl
with_newlines-append (x ∷ xs) ys =
    ap (λ t. x ++ (10 ∷ t)) (with_newlines-append xs ys)
    ∙ sym (append_assoc x (10 ∷ with_newlines xs) (with_newlines ys))

rule_lines_lem :
    (key : Text) (rs : List Rule)
    → GoodRules rs
    → rule_lines key rs ≡ ok (with_newlines (lines_of key rs))
unfolding rule_lines join_rest
rule_lines_lem key [] g = refl
rule_lines_lem key ([] ∷ rs) g = absurd g.0
rule_lines_lem key ((x ∷ xs) ∷ rs) g =
    rw (array_to_string-cons x xs, rule_lines)
      (rw (rule_lines_lem key rs g.1, rule_lines)
        (ap ok (
          sym (
            append_assoc key (str ", " ++ (x ++ join_rest (str ", ") xs))
              (10 ∷ with_newlines (lines_of key rs))))))

section_lines_lem :
    (sec : ℕ) (amap : AssertionMap)
    → Savable sec amap
    → section_lines amap ≡ ok (with_newlines (all_lines amap))
unfolding section_lines
section_lines_lem sec [] g = refl
section_lines_lem sec ((key, a) ∷ rest) g =
    rw (rule_lines_lem key (rules_of a.policy) g.1, section_lines_lem sec rest g.3, section_lines)
      (ap ok (sym (with_newlines-append (lines_of key (rules_of a.policy)) (all_lines rest))))

Without-append : (c : ℕ) (s t : Text) → Without c s → Without c t → Without c (s ++ t)
Without-append c [] t h k = k
Without-append c (d ∷ s) t h k = (h.0, Without-append c s t h.1 k)

Without-join_rest : (xs : List Text) → AllPlain xs → Without 10 (join_rest (str ", ") xs)
unfolding join_rest
Without-join_rest [] h = tt
Without-join_rest ([] ∷ xs) h = absurd h.0
Without-join_rest ((c ∷ x) ∷ xs) h = (
  refl,
  (refl, Without-append 10 (c ∷ x) (join_rest (str ", ") xs) h.0.2 (Without-join_rest xs h.1)),
)

Line-line : (sec : ℕ) (key : Text) (r : Rule) → GoodKey sec key → GoodRule r → Line (line key r)
Line-line sec [] r k g = absurd k
Line-line sec key [] k g = absurd g
Line-line sec (c ∷ key) (x ∷ xs) k g =
    Without-append 10 (c ∷ key) (join_rest (str ", ") (x ∷ xs)) k.1.2
      (Without-join_rest (x ∷ xs) g.0)

AllLines-append : (xs ys : List Text) → AllLines xs → AllLines ys → AllLines (xs ++ ys)
AllLines-append [] ys h k = k
AllLines-append (x ∷ xs) ys h k = (h.0, AllLines-append xs ys h.1 k)

AllLines-lines_of :
    (sec : ℕ) (key : Text) (rs : List Rule)
    → GoodKey sec key
    → GoodRules rs
    → AllLines (lines_of key rs)
AllLines-lines_of sec key [] k g = tt
AllLines-lines_of sec key (r ∷ rs) k g =
    (Line-line sec key r k g.0, AllLines-lines_of sec key rs k g.1)

AllLines-all_lines : (sec : ℕ) (amap : AssertionMap) → Savable sec amap → AllLines (all_lines amap)
AllLines-all_lines sec [] g = tt
AllLines-all_lines sec ((key, a) ∷ rest) g =
    AllLines-append (lines_of key (rules_of a.policy)) (all_lines rest)
      (AllLines-lines_of sec key (rules_of a.policy) g.0 g.1) (AllLines-all_lines sec rest g.3)

section-there :
    (sec : Text) (x : AssertionMap) (m : Model) → lookup sec m.m ≡ some x → section m sec ≡ x
unfolding section
section-there sec x m there = rw (there, section) refl

-- Writing the section that is there makes the same model.
put_section-same :
    (sec : Text) (x : AssertionMap) (m : Model)
    → lookup sec m.m ≡ some x
    → put_section sec (section m sec) m ≡ m
unfolding put_section
put_section-same sec x m there =
    ap (λ (l : Assoc AssertionMap). record m { m = l })
      (insert_same sec (section m sec) m.m (there ∙ ap some (sym (section-there sec x m there))))

g_not_p : ¬ (str "g" ≡ str "p")
unfolding ◌==◌
g_not_p e = cc ((==_iff (str "g") (str "p")).1 e)

pub p_not_g : ¬ (str "p" ≡ str "g")
p_not_g e = g_not_p (sym e)

load_policy-there :
    (a : FileAdapter) (disk : Assoc Text) (m : Model) (text : Text)
    → (a.file_path == []) ≡ false
    → lookup a.file_path disk ≡ some text
    → load_policy a disk m ≡ load_lines load_policy_line (file_lines text) m
unfolding load_policy load_policy_file
load_policy-there a disk m text named there =
    ap (λ b. if b then err adapter else load_policy_file a disk load_policy_line m) named
    ∙ rw (there, load_policy_file) refl

module _ (ps gs : AssertionMap) (model : Model) (has_p : lookup (str "p") model.m ≡ some ps)
    (has_g : lookup (str "g") model.m ≡ some gs) (good_p : Savable b'p' ps)
    (good_g : Savable b'g' gs) (distinct_p : Distinct (keys ps))
    (distinct_g : Distinct (keys gs)) where
  saved : List Text
  saved = all_lines ps ++ all_lines gs

  cleared :
      (lookup (str "p") (clear_policy model).m ≡ some (clear_all ps))
      × (lookup (str "g") (clear_policy model).m ≡ some (clear_all gs))
      × ((s : Text)
          → (¬ (s ≡ str "p"))
          → (¬ (s ≡ str "g"))
          → lookup s (clear_policy model).m ≡ lookup s model.m)
  unfolding clear_policy
  cleared =
      let x : AssertionMap = clear_all (section model (str "p")) in
      let m1 : Model = put_section (str "p") x model in
      let (here, others) = Holds-put_section (str "p") x model in
      let y : AssertionMap = clear_all (section m1 (str "g")) in
      let (there, rest) = Holds-put_section (str "g") y m1 in
      (
        rest (str "p") p_not_g
            ∙ here
            ∙ ap (λ z. some (clear_all z)) (section-there (str "p") ps model has_p),
        there
            ∙ ap (λ z. some (clear_all z))
                (section-there (str "g") gs m1 (others (str "g") g_not_p ∙ has_g)),
        λ s np ng. rest s ng ∙ others s np,
      )

  -- Loaded into the model without its rules, the lines make the model that was.
  reload :
      (m' : Model) × (load_lines load_policy_line saved (clear_policy model) ≡ ok m')
      × ((s : Text) → lookup s m'.m ≡ lookup s model.m)
  unfolding saved
  reload =
      let (m1, e, (here, others)) =
        Loads-all_lines b'p' [] ps (clear_policy model) refl good_p distinct_p (λ k i j. j)
          cleared.0 in
      let (m2, f, (there, rest)) =
        Loads-all_lines b'g' [] gs m1 refl good_g distinct_g (λ k i j. j)
          (others (str "g") g_not_p ∙ cleared.1) in
      (
        m2,
        load_lines-append (all_lines ps) (all_lines gs) (clear_policy model) m1 e ∙ f,
        λ s. elim (Bool-cases (s == str "p")) [
          | inl q ↦ rw ((==_iff s (str "p")).0 q) (rest (str "p") p_not_g ∙ here ∙ sym has_p)
          | inr np ↦ elim (Bool-cases (s == str "g")) [
            | inl q ↦ rw ((==_iff s (str "g")).0 q) (there ∙ sym has_g)
            | inr ng ↦
                let p_apart : ¬ (s ≡ str "p") = λ h. cc (np, (==_iff s (str "p")).1 h) in
                let g_apart : ¬ (s ≡ str "g") = λ h. cc (ng, (==_iff s (str "g")).1 h) in
                rest s g_apart ∙ others s p_apart ∙ cleared.2 s p_apart g_apart
          ]
        ],
      )

  saved_text : Text
  saved_text = rtrim (10 ∷ []) (with_newlines (all_lines ps) ++ with_newlines (all_lines gs))

  file_lines-saved : file_lines saved_text ≡ saved
  unfolding saved_text saved
  file_lines-saved =
      ap (λ t. file_lines (rtrim (10 ∷ []) t))
        (sym (with_newlines-append (all_lines ps) (all_lines gs)))
      ∙ file_lines-rtrim (all_lines ps ++ all_lines gs) (
          AllLines-append (all_lines ps) (all_lines gs) (AllLines-all_lines b'p' ps good_p)
            (AllLines-all_lines b'g' gs good_g))

  save_rest-there :
      (can_open : Text → Bool) (a : FileAdapter) (disk : Assoc Text)
      → can_open a.file_path ≡ true
      → (m1 m2 : Model) → m1 ≡ model
      → m2 ≡ model
      → save_rest can_open a
          (section_lines (section m1 (str "p")))
          (section_lines (section m2 (str "g")))
          m1
          m2
          disk
        ≡ (ok (insert a.file_path saved_text disk), model)
  unfolding save_rest save_policy_file saved_text
  save_rest-there can_open a disk opens m1 m2 e f =
      let p_lines =
        ap section_lines (section-there (str "p") ps model has_p)
        ∙ section_lines_lem b'p' ps good_p in
      let g_lines =
        ap section_lines (section-there (str "g") gs model has_g)
        ∙ section_lines_lem b'g' gs good_g in
      rw (e, f, p_lines, g_lines, opens) refl

  save_policy-there :
      (can_open : Text → Bool) (a : FileAdapter) (disk : Assoc Text)
      → (a.file_path == []) ≡ false
      → can_open a.file_path ≡ true
      → save_policy can_open a model disk ≡ (ok (insert a.file_path saved_text disk), model)
  unfolding save_policy
  save_policy-there can_open a disk named opens =
      let model1 : Model = put_section (str "p") (section model (str "p")) model in
      let model2 : Model = put_section (str "g") (section model1 (str "g")) model1 in
      let e : model1 ≡ model = put_section-same (str "p") ps model has_p in
      let f : model2 ≡ model =
        subst (λ (m : Model). put_section (str "g") (section m (str "g")) m ≡ model) (sym e)
          (put_section-same (str "g") gs model has_g) in
      ap
        (λ b.
          if b
          then (err adapter, model)
          else save_rest can_open a (section_lines (section model1 (str "p")))
              (section_lines (section model2 (str "g"))) model1 model2 disk)
        named
      ∙ save_rest-there can_open a disk opens model1 model2 e f

  -- For a model whose sections "p" and "g" have different definition names that begin with the
  -- section's letter, and rules that are not empty, all different in a hash set, and shorter than
  -- the limit of `Split`, where no name or field is empty, has a comma or a newline, or has a
  -- blank at an end: when the adapter has a file name and the file can be opened, `SavePolicy`
  -- writes it and leaves the model as it is, and `LoadPolicy` from that file into the model
  -- without its rules returns a model that has in every section what the saved one had.
  pub load_policy-save_policy :
      (can_open : Text → Bool) (a : FileAdapter) (disk : Assoc Text)
      → (a.file_path == []) ≡ false
      → can_open a.file_path ≡ true
      → (disk' : Assoc Text) × (model' : Model) × (save_policy can_open a model disk
          ≡ (ok disk', model))
        × (load_policy a disk' (clear_policy model) ≡ ok model')
        × ((sec : Text) → lookup sec model'.m ≡ lookup sec model.m)
  load_policy-save_policy can_open a disk named opens =
      let (m', e, same) = reload in
      (
        insert a.file_path saved_text disk,
        m',
        save_policy-there can_open a disk named opens,
        load_policy-there a (insert a.file_path saved_text disk) (clear_policy model) saved_text
              named (lookup-insert-same a.file_path saved_text disk)
            ∙ ap (λ ls. load_lines load_policy_line ls (clear_policy model)) file_lines-saved
            ∙ e,
        same,
      )
