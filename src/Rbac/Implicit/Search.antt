-- ===== src/Rbac/Implicit/Search.antt =====
-- The search ends, and it finds the roles that a user reaches.
use mathlib.Core.List.{append-nil, append_assoc}
use casbin_cpp.Base.{
  ℕ, zero, suc, ◌+◌, ◌≤◌, ◌<◌, Bool, true, false, not, none, some, List, [], ◌∷◌, ◌++◌, Text, ◌==◌,
  ==_iff, any, keep, length, length-append, In, Distinct, In-append, In-concat, In-keep, ok, ◌≡◌,
  refl, ap, sym, ◌∙◌, subst, ◌↔◌, inl, inr, arith, Bool-cases, Option-cases,
}
use casbin_cpp.Base.Assoc.{Assoc, lookup, insert, insert_same, keys, Entry-lookup, In-keys}
use casbin_cpp.Rbac.{
  Role, RoleManager, roles_of, create_role, find_or_new, qualify, is_known, has_role, get_roles,
}
use casbin_cpp.Rbac.Edges.{Edge}
use casbin_cpp.Rbac.Reachable.{Edge-target}
use casbin_cpp.Rbac.Members.{strip_all-nil}
use casbin_cpp.Rbac.Invariant.{IsWellFormed}
use casbin_cpp.Util.Arrays.{contains_iff}
use casbin_cpp.Rbac.Implicit.{fresh, implicit_rounds, implicit_roles}

-- The names that a chain of edges joins to `a`.
pub data Reaches (all : Assoc Role) (a : Text) : Text → Type 0 where
  itself : Reaches all a a
  onward : {m b : Text} → Reaches all a m → Edge all m b → Reaches all a b

length-keep : (p : Text → Bool) (ys : List Text) → length (keep p ys) ≤ length ys
length-keep p [] = omega arith
length-keep p (y ∷ ys) = ground (arith, length-keep p ys)

length-keep_others :
    (x : Text) (ys : List Text) → In x ys → length (keep (λ y. not (y == x)) ys) < length ys
length-keep_others x [] i = absurd i
length-keep_others x (y ∷ ys) i = elim (Bool-cases (y == x)) [
  | inl e ↦ rw e (omega (arith, length-keep (λ y. not (y == x)) ys))
  | inr e ↦ rw e (elim i [
    | inl q ↦ cc (e, (==_iff y x).1 (sym q))
    | inr j ↦ omega (arith, length-keep_others x ys j)
  ])
]

-- Different texts of a list are no more than the list has.
length-Distinct :
    (xs ys : List Text) → Distinct xs → ((t : Text) → In t xs → In t ys) → length xs ≤ length ys
length-Distinct [] ys d sub = omega arith
length-Distinct (x ∷ xs) ys d sub =
    let other : (t : Text) → In t xs → not (t == x) ≡ true = λ t i. elim (Bool-cases (t == x)) [
      | inl e ↦ absurd (d.0 (subst (λ z. In z xs) ((==_iff t x).0 e) i))
      | inr e ↦ rw e refl
    ] in
    let rest : length xs ≤ length (keep (λ y. not (y == x)) ys) =
      length-Distinct xs (keep (λ y. not (y == x)) ys) d.1
        (λ t i. (In-keep (λ y. not (y == x)) t ys).1 (sub t (inr i), other t i)) in
    omega (arith, rest, length-keep_others x ys (sub x (inl refl)))

Distinct-concat : (xs : List Text) (r : Text) → Distinct xs → (¬ In r xs) → Distinct (xs ++ r ∷ [])
Distinct-concat [] r d new = (λ i. i, tt)
Distinct-concat (x ∷ xs) r d new = (
  λ i. elim ((In-concat x r xs).0 i) [ inl j ↦ d.0 j | inr e ↦ new (inl (sym e)) ],
  Distinct-concat xs r d.1 (λ i. new (inr i)),
)

new_name : (r : Text) (xs : List Text) → any (λ x. x == r) xs ≡ false → ¬ In r xs
new_name r xs e i = cc (e, (contains_iff r xs).1 i)

In-fresh :
    (t : Text) (roles role_set : List Text)
    → In t (fresh roles role_set) ↔ (In t roles × (¬ In t role_set))
unfolding fresh
In-fresh t [] role_set = (λ h. absurd h, λ h. absurd h.0)
In-fresh t (r ∷ roles) role_set = elim (Bool-cases (any (λ x. x == r) role_set)) [
  | inl e ↦
      let old : In r role_set = (contains_iff r role_set).0 e in
      let ih = In-fresh t roles role_set in
      rw e (
        λ h. (inr (ih.0 h).0, (ih.0 h).1),
        λ (i, ne). elim i [
          | inl q ↦ absurd (ne (subst (λ x. In x role_set) (sym q) old))
          | inr j ↦ ih.1 (j, ne)
        ],
      )
  | inr e ↦
      let ih = In-fresh t roles (role_set ++ r ∷ []) in
      rw e (
        λ h. elim h [
          | inl q ↦ (inl q, λ i. new_name r role_set e (subst (λ x. In x role_set) q i))
          | inr j ↦ (inr (ih.0 j).0, λ i. (ih.0 j).1 ((In-concat t r role_set).1 (inl i)))
        ],
        λ (i, ne). elim (Bool-cases (t == r)) [
          | inl s ↦ inl ((==_iff t r).0 s)
          | inr s ↦ elim i [
            | inl q ↦ inl q
            | inr j ↦ inr (
                ih.1 (
                  j,
                  λ k. elim ((In-concat t r role_set).0 k) [
                    | inl p ↦ ne p
                    | inr q ↦ cc (s, (==_iff t r).1 q)
                  ],
                ))
          ]
        ],
      )
]

Distinct-fresh :
    (roles role_set : List Text) → Distinct role_set → Distinct (role_set ++ fresh roles role_set)
unfolding fresh
Distinct-fresh [] role_set d = rw (append-nil role_set) d
Distinct-fresh (r ∷ roles) role_set d = elim (Bool-cases (any (λ x. x == r) role_set)) [
  | inl e ↦ rw e (Distinct-fresh roles role_set d)
  | inr e ↦ rw e (
      subst Distinct (append_assoc role_set (r ∷ []) (fresh roles (role_set ++ r ∷ []))) (
        Distinct-fresh roles (role_set ++ r ∷ [])
          (Distinct-concat role_set r d (new_name r role_set e))))
]

In-known : (k : Text) (all : Assoc Role) → is_known k all ≡ true → In k (keys all)
In-known k all h = elim (Option-cases (lookup k all)) [
  | inl e ↦ ground arith
  | inr (r, e) ↦ In-keys k r all (Entry-lookup k r all e)
]

module _ (rm : RoleManager) (plain : rm.matching_func ≡ none) (w : IsWellFormed rm.all_roles) where
  no_roles : (n : Text) → is_known n rm.all_roles ≡ false → roles_of rm.all_roles n ≡ []
  unfolding roles_of
  no_roles n k = elim (Option-cases (lookup n rm.all_roles)) [
    | inl e ↦ rw (e, roles_of) refl
    | inr (r, e) ↦ absurd (ground arith)
  ]

  create_role-known : (n : Text) → is_known n rm.all_roles ≡ true → create_role rm n ≡ rm
  unfolding create_role find_or_new
  create_role-known n k = elim (Option-cases (lookup n rm.all_roles)) [
    | inl e ↦ absurd (ground arith)
    | inr (r, e) ↦
        let same : insert n (find_or_new n rm.all_roles) rm.all_roles ≡ rm.all_roles =
          insert_same n (find_or_new n rm.all_roles) rm.all_roles
            (e ∙ ap some (rw (e, find_or_new) refl)) in
        simp (plain, same, create_role) (ap (λ f. record rm { matching_func = f }) (sym plain))
  ]

  get_roles-plain : (n : Text) → get_roles rm n [] ≡ ok (roles_of rm.all_roles n, rm)
  unfolding get_roles has_role qualify
  get_roles-plain n = elim (Bool-cases (is_known n rm.all_roles)) [
    | inl k ↦
        let known : has_role rm n ≡ true = ground arith in
        rw (known, create_role-known n k, strip_all-nil (roles_of rm.all_roles n)) refl
    | inr k ↦
        let unknown : has_role rm n ≡ false = ground arith in
        let nothing : roles_of rm.all_roles n ≡ [] = no_roles n k in rw (unknown, nothing) refl
  ]

  Reaches-known : (a : Text) {b : Text} → Reaches rm.all_roles a b → In b (a ∷ keys rm.all_roles)
  Reaches-known a itself = inl refl
  Reaches-known a (onward {m} {b} r i) =
      inr (In-known b rm.all_roles (Edge-target rm.all_roles m b w i))

  -- What the search found when it ends: `out` lists the roles that `a` reaches, without `a`.
  Found : Text → List Text → Type 0
  Found a out = Distinct (a ∷ out) × ((x : Text) → In x (a ∷ out) ↔ Reaches rm.all_roles a x)

  closed_Found :
      (a : Text) (out : List Text)
      → Distinct (a ∷ out)
      → ((x : Text) → In x (a ∷ out) → Reaches rm.all_roles a x)
      → ((d : Text) → In d (a ∷ out) → (y : Text) → Edge rm.all_roles d y → In y (a ∷ out))
      → Found a out
  unfolding Found
  closed_Found a out d sound closed = (d, λ x. (sound x, λ r. go r))
    where
      go : {x : Text} → Reaches rm.all_roles a x → In x (a ∷ out)
      go itself = inl refl
      go (onward {m} {b} r i) = closed m (go r) b i

  bounded :
      (a : Text) (role_set : List Text)
      → Distinct role_set
      → ((x : Text) → In x role_set → Reaches rm.all_roles a x)
      → length role_set ≤ length (keys rm.all_roles) + 1
  bounded a role_set d sound =
      let few =
        length-Distinct role_set (a ∷ keys rm.all_roles) d (λ t i. Reaches-known a (sound t i)) in
      omega (arith, few)

  search_finds :
      (a : Text) (n : ℕ) (popped q res : List Text)
      → popped ++ q ≡ a ∷ res
      → Distinct (a ∷ res)
      → ((x : Text) → In x (a ∷ res) → Reaches rm.all_roles a x)
      → ((d : Text) → In d popped → (y : Text) → Edge rm.all_roles d y → In y (a ∷ res))
      → length (keys rm.all_roles) + 2 ≤ n + length popped
      → (out : List Text) × (implicit_rounds n [] q res (a ∷ res) rm ≡ some (ok out, rm))
        × Found a out
  unfolding implicit_rounds
  search_finds a zero popped q res e d sound closed enough = absurd (
      omega
        (arith, bounded a (a ∷ res) d sound, sym (length-append popped q) ∙ ap length e, enough))
  search_finds a (suc n) popped [] res e d sound closed enough = (
    res,
    refl,
    closed_Found a res d sound (λ x i. closed x (subst (In x) (sym e ∙ append-nil popped) i)),
  )
  search_finds a (suc n) popped (name ∷ q) res e d sound closed enough =
      let roles = roles_of rm.all_roles name in
      let new = fresh roles (a ∷ res) in
      let here : In name (a ∷ res) =
        subst (In name) e ((In-append name popped (name ∷ q)).1 (inr (inl refl))) in
      let whole : (popped ++ name ∷ []) ++ (q ++ new) ≡ a ∷ (res ++ new) =
        append_assoc popped (name ∷ []) (q ++ new)
        ∙ sym (append_assoc popped (name ∷ q) new)
        ∙ ap (λ l. l ++ new) e in
      let (out, f, found) =
        search_finds a n (popped ++ name ∷ []) (q ++ new) (res ++ new) whole
          (Distinct-fresh roles (a ∷ res) d)
          (λ x i. elim ((In-append x (a ∷ res) new).0 i) [
            | inl j ↦ sound x j
            | inr j ↦ onward (sound name here) ((In-fresh x roles (a ∷ res)).0 j).0
          ])
          (λ x i y edge. elim ((In-concat x name popped).0 i) [
            | inl j ↦ (In-append y (a ∷ res) new).1 (inl (closed x j y edge))
            | inr same ↦ elim (Bool-cases (any (λ z. z == y) (a ∷ res))) [
              | inl old ↦ (In-append y (a ∷ res) new).1 (inl ((contains_iff y (a ∷ res)).0 old))
              | inr not_old ↦ (In-append y (a ∷ res) new).1 (
                  inr (
                    (In-fresh y roles (a ∷ res)).1
                      (subst (λ z. Edge rm.all_roles z y) same edge, new_name y (a ∷ res) not_old)))
            ]
          ])
          (omega (arith, enough, length-append popped (name ∷ []))) in
      (out, rw (get_roles-plain name, implicit_rounds) f, found)

  -- Without a matching function or a domain, on a well-formed manager with `k` roles, `k + 2`
  -- rounds are enough for the loop of `GetImplicitRolesForUser` to end, and it returns a list of
  -- different roles, without the user: exactly those other than the user that a chain of edges
  -- joins to it. The manager is left as it is.
  pub implicit_roles_found :
      (user : Text) (n : ℕ)
      → length (keys rm.all_roles) + 2 ≤ n
      → (roles : List Text) × (implicit_roles n user [] rm ≡ some (ok roles, rm))
        × Distinct roles
        × ((r : Text) → In r roles ↔ (Reaches rm.all_roles user r × (¬ (r ≡ user))))
  unfolding implicit_roles Found
  implicit_roles_found user n enough =
      let (out, e, (d, iff)) =
        search_finds user n [] (user ∷ []) [] refl (λ i. i, tt)
          (λ x i. elim i [
            | inl q ↦ subst (Reaches rm.all_roles user) (sym q) itself
            | inr j ↦ absurd j
          ])
          (λ x i. absurd i) (omega (arith, enough)) in
      (
        out,
        e,
        d.1,
        λ r. (
          λ i. ((iff r).0 (inr i), λ q. d.0 (subst (λ z. In z out) q i)),
          λ (reached, ne). elim ((iff r).1 reached) [ inl q ↦ absurd (ne q) | inr j ↦ j ],
        ),
      )
