-- ===== src/Domain/Souls/Writers.antt =====
-- Which role writes a section of the documents.
use mathlib.Core.Path.{subst}
use merge_mate.Base.{
  sym, ◌∙◌, String, Bool, true, false, not, ◌&&◌, ◌||◌, some, List, [], ◌∷◌, ◌≡◌, refl, elem,
  str_eq, eq_iff, find, by_key, Bool-cases, inl, inr, arith,
}
use merge_mate.Domain.Souls.{
  Soul, all_souls, soul_name, get_soul, planner_soul, architect_soul, coder_soul, tester_soul,
  reviewer_soul, chronicler_soul, explainer_soul,
}

-- Whether two lists have a common text.
abbrev shares : List String → List String → Bool
shares [] ys = false
shares (x ∷ xs) ys = elem x ys || shares xs ys

-- Nobody writes what one of the others writes.
abbrev apart : List String → List Soul → Bool
apart xs [] = true
apart xs (s ∷ ss) = not (shares xs s.doc_permissions.write) && apart xs ss

abbrev all_apart : List Soul → Bool
all_apart [] = true
all_apart (s ∷ ss) = apart s.doc_permissions.write ss && all_apart ss

-- No section is written by two of the registered roles.
all_souls-apart : all_apart all_souls ≡ true
unfolding all_souls planner_soul architect_soul coder_soul tester_soul reviewer_soul chronicler_soul
    explainer_soul elem
all_souls-apart = refl

shares-elem :
    (section : String) (xs ys : List String)
    → elem section xs ≡ true
    → elem section ys ≡ true
    → shares xs ys ≡ true
unfolding elem
shares-elem section [] ys h k = ground (arith, h)
shares-elem section (x ∷ xs) ys h k = elim (Bool-cases (str_eq x section)) [
  | inl e ↦ rw ((eq_iff x section).0 e, k) refl
  | inr e ↦ let later = shares-elem section xs ys (ground (arith, h, e)) k in ground (arith, later)
]

unshared :
    (section : String) (xs ys : List String)
    → elem section xs ≡ true
    → shares xs ys ≡ false
    → elem section ys ≡ false
unshared section xs ys h apart = elim (Bool-cases (elem section ys)) [
  | inr e ↦ e
  | inl e ↦ let both = shares-elem section xs ys h e in ground (arith, both, apart)
]

apart-find :
    (section role : String) (s : Soul) (xs : List String) (ss : List Soul)
    → apart xs ss ≡ true
    → find (by_key soul_name role) ss ≡ some s
    → elem section xs ≡ true
    → elem section s.doc_permissions.write ≡ false
unfolding find
apart-find section role s xs [] a f h = ground (arith, f)
apart-find section role s xs (r ∷ ss) a f h = elim (Bool-cases (str_eq r.name role)) [
  | inl e ↦
      let same : r ≡ s = cc (rw e at f) in
      let alone : shares xs s.doc_permissions.write ≡ false =
        subst (λ (u : Soul). shares xs u.doc_permissions.write ≡ false) same (ground (arith, a)) in
      unshared section xs s.doc_permissions.write h alone
  | inr e ↦ apart-find section role s xs ss (ground (arith, a)) (rw e at f) h
]

unique_writer :
    (section a b : String) (s t : Soul) (ss : List Soul)
    → all_apart ss ≡ true
    → find (by_key soul_name a) ss ≡ some s
    → find (by_key soul_name b) ss ≡ some t
    → elem section s.doc_permissions.write ≡ true
    → elem section t.doc_permissions.write ≡ true
    → s ≡ t
unfolding find
unique_writer section a b s t [] d f g h k = ground (arith, f)
unique_writer section a b s t (r ∷ ss) d f g h k =
    let alone : apart r.doc_permissions.write ss ≡ true = ground (arith, d) in
    let others : all_apart ss ≡ true = ground (arith, d) in
    elim (Bool-cases (str_eq r.name a)) [
      | inl e ↦ elim (Bool-cases (str_eq r.name b)) [
        | inl e' ↦
            let left : r ≡ s = cc (rw e at f) in
            let right : r ≡ t = cc (rw e' at g) in sym left ∙ right
        | inr e' ↦
            let left : r ≡ s = cc (rw e at f) in
            let mine =
              subst (λ (u : Soul). elem section u.doc_permissions.write ≡ true) (sym left) h in
            let none_else =
              apart-find section b t r.doc_permissions.write ss alone (rw e' at g) mine in
            ground (arith, none_else, k)
      ]
      | inr e ↦ elim (Bool-cases (str_eq r.name b)) [
        | inl e' ↦
            let right : r ≡ t = cc (rw e' at g) in
            let mine =
              subst (λ (u : Soul). elem section u.doc_permissions.write ≡ true) (sym right) k in
            let none_else =
              apart-find section a s r.doc_permissions.write ss alone (rw e at f) mine in
            ground (arith, none_else, h)
        | inr e' ↦ unique_writer section a b s t ss others (rw e at f) (rw e' at g) h k
      ]
    ]

-- Two registered roles that may write one section are the same role.
pub get_soul-writer :
    (section a b : String) (s t : Soul)
    → get_soul a ≡ some s
    → get_soul b ≡ some t
    → elem section s.doc_permissions.write ≡ true
    → elem section t.doc_permissions.write ≡ true
    → s ≡ t
unfolding get_soul
get_soul-writer section a b s t f g h k =
    unique_writer section a b s t all_souls all_souls-apart f g h k
