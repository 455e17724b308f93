-- ===== src/Persistence/Learnings/Groups.antt =====
-- How many entries of a workflow the grouped list has.
use mathlib.Core.Path.{subst}
use merge_mate.Base.{
  ℕ, ◌+◌, ◌≤◌, String, Bool, false, List, [], ◌∷◌, ◌++◌, ◌≡◌, refl, sym, ap, ◌∙◌, str_eq, eq_iff,
  if◌then◌else◌, Bool-cases, inl, inr, length, take, length-take-le, select, count_where, All,
  All-take, arith,
}
use merge_mate.Domain.Runs.{ChatId}
use merge_mate.Persistence.Learnings.{
  LearningEntry, entry_in, by_workflow, Grouped, add_entry, group_entries, pop, first_of_each,
  list_grouped_by_workflow,
}

abbrev pub of_workflow : String → LearningEntry → Bool
of_workflow w e = str_eq e.workflow w

-- Every group has its own key, and holds entries of its workflow.
abbrev HasWorkflow : String → LearningEntry → Type 0
HasWorkflow w e = e.workflow ≡ w

abbrev IsApart : String → Grouped → Type 0
IsApart w g = All (λ p. str_eq p.0 w ≡ false) g

abbrev IsGrouped : Grouped → Type 0
IsGrouped [] = Unit
IsGrouped ((w, es) ∷ rest) = All (HasWorkflow w) es × IsApart w rest × IsGrouped rest

All-append :
    (P : LearningEntry → Type 0) (xs ys : List LearningEntry)
    → All P xs
    → All P ys
    → All P (xs ++ ys)
All-append P [] ys h k = k
All-append P (x ∷ xs) ys h k = (h.0, All-append P xs ys h.1 k)

add_entry-IsApart :
    (w : String) (e : LearningEntry) (g : Grouped)
    → str_eq e.workflow w ≡ false
    → IsApart w g
    → IsApart w (add_entry e g)
unfolding add_entry
add_entry-IsApart w e [] other h = (other, tt)
add_entry-IsApart w e ((v, es) ∷ rest) other h = elim (Bool-cases (str_eq v e.workflow)) [
  | inl same ↦ rw same h
  | inr apart ↦ rw apart (h.0, add_entry-IsApart w e rest other h.1)
]

add_entry-IsGrouped : (e : LearningEntry) (g : Grouped) → IsGrouped g → IsGrouped (add_entry e g)
unfolding add_entry
add_entry-IsGrouped e [] h = ((refl, tt), tt, tt)
add_entry-IsGrouped e ((v, es) ∷ rest) h = elim (Bool-cases (str_eq v e.workflow)) [
  | inl same ↦ rw same (
    All-append (HasWorkflow v) es (e ∷ []) h.0 (sym ((eq_iff v e.workflow).0 same), tt),
    h.1,
    h.2,
  )
  | inr apart ↦
      let other : str_eq e.workflow v ≡ false =
        ground (arith, apart, eq_iff v e.workflow, eq_iff e.workflow v) in
      rw apart (h.0, add_entry-IsApart v e rest other h.1, add_entry-IsGrouped e rest h.2)
]

group_entries-IsGrouped :
    (g : Grouped) (es : List LearningEntry) → IsGrouped g → IsGrouped (group_entries g es)
unfolding group_entries
group_entries-IsGrouped g [] h = h
group_entries-IsGrouped g (e ∷ es) h =
    group_entries-IsGrouped (add_entry e g) es (add_entry-IsGrouped e g h)

count-append :
    (p : LearningEntry → Bool) (xs ys : List LearningEntry)
    → count_where p (xs ++ ys) ≡ count_where p xs + count_where p ys
unfolding count_where
count-append p [] ys = omega arith
count-append p (x ∷ xs) ys = ground (arith, count-append p xs ys)

count-length : (p : LearningEntry → Bool) (xs : List LearningEntry) → count_where p xs ≤ length xs
unfolding count_where
count-length p [] = omega arith
count-length p (x ∷ xs) = ground (arith, count-length p xs)

-- A list of entries of other workflows has none of this one.
count-other :
    (w v : String) (xs : List LearningEntry)
    → str_eq v w ≡ false
    → All (HasWorkflow v) xs
    → count_where (of_workflow w) xs ≡ 0
unfolding count_where
count-other w v [] apart h = refl
count-other w v (x ∷ xs) apart h =
    let other : str_eq x.workflow w ≡ false = ap (λ u. str_eq u w) h.0 ∙ apart in
    rw other (count-other w v xs apart h.1)

first_of_each-apart :
    (w : String) (limit : ℕ) (g : Grouped)
    → IsGrouped g
    → IsApart w g
    → count_where (of_workflow w) (first_of_each limit g) ≡ 0
unfolding first_of_each
first_of_each-apart w limit [] h apart = unfold count_where in refl
first_of_each-apart w limit ((v, es) ∷ rest) h apart = omega (
  arith,
  count-append (of_workflow w) (take limit es) (first_of_each limit rest),
  count-other w v (take limit es) apart.0 (All-take (HasWorkflow v) limit es h.0),
  first_of_each-apart w limit rest h.2 apart.1,
)

first_of_each-bound :
    (w : String) (limit : ℕ) (g : Grouped)
    → IsGrouped g
    → count_where (of_workflow w) (first_of_each limit g) ≤ limit
unfolding first_of_each
first_of_each-bound w limit [] h = unfold count_where in omega arith
first_of_each-bound w limit ((v, es) ∷ rest) h = elim (Bool-cases (str_eq v w)) [
  | inl same ↦
      let others : IsApart w rest = subst (λ u. IsApart u rest) ((eq_iff v w).0 same) h.1 in
      omega (
        arith,
        count-append (of_workflow w) (take limit es) (first_of_each limit rest),
        first_of_each-apart w limit rest h.2 others,
        count-length (of_workflow w) (take limit es),
        length-take-le limit es,
      )
  | inr apart ↦ omega (
    arith,
    count-append (of_workflow w) (take limit es) (first_of_each limit rest),
    count-other w v (take limit es) apart (All-take (HasWorkflow v) limit es h.0),
    first_of_each-bound w limit rest h.2,
  )
]

-- What the popped dictionary and the popped entries keep.
pop-IsApart : (v w : String) (g : Grouped) → IsApart v g → IsApart v (pop w g).1
unfolding pop
pop-IsApart v w [] h = tt
pop-IsApart v w ((u, es) ∷ rest) h = elim (Bool-cases (str_eq u w)) [
  | inl same ↦ rw same h.1
  | inr apart ↦ rw apart (h.0, pop-IsApart v w rest h.1)
]

abbrev IsPopped : String → List LearningEntry × Grouped → Type 0
IsPopped w (mine, others) = All (HasWorkflow w) mine × IsApart w others × IsGrouped others

pop-IsPopped : (w : String) (g : Grouped) → IsGrouped g → IsPopped w (pop w g)
unfolding pop
pop-IsPopped w [] h = (tt, tt, tt)
pop-IsPopped w ((u, es) ∷ rest) h = elim (Bool-cases (str_eq u w)) [
  | inl same ↦
      let e : u ≡ w = (eq_iff u w).0 same in
      rw same (subst (λ v. All (HasWorkflow v) es) e h.0, subst (λ v. IsApart v rest) e h.1, h.2)
  | inr apart ↦
      let later = pop-IsPopped w rest h.2 in
      rw apart (later.0, (apart, later.1), (h.0, pop-IsApart u w rest h.1, later.2))
]

-- list_grouped_by_workflow gives at most the first limit of entries of the current workflow, and
-- at most the second one of each other workflow.
pub list_grouped_by_workflow-bound :
    (chat : ChatId) (current w : String) (same_limit other_limit : ℕ) (rows : List LearningEntry)
    → count_where
        (of_workflow w)
        (list_grouped_by_workflow chat current same_limit other_limit rows)
      ≤ (if str_eq current w then same_limit else other_limit)
unfolding list_grouped_by_workflow
list_grouped_by_workflow-bound chat current w same_limit other_limit rows =
    let g = group_entries [] (by_workflow (select (entry_in chat) rows)) in
    let popped =
      pop-IsPopped current g
        (group_entries-IsGrouped [] (by_workflow (select (entry_in chat) rows)) tt) in
    let mine = take same_limit (pop current g).0 in
    let total = count-append (of_workflow w) mine (first_of_each other_limit (pop current g).1) in
    elim (Bool-cases (str_eq current w)) [
      | inl same ↦
          let e : current ≡ w = (eq_iff current w).0 same in
          rw same (
            omega (
              arith,
              total,
              first_of_each-apart w other_limit (pop current g).1 popped.2
                  (subst (λ v. IsApart v (pop current g).1) e popped.1),
              count-length (of_workflow w) mine,
              length-take-le same_limit (pop current g).0,
            ))
      | inr apart ↦ rw apart (
          omega (
            arith,
            total,
            count-other w current mine apart
                (All-take (HasWorkflow current) same_limit (pop current g).0 popped.0),
            first_of_each-bound w other_limit (pop current g).1 popped.2,
          ))
    ]
