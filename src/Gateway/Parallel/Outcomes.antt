-- ===== src/Gateway/Parallel/Outcomes.antt =====
-- When a request to several providers is answered, and by whose text.
use mathlib.Core.Path.{subst}
use merge_mate.Base.{
  String, ◌≡◌, ◌≢◌, refl, sym, ap, ◌∙◌, Bool, true, false, ◌||◌, List, [], ◌∷◌, ◌++◌, str_eq,
  eq_iff, eq_refl, Bool-cases, inl, inr, ◌⊎◌, arith, elem,
}
use merge_mate.Config.{AppConfig, parallel, CombineStrategy, sectioned, first_success, get_entry}
use merge_mate.Gateway.Retry.{cancelled, Result, returned, raised, unreachable}
use merge_mate.Gateway.Parallel.{
  Request, from_provider, successful_results, failures, section_of, all_failed, gathered, settled,
  first_completed, combine, dispatch, available_names, mode_of, strategy_of, generate,
}

abbrev pub is_returned : Result → Bool
is_returned (returned t) = true
is_returned _ = false

module _ (c : AppConfig) (q : Request) where
  -- Some provider of the list gives a text.
  unfoldable pub answers : List String → Bool
  answers [] = false
  answers (n ∷ ns) = is_returned (from_provider c q n) || answers ns

  abbrev pub IsUncancelled : Type 0
  IsUncancelled = (n : String) → from_provider c q n ≢ raised cancelled

  -- The tasks that complete are those of the request.
  abbrev pub IsSchedule : Type 0
  IsSchedule = (names : List String) (n : String) → elem n (q.completed names) ≡ elem n names

  section_cases :
      (n : String) (r : Result)
      → (section_of c q n r ≡ []) × (is_returned r ≡ false)
        ⊎ ((t : String) × (section_of c q n r ≡ (n, t) ∷ []) × (is_returned r ≡ true))
  section_cases n (returned t) = inr (t, refl, refl)
  section_cases n (raised e) = inl (refl, refl)
  section_cases n unreachable = inl (refl, refl)

  gathered-cons :
      (d : String × String) (ds fs : List (String × String))
      → is_returned (gathered c q (d ∷ ds) fs) ≡ true
  gathered-cons d ds fs = refl

  gathered-answers :
      (ns : List String) (fs : List (String × String))
      → is_returned (gathered c q (successful_results c q ns) fs) ≡ answers ns
  unfolding successful_results answers
  gathered-answers [] fs = unfold all_failed in refl
  gathered-answers (n ∷ ns) fs = elim (section_cases n (from_provider c q n)) [
    | inl (e, r) ↦ rw (e, r) (gathered-answers ns fs)
    | inr (t, e, r) ↦ rw (e, r) refl
  ]

  settled-cases :
      (r : Result)
      → r ≢ raised cancelled
      → ((t : String) × (r ≡ returned t) × (settled c q r ≡ inl (returned t)))
        ⊎ ((t : String) × (settled c q r ≡ inr t) × (is_returned r ≡ false))
  settled-cases (returned t) h = inl (t, refl, refl)
  settled-cases (raised cancelled) h = absurd (h refl)
  settled-cases (raised e) h = inr (q.error_text e, refl, refl)
  settled-cases unreachable h = inr (_, refl, refl)

  first_completed-answers :
      (fs : List (String × String)) (ns : List String)
      → IsUncancelled
      → is_returned (first_completed c q fs ns) ≡ answers ns
  unfolding first_completed answers
  first_completed-answers fs [] h = unfold all_failed in refl
  first_completed-answers fs (n ∷ ns) h = elim (settled-cases (from_provider c q n) (h n)) [
    | inl (t, r, e) ↦ rw (e, first_completed, r) refl
    | inr (t, e, r) ↦ rw (e, first_completed, r) (first_completed-answers (fs ++ (n, t) ∷ []) ns h)
  ]

  answers-elem :
      (ns : List String)
      → answers ns ≡ true
      → (n : String) × (elem n ns ≡ true) × (is_returned (from_provider c q n) ≡ true)
  unfolding answers elem
  answers-elem [] h = ("", ground (arith, h), ground (arith, h))
  answers-elem (n ∷ ns) h = elim (Bool-cases (is_returned (from_provider c q n))) [
    | inl e ↦ (n, rw (eq_refl n) refl, e)
    | inr e ↦
        let rest : answers ns ≡ true = ground (arith, h, e) in
        let (m, member, text) = answers-elem ns rest in (m, ground (arith, member), text)
  ]

  elem-answers :
      (ns : List String) (n : String)
      → elem n ns ≡ true
      → is_returned (from_provider c q n) ≡ true
      → answers ns ≡ true
  unfolding answers elem
  elem-answers [] n member text = ground (arith, member)
  elem-answers (m ∷ ns) n member text = elim (Bool-cases (str_eq m n)) [
    | inl e ↦ rw ((eq_iff m n).0 e, text) refl
    | inr e ↦
        let rest : elem n ns ≡ true = ground (arith, member, e) in
        ground (arith, elem-answers ns n rest text)
  ]

  answers-schedule : IsSchedule → (ns : List String) → answers (q.completed ns) ≡ answers ns
  answers-schedule schedule ns = elim (Bool-cases (answers ns)) [
    | inl e ↦
        let (n, member, text) = answers-elem ns e in
        elem-answers (q.completed ns) n (schedule ns n ∙ member) text ∙ sym e
    | inr e ↦ elim (Bool-cases (answers (q.completed ns))) [
      | inr f ↦ f ∙ sym e
      | inl f ↦
          let (n, member, text) = answers-elem (q.completed ns) f in
          f ∙ sym (elem-answers ns n (sym (schedule ns n) ∙ member) text)
    ]
  ]

  combine-answers :
      (s : CombineStrategy) (ns : List String)
      → IsUncancelled
      → IsSchedule
      → is_returned (combine c q s ns) ≡ answers ns
  combine-answers first_success ns h schedule =
      first_completed-answers [] (q.completed ns) h ∙ answers-schedule schedule ns
  combine-answers sectioned ns h schedule = gathered-answers ns (failures c q ns)

  dispatch-answers :
      (agent : String) (s : CombineStrategy) (ns : List String)
      → IsUncancelled
      → IsSchedule
      → is_returned (dispatch c q agent parallel s ns) ≡ answers ns
  unfolding answers
  dispatch-answers agent s [] h schedule = refl
  dispatch-answers agent s (n ∷ []) h schedule = ground arith
  dispatch-answers agent s (n ∷ m ∷ ns) h schedule = combine-answers s (n ∷ m ∷ ns) h schedule

  -- For an agent in parallel mode, with no provider's call cancelled and tasks that complete in
  -- any order, generate returns a text exactly if some available provider's call returns one,
  -- whichever way the answers are combined.
  pub generate-answers :
      (agent : String)
      → mode_of (get_entry agent c.agents) ≡ parallel
      → IsUncancelled
      → IsSchedule
      → is_returned (generate c q agent) ≡ answers (available_names c q agent)
  unfolding generate
  generate-answers agent mode h schedule = rw mode (
      dispatch-answers agent (strategy_of (get_entry agent c.agents)) (available_names c q agent) h
        schedule)

  abbrev pub IsFirst : String → List String → Type 0
  IsFirst t ns =
      (before : List String) × (n : String) × (after : List String) × (ns ≡ before ++ n ∷ after)
      × (from_provider c q n ≡ returned t)
      × (answers before ≡ false)

  -- The loop's step, on what the first task does to it.
  abbrev first_done : List (String × String) → String → List String → Result ⊎ String → Result
  first_done fs n ns (inl r) = r
  first_done fs n ns (inr t) = first_completed c q (fs ++ (n, t) ∷ []) ns

  -- If no provider's call is cancelled and the first-success strategy returns a text, it is the
  -- text of the first task to complete with one.
  pub first_completed-IsFirst :
      (fs : List (String × String)) (ns : List String) (t : String)
      → IsUncancelled
      → first_completed c q fs ns ≡ returned t
      → IsFirst t ns
  unfolding first_completed answers
  first_completed-IsFirst fs [] t h e = unfold all_failed in ground (arith, e)
  first_completed-IsFirst fs (n ∷ ns) t h e = elim (settled-cases (from_provider c q n) (h n)) [
    | inl (u, r, s) ↦
        let same : returned u ≡ returned t = subst (λ v. first_done fs n ns v ≡ returned t) s e in
        ([], n, ns, refl, r ∙ same, refl)
    | inr (u, s, r) ↦
        let rest = subst (λ v. first_done fs n ns v ≡ returned t) s e in
        let (before, m, after, eq, text, none_before) =
          first_completed-IsFirst (fs ++ (n, u) ∷ []) ns t h rest in
        (n ∷ before, m, after, ap (λ l. n ∷ l) eq, text, rw r none_before)
  ]
