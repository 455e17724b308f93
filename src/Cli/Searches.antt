-- ===== src/Cli/Searches.antt =====
-- src/mergemate/cli.py: what the search commands print. What Python makes of a text is a parameter.
use mathlib.Core.Path.{subst}
use mathlib.Core.List.{append_assoc, append-nil}
use merge_mate.Base.{
  ℕ, zero, suc, String, true, false, arith, List, [], ◌∷◌, ◌++◌, ◌≡◌, ◌≢◌, refl, sym, ap, ◌∙◌, map,
  select, take,
}
use merge_mate.Base.Chars.{CodePoints}
use merge_mate.Base.Texts.{join}
use merge_mate.Domain.Status.{value}
use merge_mate.Domain.Runs.{AgentRun, ChatId}
use merge_mate.Persistence.Conversations.{Message}
use merge_mate.Persistence.Recent.{recent, recent_first, insert_recent, IsNewest, recent-IsNewest}
use merge_mate.Cli.Shell.{Shell, Line, Command, pure, echo, echo_to, ◌>>◌}

-- `text[:n]`, `text.replace("\n", " ")`, `rstrip`, `strip`, `lower`, the prints of an integer and of a
-- date, and the text of code points.
pub record Printer : Type 0 where
  pub slice : ℕ → String → String
  pub one_line : String → String
  pub rstrip : String → String
  pub strip : String → String
  pub lower : String → String
  pub chat_text : ChatId → String
  pub number : ℕ → String
  pub format_datetime : ℕ → String
  pub text_of : CodePoints → String

-- A line with its time.
abbrev pub Found : Type 0
Found = ℕ × String

abbrev pub found_at : Found → ℕ
found_at f = f.0

-- `sorted(results, key=…, reverse=True)[:limit]`, which keeps the order of equal times.
unfoldable pub newest_results : ℕ → List Found → List Found
newest_results limit results = take limit (recent_first found_at results)

module _ (p : Printer) where
  -- `_build_run_search_results`
  unfoldable pub run_result : AgentRun → String
  run_result r = join "" (
      "[run "
      ∷ p.slice 8 r.run_id
      ∷ "] "
      ∷ r.workflow
      ∷ "/"
      ∷ value r.status
      ∷ "  —  "
      ∷ p.one_line (p.slice 80 r.prompt)
      ∷ [])

  -- `_build_message_search_results`
  unfoldable pub message_result : Message → String
  message_result m = join "" (
      "[chat:"
      ∷ p.chat_text m.chat_id
      ∷ " "
      ∷ m.role
      ∷ "] "
      ∷ p.one_line (p.slice 100 m.content)
      ∷ [])

  unfoldable pub echo_all : List String → Command (Unit {0})
  echo_all [] = pure tt
  echo_all (t ∷ ts) = echo t >> echo_all ts

  -- `_print_search_results`
  unfoldable pub print_search_results : List AgentRun → Command (Unit {0})
  unfolding echo_all run_result
  print_search_results [] = echo "No matching runs found."
  print_search_results (r ∷ runs) = echo_all (map run_result (r ∷ runs))

  -- `_print_message_search_results`
  unfoldable pub print_message_search_results : List Message → Command (Unit {0})
  unfolding echo_all message_result
  print_message_search_results [] = echo "No matching messages found."
  print_message_search_results (m ∷ messages) = echo_all (map message_result (m ∷ messages))

  unfoldable pub combined_results : List AgentRun → List Message → List Found
  unfolding run_result message_result
  combined_results runs messages =
      map (λ (r : AgentRun). (r.updated_at, run_result r)) runs
      ++ map (λ (m : Message). (m.created_at, message_result m)) messages

  abbrev pub printed : ℕ → List Found → Command (Unit {0})
  printed limit [] = echo "No matching runs or messages found."
  printed limit (f ∷ fs) = echo_all (map (λ (g : Found). g.1) (newest_results limit (f ∷ fs)))

  -- `_print_combined_search_results`
  unfoldable pub print_combined_search_results :
      ℕ → List AgentRun → List Message → Command (Unit {0})
  unfolding combined_results newest_results echo_all
  print_combined_search_results limit runs messages = printed limit (combined_results runs messages)

-- What a combined search finds: a run, which was last updated at some time, or a message.
pub data Hit : Type 0 where
  of_run : AgentRun → Hit
  of_message : Message → Hit

abbrev pub hit_at : Hit → ℕ
hit_at (of_run r) = r.updated_at
hit_at (of_message m) = m.created_at

abbrev pub hits : List AgentRun → List Message → List Hit
hits runs messages = map of_run runs ++ map of_message messages

module _ {A : Type 0} (created_at : A → ℕ) (line : A → Found)
    (keep : (a : A) → found_at (line a) ≡ created_at a) where
  insert_recent-map :
      (a : A) (t : List A)
      → insert_recent found_at (line a) (map line t) ≡ map line (insert_recent created_at a t)
  unfolding insert_recent
  insert_recent-map a [] = refl
  insert_recent-map a (x ∷ t) = ground (arith, keep a, keep x, insert_recent-map a t)

  recent_first-map :
      (t : List A) → recent_first found_at (map line t) ≡ map line (recent_first created_at t)
  unfolding recent_first
  recent_first-map [] = refl
  recent_first-map (x ∷ t) =
      ap (insert_recent found_at (line x)) (recent_first-map t)
      ∙ insert_recent-map x (recent_first created_at t)

take-map {ℓ} :
    {A B : Type ℓ} (f : A → B) (n : ℕ) (xs : List A) → take n (map f xs) ≡ map f (take n xs)
take-map f zero xs = refl
take-map f (suc n) [] = refl
take-map f (suc n) (x ∷ xs) = ap (λ t. f x ∷ t) (take-map f n xs)

map-map :
    {A B C : Type 0} (f : A → B) (g : B → C) (xs : List A)
    → map g (map f xs) ≡ map (λ x. g (f x)) xs
map-map f g [] = refl
map-map f g (x ∷ xs) = ap (λ t. g (f x) ∷ t) (map-map f g xs)

map-append {ℓ} :
    {A B : Type ℓ} (f : A → B) (xs ys : List A) → map f (xs ++ ys) ≡ map f xs ++ map f ys
map-append f [] ys = refl
map-append f (x ∷ xs) ys = ap (λ t. f x ∷ t) (map-append f xs ys)

select-all {ℓ} : {A : Type ℓ} (xs : List A) → select (λ x. true) xs ≡ xs
unfolding select
select-all [] = refl
select-all (x ∷ xs) = ap (λ t. x ∷ t) (select-all xs)

recent_first-IsNewest :
    (limit : ℕ) (found : List Hit)
    → IsNewest hit_at (λ h. true) limit found (take limit (recent_first hit_at found))
unfolding recent
recent_first-IsNewest limit found =
    subst (λ rows. IsNewest hit_at (λ h. true) limit found (take limit (recent_first hit_at rows)))
      (select-all found) (recent-IsNewest hit_at (λ h. true) limit found)

-- Lines of the standard output.
abbrev pub out_line : String → Line
out_line t = record { err = false; text = t }

module _ (p : Printer) where
  echo_all-lines :
      (ts : List String) (s : Shell) → (echo_all p ts s).1.lines ≡ s.lines ++ map out_line ts
  unfolding echo_all echo_to
  echo_all-lines [] s = sym (append-nil s.lines)
  echo_all-lines (t ∷ ts) s =
      echo_all-lines ts (record s { lines = s.lines ++ out_line t ∷ [] })
      ∙ append_assoc s.lines (out_line t ∷ []) (map out_line ts)

  -- The line that a hit is printed as.
  abbrev pub hit_line : Hit → String
  hit_line (of_run r) = run_result p r
  hit_line (of_message m) = message_result p m

  hit_found : Hit → Found
  hit_found h = (hit_at h, hit_line h)

  combined_results-hits :
      (runs : List AgentRun) (messages : List Message)
      → combined_results p runs messages ≡ map hit_found (hits runs messages)
  unfolding combined_results hit_found
  combined_results-hits runs messages = sym (
      map-append hit_found (map of_run runs) (map of_message messages)
      ∙ (ap (λ t. t ++ map hit_found (map of_message messages)) (map-map of_run hit_found runs)
          ∙ ap (λ t. map (λ (r : AgentRun). (r.updated_at, run_result p r)) runs ++ t)
              (map-map of_message hit_found messages)))

  -- The lines of a search that finds something.
  abbrev pub IsPrinted : ℕ → List Hit → Shell → Shell → Type 0
  IsPrinted limit found s t =
      (out : List Hit) × IsNewest hit_at (λ h. true) limit found out
      × (t.lines ≡ s.lines ++ map out_line (map hit_line out))

  printed-lines :
      (limit : ℕ) (found : List Hit) (s : Shell)
      → found ≢ []
      → (printed p limit (map hit_found found) s).1.lines
        ≡ s.lines ++ map out_line (map hit_line (take limit (recent_first hit_at found)))
  unfolding newest_results hit_found
  printed-lines limit [] s h = absurd (h refl)
  printed-lines limit (f ∷ fs) s h =
      let newest = take limit (recent_first hit_at (f ∷ fs)) in
      let same : newest_results limit (map hit_found (f ∷ fs)) ≡ map hit_found newest =
        ap (take limit) (recent_first-map hit_at hit_found (λ a. refl) (f ∷ fs))
        ∙ take-map hit_found limit (recent_first hit_at (f ∷ fs)) in
      let texts : map (λ (g : Found). g.1) (newest_results limit (map hit_found (f ∷ fs)))
          ≡ map hit_line newest =
        ap (map (λ (g : Found). g.1)) same ∙ map-map hit_found (λ (g : Found). g.1) newest in
      echo_all-lines _ s ∙ ap (λ t. s.lines ++ map out_line t) texts

  -- If a combined search finds runs or messages, it prints the lines of as many of them, of both
  -- kinds, as the limit lets it, the newest first by the last update of a run and the time of a
  -- message, and none that it leaves out is newer than one that it prints.
  pub print_combined_search_results-IsPrinted :
      (limit : ℕ) (runs : List AgentRun) (messages : List Message) (s : Shell)
      → hits runs messages ≢ []
      → IsPrinted limit
          (hits runs messages)
          s
          (print_combined_search_results p limit runs messages s).1
  unfolding print_combined_search_results
  print_combined_search_results-IsPrinted limit runs messages s h = (
    take limit (recent_first hit_at (hits runs messages)),
    recent_first-IsNewest limit (hits runs messages),
    rw (combined_results-hits runs messages) (printed-lines limit (hits runs messages) s h),
  )
