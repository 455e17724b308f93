-- ===== src/Application/Documents/Saves.antt =====
-- What the five operations of the service do to the files.
use merge_mate.Base.{
  ℕ, String, false, Option, none, some, List, [], ◌∷◌, ◌++◌, ◌≡◌, refl, ◌⊎◌, inl, inr, Option-cases,
  arith,
}
use merge_mate.Base.Chars.{CodePoints}
use merge_mate.Application.Documents.Titles.{Unicode, chars_elem, extract_plan_summary}
use merge_mate.Application.Documents.{
  Document, Docs, Draft, Saving, permission_error, path, names_in, write_text, place, mkdir,
  content_of, write_document, check_write_permission, unless_denied, write_architecture_design,
  write_test_plan, write_review_report, write_lesson, write_requirement,
}
use merge_mate.Application.Documents.Fresh.{build_document_path-fresh}

write_text-fresh :
    (doc : Document) (files : List Document)
    → chars_elem doc.name (names_in doc.section files) ≡ false
    → write_text doc files ≡ files ++ doc ∷ []
unfolding write_text names_in chars_elem
write_text-fresh doc [] h = refl
write_text-fresh doc (f ∷ files) h = ground (arith, h, write_text-fresh doc files)

mkdir-files : (name : String) (d : Docs) → (mkdir name d).files ≡ d.files
unfolding mkdir
mkdir-files name d = ground arith

-- A document is added in the section, under a name that no file of the section had, behind the files
-- that there are.
abbrev pub IsAdded : String → Docs → Saving × Docs → Type 0
IsAdded section d r =
    (doc : Document) × (doc.section ≡ section)
    × (chars_elem doc.name (names_in section d.files) ≡ false)
    × (r.0 ≡ path section doc.name)
    × ((r.1).files ≡ d.files ++ doc ∷ [])

place-IsAdded :
    (draft : Draft) (content name : CodePoints) (d : Docs) (dirs : Docs)
    → dirs.files ≡ d.files
    → chars_elem name (names_in draft.section_name d.files) ≡ false
    → IsAdded draft.section_name d (place draft content (some name) dirs)
unfolding place
place-IsAdded draft content name d dirs same fresh =
    let doc : Document = record { section = draft.section_name; name = name; content = content } in
    (doc, refl, fresh, refl, rw same (write_text-fresh doc d.files fresh))

write_document-IsAdded :
    (u : Unicode) (run_id : CodePoints) (iteration : ℕ) (plan : CodePoints) (draft : Draft)
    (d : Docs)
    → IsAdded draft.section_name d (write_document u run_id iteration plan draft d)
unfolding write_document
write_document-IsAdded u run_id iteration plan draft d =
    let summary = extract_plan_summary u plan in
    let (name, found, fresh) =
      build_document_path-fresh u (names_in draft.section_name d.files) summary
        draft.document_suffix iteration in
    rw found (
      place-IsAdded draft (content_of run_id iteration summary draft) name d
        (mkdir draft.section_name d) (mkdir-files draft.section_name d) fresh)

-- The operation asks for a permission. Either it is denied and no file changes, or the document is
-- added.
abbrev pub IsSaved : String → String → Option String → Docs → Saving × Docs → Type 0
IsSaved permission section role d r =
    ((text : String) × (check_write_permission permission role ≡ some text)
      × (r ≡ (permission_error text, d)))
    ⊎ ((check_write_permission permission role ≡ none) × IsAdded section d r)

unless_denied-IsSaved :
    (permission section : String) (role : Option String) (body : Docs → Saving × Docs) (d : Docs)
    → IsAdded section d (body d)
    → IsSaved permission section role d
        (unless_denied (check_write_permission permission role) body d)
unfolding unless_denied
unless_denied-IsSaved permission section role body d h =
    elim (Option-cases (check_write_permission permission role)) [
      | inl e ↦ rw e (inr (refl, h))
      | inr (text, e) ↦ rw e (inl (text, refl, refl))
    ]

-- Each of the five operations of the documentation service either is denied, by the check of the
-- role's permission, and changes nothing, or returns the path of a new document: its name was free
-- in its section, and every file that was there stays as it was. The search for the name always
-- ends.
pub write-IsSaved :
    (u : Unicode) (run_id : CodePoints) (iteration : ℕ)
    (plan design code tests review lesson requirement : CodePoints) (role : Option String)
    (d : Docs)
    → IsSaved "architecture" "architecture" role d
        (write_architecture_design u run_id iteration plan design role d)
      × IsSaved "testing" "testing" role d
          (write_test_plan u run_id iteration plan design tests role d)
      × IsSaved "review" "reviews" role d
          (write_review_report u run_id iteration plan design code tests review role d)
      × IsSaved "lessons" "lessons" role d (write_lesson u run_id iteration plan lesson role d)
      × IsSaved "requirements" "requirements" role d
          (write_requirement u run_id iteration plan requirement role d)
unfolding write_architecture_design write_test_plan write_review_report write_lesson
    write_requirement
write-IsSaved u run_id iteration plan design code tests review lesson requirement role d =
    let added = λ (draft : Draft). write_document-IsAdded u run_id iteration plan draft d in
    (
      unless_denied-IsSaved _ _ role _ d (added _),
      unless_denied-IsSaved _ _ role _ d (added _),
      unless_denied-IsSaved _ _ role _ d (added _),
      unless_denied-IsSaved _ _ role _ d (added _),
      unless_denied-IsSaved _ _ role _ d (added _),
    )
