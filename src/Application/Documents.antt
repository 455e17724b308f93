-- ===== src/Application/Documents.antt =====
-- src/mergemate/application/services/documentation_service.py: the documents of a run, which the service
-- writes below its docs root. Below it, a file has a section and a name; both are code points where
-- the source walks them.
pub mod Titles
pub mod Names
pub mod Fresh
pub mod Saves
use merge_mate.Base.{
  ℕ, zero, suc, ◌+◌, String, Bool, true, false, not, ◌&&◌, ◌||◌, Option, none, some, List, [], ◌∷◌,
  ◌++◌, map, if◌then◌else◌, ltb, leb, ◌==◌, length, take, elem, str_eq, text_append,
}
use merge_mate.Base.Chars.{CodePoints, codes, chars_eq, lstrip_of, rstrip_of, join_chars, decimal}
use merge_mate.Base.Texts.{join, sorted}
use merge_mate.Domain.Souls.{Soul, get_soul}
use merge_mate.Application.Documents.Titles.{
  Unicode, strip, chars_elem, slugify, extract_plan_summary,
}
use merge_mate.Telegram.Messages.{is_space}

-- A file below the docs root.
pub record Document : Type 0 where
  pub section : String
  pub name : CodePoints
  pub content : CodePoints

pub record Docs : Type 0 where
  pub dirs : List String
  pub files : List Document

abbrev pub section_names : List String
section_names =
    "planning" ∷ "architecture" ∷ "implementation" ∷ "testing" ∷ "review" ∷ "reviews" ∷ "lessons"
    ∷ "requirements" ∷ "shared" ∷ []

-- `mkdir(parents=True, exist_ok=True)`
unfoldable pub mkdir : String → Docs → Docs
mkdir name d = if elem name d.dirs then d else record d { dirs = d.dirs ++ name ∷ [] }

-- `_ensure_dirs`
unfoldable pub ensure_dirs : List String → Docs → Docs
ensure_dirs [] d = d
ensure_dirs (name ∷ names) d = ensure_dirs names (mkdir name d)

-- The names of the files of a section, and the test `exists()`.
unfoldable pub names_in : String → List Document → List CodePoints
names_in section [] = []
names_in section (f ∷ files) =
    let rest = names_in section files in if str_eq f.section section then f.name ∷ rest else rest

abbrev pub md : CodePoints
md = codes ".md"

abbrev pub numbered : CodePoints → ℕ → CodePoints
numbered root counter = root ++ 45 ∷ decimal counter ++ md

-- The loop over the counters; none says that the fuel ran out.
unfoldable pub deduplicated : ℕ → List CodePoints → CodePoints → ℕ → Option CodePoints
deduplicated zero taken root counter = none
deduplicated (suc fuel) taken root counter =
    let next = deduplicated fuel taken root (counter + 1) in
    if chars_elem (numbered root counter) taken then next else some (numbered root counter)

unfoldable pub with_suffix : CodePoints → CodePoints → CodePoints
with_suffix root [] = root
with_suffix root (c ∷ t) = root ++ 45 ∷ c ∷ t

unfoldable pub with_iteration : ℕ → CodePoints → CodePoints
with_iteration iteration root =
    if ltb 1 iteration then root ++ codes "-iteration-" ++ decimal iteration else root

-- `_build_document_path`: the name. One counter more than there are names is enough.
unfoldable pub build_document_path :
    Unicode → List CodePoints → CodePoints → CodePoints → ℕ → Option CodePoints
unfolding deduplicated with_suffix with_iteration
build_document_path u taken summary suffix iteration =
    let root = with_iteration iteration (with_suffix (slugify u summary) suffix) in
    if chars_elem (root ++ md) taken
    then deduplicated (suc (length taken)) taken root 2
    else some (root ++ md)

-- A document before it is written: what each of the five operations gives to `_write_document`.
pub record Draft : Type 0 where
  pub section_name : String
  pub document_suffix : CodePoints
  pub title_prefix : CodePoints
  pub sections : List (CodePoints × CodePoints)

unfoldable pub section_lines : List (CodePoints × CodePoints) → List CodePoints
section_lines [] = []
section_lines ((heading, body) ∷ rest) =
    (codes "## " ++ heading) ∷ [] ∷ strip body ∷ [] ∷ section_lines rest

unfoldable pub content_of : CodePoints → ℕ → CodePoints → Draft → CodePoints
unfolding section_lines
content_of run_id iteration summary draft =
    rstrip_of is_space (
      join_chars (10 ∷ []) (
        (codes "# " ++ draft.title_prefix ++ codes ": " ++ summary)
        ∷ []
        ∷ (codes "- Run ID: " ++ run_id)
        ∷ (codes "- Iteration: " ++ decimal iteration)
        ∷ (codes "- Plan Summary: " ++ summary)
        ∷ []
        ∷ section_lines draft.sections))
    ++ 10 ∷ []

-- `write_text`: the file is replaced or made.
unfoldable pub write_text : Document → List Document → List Document
write_text doc [] = doc ∷ []
write_text doc (f ∷ files) =
    let rest = write_text doc files in
    if str_eq f.section doc.section && chars_eq f.name doc.name then doc ∷ files else f ∷ rest

-- What an operation comes to: PermissionError, the path that it returns, or a loop without end.
pub data Saving : Type 0 where
  permission_error : String → Saving
  path : String → CodePoints → Saving
  endless : Saving

-- `_write_document`
unfoldable pub place : Draft → CodePoints → Option CodePoints → Docs → Saving × Docs
unfolding write_text
place draft content none d = (endless, d)
place draft content (some name) d = (
  path draft.section_name name,
  record d {
    files =
        write_text (record { section = draft.section_name; name = name; content = content })
          d.files;
  },
)

unfoldable pub write_document : Unicode → CodePoints → ℕ → CodePoints → Draft → Docs → Saving × Docs
unfolding place mkdir
write_document u run_id iteration plan draft d =
    let summary = extract_plan_summary u plan in
    place draft (content_of run_id iteration summary draft)
      (build_document_path u (names_in draft.section_name d.files) summary draft.document_suffix
        iteration)
      (mkdir draft.section_name d)

-- `_check_write_permission`: none, or the text of the error.
abbrev pub allowed_text : List String → String
allowed_text [] = "(none)"
allowed_text (s ∷ ss) = join ", " (sorted (s ∷ ss))

unfoldable pub denial : Soul → String → String
denial soul section = join "" (
    "Soul '"
    ∷ soul.name
    ∷ "' does not have write permission for docs/"
    ∷ section
    ∷ "/. Allowed write sections: "
    ∷ allowed_text soul.doc_permissions.write
    ∷ [])

abbrev pub denied_by : String → Option Soul → Option String
denied_by section none = none
denied_by section (some soul) =
    if elem section soul.doc_permissions.write then none else some (denial soul section)

unfoldable pub check_write_permission : String → Option String → Option String
check_write_permission section none = none
check_write_permission section (some role) = denied_by section (get_soul role)

unfoldable pub unless_denied : Option String → (Docs → Saving × Docs) → Docs → Saving × Docs
unless_denied none body d = body d
unless_denied (some text) body d = (permission_error text, d)

-- The five operations, for a run, an iteration and a plan.
module _ (u : Unicode) (run_id : CodePoints) (iteration : ℕ) (plan : CodePoints) where
  unfoldable pub write_architecture_design : CodePoints → Option String → Docs → Saving × Docs
  write_architecture_design design role =
      unless_denied (check_write_permission "architecture" role) (
        write_document u run_id iteration plan (record {
          section_name = "architecture";
          document_suffix = [];
          title_prefix = codes "Architecture Design";
          sections = (codes "Approved Plan", plan) ∷ (codes "Architecture Design", design) ∷ [];
        }))

  unfoldable pub write_test_plan : CodePoints → CodePoints → Option String → Docs → Saving × Docs
  write_test_plan design test role = unless_denied (check_write_permission "testing" role) (
      write_document u run_id iteration plan (record {
        section_name = "testing";
        document_suffix = codes "test-plan";
        title_prefix = codes "Test Plan";
        sections =
            (codes "Approved Plan", plan)
            ∷ (codes "Architecture Design", design)
            ∷ (codes "Test Plan", test)
            ∷ [];
      }))

  unfoldable pub write_review_report :
      CodePoints → CodePoints → CodePoints → CodePoints → Option String → Docs → Saving × Docs
  write_review_report design implementation test review role =
      unless_denied (check_write_permission "review" role) (
        write_document u run_id iteration plan (record {
          section_name = "reviews";
          document_suffix = codes "review-report";
          title_prefix = codes "Review Report";
          sections =
              (codes "Approved Plan", plan)
              ∷ (codes "Architecture Design", design)
              ∷ (codes "Implementation", implementation)
              ∷ (codes "Test Plan", test)
              ∷ (codes "Review Report", review)
              ∷ [];
        }))

  unfoldable pub write_lesson : CodePoints → Option String → Docs → Saving × Docs
  write_lesson lesson role = unless_denied (check_write_permission "lessons" role) (
      write_document u run_id iteration plan (record {
        section_name = "lessons";
        document_suffix = codes "lessons";
        title_prefix = codes "Lessons Learned";
        sections = (codes "Approved Plan", plan) ∷ (codes "Lessons Learned", lesson) ∷ [];
      }))

  unfoldable pub write_requirement : CodePoints → Option String → Docs → Saving × Docs
  write_requirement requirement role = unless_denied (check_write_permission "requirements" role) (
      write_document u run_id iteration plan (record {
        section_name = "requirements";
        document_suffix = codes "requirement";
        title_prefix = codes "Requirement";
        sections = (codes "Approved Plan", plan) ∷ (codes "Requirement", requirement) ∷ [];
      }))
