-- ===== src/Tasks/Model.antt =====
-- internal/tasks/model.go, and what it uses of internal/fieldtypes/fieldtypes.go. A date is a number of
-- nanoseconds.
use team_flow.Prelude.{
  ℕ, String, Bool, true, false, not, ◌&&◌, ◌||◌, Option, none, some, List, [], ◌∷◌, ◌++◌, ◌==◌,
  str_eq, if◌then◌else◌, trim_space,
}
use team_flow.Validation.{Validator, check, required, max_len}

-- `Optional`: an omitted field is not set, an explicit null is set to `none`.
pub record Optional (A : Type 0) : Type 0 where
  pub is_set : Bool
  pub value : Option A

-- `EqualPtr`
abbrev pub equal_opt : {A : Type 0} → (A → A → Bool) → Option A → Option A → Bool
equal_opt eq none none = true
equal_opt eq none (some b) = false
equal_opt eq (some a) none = false
equal_opt eq (some a) (some b) = eq a b

-- `NormalizeOptionalText`
unfoldable pub normalize_optional_text : Option String → Option String
normalize_optional_text none = none
normalize_optional_text (some s) = if str_eq (trim_space s) "" then none else some s

-- `CreateInput` of package tasks.
pub record NewTask : Type 0 where
  pub title : String
  pub description : Option String
  pub status : String
  pub priority : String
  pub assignee_id : Option ℕ
  pub due_date : Option ℕ

pub record UpdateInput : Type 0 where
  pub title : Option String
  pub description : Optional String
  pub status : Option String
  pub priority : Option String
  pub assignee_id : Optional ℕ
  pub due_date : Optional ℕ

pub record Fields : Type 0 where
  pub title : String
  pub description : Option String
  pub status : String
  pub priority : String
  pub assignee_id : Option ℕ
  pub due_date : Option ℕ

-- `fields`
unfoldable pub new_fields : NewTask → Fields
unfolding normalize_optional_text
new_fields input = record {
  title = trim_space input.title;
  description = normalize_optional_text input.description;
  status = if str_eq input.status "" then "todo" else input.status;
  priority = if str_eq input.priority "" then "medium" else input.priority;
  assignee_id = input.assignee_id;
  due_date = input.due_date;
}

-- `if in.X != nil { next.X = … }`
abbrev pub given : {A : Type 0} → (A → A) → Option A → A → A
given f none current = current
given f (some a) current = f a

abbrev pub is_given : {A : Type 0} → Option A → Bool
is_given none = false
is_given (some a) = true

-- `if next.X != current.X { changed = append(changed, "x") }`, for a field that is present.
abbrev pub noted : String → Bool → Bool → List String → List String
noted name present differs changed = if present && differs then changed ++ name ∷ [] else changed

abbrev pub merged : UpdateInput → Fields → Fields
merged input current = record {
  title = given trim_space input.title current.title;
  description =
      if input.description.is_set
      then normalize_optional_text input.description.value
      else current.description;
  status = given (λ s. s) input.status current.status;
  priority = given (λ s. s) input.priority current.priority;
  assignee_id = if input.assignee_id.is_set then input.assignee_id.value else current.assignee_id;
  due_date = if input.due_date.is_set then input.due_date.value else current.due_date;
}

-- `apply`
unfoldable pub apply_update : UpdateInput → Fields → Fields × List String
unfolding normalize_optional_text
apply_update input current =
    let next = merged input current in
    (
      next,
      noted "due_date" input.due_date.is_set
          (not (equal_opt (λ a b. a == b) next.due_date current.due_date))
          (noted "assignee_id" input.assignee_id.is_set
            (not (equal_opt (λ a b. a == b) next.assignee_id current.assignee_id))
            (noted "priority" (is_given input.priority)
              (not (str_eq next.priority current.priority))
              (noted "status" (is_given input.status) (not (str_eq next.status current.status)) (
                noted "description" input.description.is_set
                  (not (equal_opt (λ a b. str_eq a b) next.description current.description))
                  (noted "title" (is_given input.title) (not (str_eq next.title current.title))
                    []))))),
    )

abbrev pub described : Option String → Validator → Validator
described none v = v
described (some text) v = max_len "description" text 5000 v

abbrev pub is_task_status : String → Bool
is_task_status s =
    str_eq s "todo"
    || (str_eq s "in_progress"
        || (str_eq s "blocked"
            || (str_eq s "in_review" || (str_eq s "done" || str_eq s "cancelled"))))

abbrev pub is_priority : String → Bool
is_priority s = str_eq s "low" || (str_eq s "medium" || (str_eq s "high" || str_eq s "urgent"))

-- `validate`
unfoldable pub validate_fields : Fields → Validator
unfolding required max_len check
validate_fields f =
    check (is_priority f.priority) "priority" "must be one of low, medium, high, urgent" (
      check (is_task_status f.status) "status"
        "must be one of todo, in_progress, blocked, in_review, done, cancelled"
        (described f.description (max_len "title" f.title 200 (required "title" f.title []))))
