-- ===== src/Tasks/Changes.antt =====
-- internal/tasks/model.go: what an update reports as changed.
use team_flow.Prelude.{
  ℕ, ◌≡◌, refl, ap, ◌∙◌, String, Bool, true, false, not, ◌&&◌, Option, none, some, List, [], ◌∷◌,
  ◌==◌, ==_iff, str_eq, str_eq_iff, if◌then◌else◌, trim_space,
}
use team_flow.Tasks.Model.{
  UpdateInput, Fields, equal_opt, given, is_given, noted, merged, apply_update,
  normalize_optional_text,
}

-- A test of two values for equality.
abbrev Decides : {A : Type 0} → (A → A → Bool) → Type 0
Decides {A} eq = (a b : A) → (eq a b ≡ true → a ≡ b) × (a ≡ b → eq a b ≡ true)

strings : Decides (λ a b. str_eq a b)
strings a b = ((str_eq_iff a b).0, (str_eq_iff a b).1)

numbers : Decides (λ a b. a == b)
numbers a b = ((==_iff a b).0, (==_iff a b).1)

options : {A : Type 0} (eq : A → A → Bool) → Decides eq → Decides (equal_opt eq)
options eq d none none = (λ h. refl, λ h. refl)
options eq d none (some b) = (λ h. absurd (cc h), λ h. absurd (cc h))
options eq d (some a) none = (λ h. absurd (cc h), λ h. absurd (cc h))
options eq d (some a) (some b) = (λ h. ap some ((d a b).0 h), λ h. (d a b).1 (cc h))

module _ {A : Type 0} (eq : A → A → Bool) (d : Decides eq) where
  -- A second update by the same input notes nothing.
  given-again :
      (f : A → A) (name : String) (o : Option A) (c : A) (xs : List String)
      → noted name (is_given o) (not (eq (given f o (given f o c)) (given f o c))) xs ≡ xs
  given-again f name none c xs = refl
  given-again f name (some a) c xs = rw ((d (f a) (f a)).1 refl) refl

  set-again :
      (name : String) (b : Bool) (v c : A) (xs : List String)
      → noted name b (not (eq (if b then v else (if b then v else c)) (if b then v else c))) xs ≡ xs
  set-again name false v c xs = refl
  set-again name true v c xs = rw ((d v v).1 refl) refl

  noted-empty :
      (name : String) (present differs : Bool) (xs : List String)
      → noted name present differs xs ≡ []
      → (xs ≡ []) × (present && differs ≡ false)
  noted-empty name false differs xs h = (h, refl)
  noted-empty name true false xs h = (h, refl)
  noted-empty name true true [] h = absurd (cc h)
  noted-empty name true true (x ∷ xs) h = absurd (cc h)

  not-false : (b : Bool) → not b ≡ false → b ≡ true
  not-false true h = refl
  not-false false h = absurd (cc h)

  -- A field that is not noted is as it was.
  noted-given :
      (f : A → A) (name : String) (o : Option A) (c : A) (xs : List String)
      → noted name (is_given o) (not (eq (given f o c) c)) xs ≡ []
      → (xs ≡ []) × (given f o c ≡ c)
  noted-given f name none c xs h = (h, refl)
  noted-given f name (some a) c xs h =
      let (e, same) = noted-empty name true (not (eq (f a) c)) xs h in
      (e, (d (f a) c).0 (not-false _ same))

  noted-set :
      (name : String) (b : Bool) (v c : A) (xs : List String)
      → noted name b (not (eq (if b then v else c) c)) xs ≡ []
      → (xs ≡ []) × ((if b then v else c) ≡ c)
  noted-set name false v c xs h = (h, refl)
  noted-set name true v c xs h =
      let (e, same) = noted-empty name true (not (eq v c)) xs h in (e, (d v c).0 (not-false _ same))

given_twice :
    {A : Type 0} (f : A → A) (o : Option A) (c : A) → given f o (given f o c) ≡ given f o c
given_twice f none c = refl
given_twice f (some a) c = refl

set_twice :
    {A : Type 0} (b : Bool) (v c : A)
    → (if b then v else (if b then v else c)) ≡ (if b then v else c)
set_twice true v c = refl
set_twice false v c = refl

-- The parts of a record of fields, one equation for each.
same_fields :
    (f g : Fields)
    → f.title ≡ g.title
    → f.description ≡ g.description
    → f.status ≡ g.status
    → f.priority ≡ g.priority
    → f.assignee_id ≡ g.assignee_id
    → f.due_date ≡ g.due_date
    → f ≡ g
same_fields f g t d s p a u =
    ap (λ x. record f { title = x }) t
    ∙ ap (λ x. record f { title = g.title; description = x }) d
    ∙ ap (λ x. record f { title = g.title; description = g.description; status = x }) s
    ∙ ap
        (λ (x : String). record g {
          priority = x;
          assignee_id = f.assignee_id;
          due_date = f.due_date;
        })
        p
    ∙ ap (λ (x : Option ℕ). record g { assignee_id = x; due_date = f.due_date }) a
    ∙ ap (λ (x : Option ℕ). record g { due_date = x }) u

-- An update that is applied once more changes nothing, and reports no change.
pub apply_update-again :
    (input : UpdateInput) (current : Fields)
    → apply_update input (apply_update input current).0 ≡ ((apply_update input current).0, [])
unfolding apply_update
apply_update-again input current =
    let text = normalize_optional_text input.description.value in
    let next = merged input current in
    let same : merged input next ≡ next =
      same_fields (merged input next) next (given_twice trim_space input.title current.title)
        (set_twice input.description.is_set text current.description)
        (given_twice (λ s. s) input.status current.status)
        (given_twice (λ s. s) input.priority current.priority)
        (set_twice input.assignee_id.is_set input.assignee_id.value current.assignee_id)
        (set_twice input.due_date.is_set input.due_date.value current.due_date) in
    let none_noted : (apply_update input next).1 ≡ [] =
      set-again (equal_opt (λ a b. a == b)) (options _ numbers) "due_date" input.due_date.is_set
        input.due_date.value current.due_date _
      ∙ set-again (equal_opt (λ a b. a == b)) (options _ numbers) "assignee_id"
          input.assignee_id.is_set input.assignee_id.value current.assignee_id _
      ∙ given-again (λ a b. str_eq a b) strings (λ s. s) "priority" input.priority current.priority
          _
      ∙ given-again (λ a b. str_eq a b) strings (λ s. s) "status" input.status current.status _
      ∙ set-again (equal_opt (λ a b. str_eq a b)) (options _ strings) "description"
          input.description.is_set text current.description _
      ∙ given-again (λ a b. str_eq a b) strings trim_space "title" input.title current.title [] in
    ap (λ (z : Fields). (z, (apply_update input next).1)) same
    ∙ ap (λ (z : List String). (next, z)) none_noted

-- An update that reports no change leaves every field as it was.
pub apply_update-unchanged :
    (input : UpdateInput) (current : Fields)
    → (apply_update input current).1 ≡ []
    → (apply_update input current).0 ≡ current
unfolding apply_update
apply_update-unchanged input current h =
    let text = normalize_optional_text input.description.value in
    let (h₁, due) =
      noted-set (equal_opt (λ a b. a == b)) (options _ numbers) "due_date" input.due_date.is_set
        input.due_date.value current.due_date _ h in
    let (h₂, assignee) =
      noted-set (equal_opt (λ a b. a == b)) (options _ numbers) "assignee_id"
        input.assignee_id.is_set input.assignee_id.value current.assignee_id _ h₁ in
    let (h₃, priority) =
      noted-given (λ a b. str_eq a b) strings (λ s. s) "priority" input.priority current.priority _
        h₂ in
    let (h₄, status) =
      noted-given (λ a b. str_eq a b) strings (λ s. s) "status" input.status current.status _ h₃ in
    let (h₅, description) =
      noted-set (equal_opt (λ a b. str_eq a b)) (options _ strings) "description"
        input.description.is_set text current.description _ h₄ in
    let (h₆, title) =
      noted-given (λ a b. str_eq a b) strings trim_space "title" input.title current.title [] h₅ in
    same_fields (merged input current) current title description status priority assignee due
