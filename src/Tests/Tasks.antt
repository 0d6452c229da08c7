-- ===== src/Tests/Tasks.antt =====
-- The theorems on the fields of tasks, at an update of two fields.
use team_flow.Prelude.{◌≡◌, refl, [], none, some, true, false}
use team_flow.Tasks.Model.{Fields, UpdateInput, apply_update}
use team_flow.Tasks.Changes.{apply_update-again, apply_update-unchanged}

abbrev current : Fields
current = record {
  title = "Plan";
  description = none;
  status = "todo";
  priority = "low";
  assignee_id = none;
  due_date = some 5;
}

abbrev input : UpdateInput
input = record {
  title = some " Plan ";
  description = record { is_set = false; value = none };
  status = some "done";
  priority = none;
  assignee_id = record { is_set = true; value = some 3 };
  due_date = record { is_set = true; value = none };
}

abbrev same_title : UpdateInput
same_title = record input {
  status = none;
  assignee_id = record { is_set = true; value = none };
  due_date = record { is_set = true; value = some 5 };
}

apply_update-again_example :
    apply_update input (apply_update input current).0 ≡ ((apply_update input current).0, [])
apply_update-again_example = apply_update-again input current

apply_update-unchanged_example : (apply_update same_title current).0 ≡ current
unfolding apply_update team_flow.Prelude.trim_space
apply_update-unchanged_example = apply_update-unchanged same_title current refl
