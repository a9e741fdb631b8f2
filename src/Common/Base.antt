-- ===== src/Common/Base.antt =====
-- The base classes of common/models.py that the other models extend.
use agamin_crm.Prelude.{List, Option, String, contains, if◌then◌else◌, some, ℕ, ◌∷◌, ◌++◌}
use agamin_crm.Prelude.Action.{Outcome, returned, raised, validation_error}

-- `Base.add_to_workflow` on the field `workflow`, newest entry first. A text that is only added to
-- is kept as the list of the pieces that were put together.
unfoldable pub add_to_workflow : String → List String → List String → List String
add_to_workflow f_date msg workflow = f_date ∷ " - " ∷ (msg ++ "\n" ∷ workflow)

-- `Base1.clean`: an owner belongs to the department of what he owns. `departments` gives the groups
-- of a user that are departments.
unfoldable pub base1_clean : (ℕ → List ℕ) → Option ℕ → Option ℕ → Outcome (Unit {0})
base1_clean departments (some owner) (some department) =
    if contains department (departments owner) then returned tt else raised validation_error
base1_clean departments _ _ = returned tt
