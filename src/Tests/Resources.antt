-- ===== src/Tests/Resources.antt =====
-- Runs of web/src/lib/resources.ts, and its property at an input.
use skills_dashboard.Common.{◌≡◌, refl, none, List, [], ◌∷◌, map}
use skills_dashboard.Text.{Text, text}
use skills_dashboard.TextMap.{get, put}
use skills_dashboard.Resources.{
  Resource, ungrouped_label, app_name, group_label_for, key_of, add_item, file_resource, file_all,
  filed_under, items_of, file_all-items,
}

abbrev resource : Text → List (Text × Text) → Resource
resource name extra = record { id = name; name = name; arn = none; extra = extra }

abbrev attached : Text → Resource
attached name = resource name ((text "loadBalancer", text "app/x/1") ∷ [])

abbrev found : List Resource
found =
    attached (text "a")
    ∷ resource (text "b") []
    ∷ attached (text "c")
    ∷ resource (text "d") ((text "friendlyName", text "shop") ∷ [])
    ∷ []

groups_are : map (λ e. e.1.label) (file_all found []) ≡ text "app/x/1" ∷ ungrouped_label ∷ []
unfolding get put group_label_for key_of add_item file_resource file_all
groups_are = refl

names_are : map app_name found ≡ text "a" ∷ text "b" ∷ text "c" ∷ text "shop" ∷ []
unfolding get app_name
names_are = refl

filed_are : filed_under (text "app/x/1") found ≡ attached (text "a") ∷ attached (text "c") ∷ []
unfolding get key_of filed_under
filed_are = refl

file_all-items_example :
    items_of (get (text "app/x/1") (file_all found [])) ≡ filed_under (text "app/x/1") found
file_all-items_example = file_all-items (text "app/x/1") found
