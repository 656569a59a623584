-- ===== src/Dimensions.antt =====
-- server/src/domain/dimensions.ts: resource identifiers in the spelling of CloudWatch.
use skills_dashboard.Common.{get_or}
use skills_dashboard.Common.{
  ℕ, ◌+◌, ◌-◌, ◌||◌, not, Option, none, some, List, [], ◌∷◌, ltb, ◌==◌, if◌then◌else◌, length, take,
  drop,
}
use skills_dashboard.Text.{Text, text, text_eq, index_of?, join}

-- `s.slice(i + n)` after `s.indexOf(marker)`, or the text itself.
abbrev after : Text → ℕ → Option ℕ → Text
after s n none = s
after s n (some i) = drop (i + n) s

unfoldable pub target_group_dimension : Text → Text
unfolding index_of?
target_group_dimension arn = after arn 1 (index_of? (text ":targetgroup/") arn)

abbrev pub load_balancer_marker : Text
load_balancer_marker = text ":loadbalancer/"

unfoldable pub load_balancer_dimension : Text → Text
unfolding index_of?
load_balancer_dimension arn =
    after arn (length load_balancer_marker) (index_of? load_balancer_marker arn)

-- The part before the first separator, and those after it.
abbrev first_part : ℕ → List Text → List Text
first_part c [] = (c ∷ []) ∷ []
first_part c (p ∷ ps) = (c ∷ p) ∷ ps

-- `s.split(separator)` for a separator of one character.
unfoldable pub split : ℕ → Text → List Text
split sep [] = [] ∷ []
split sep (c ∷ s) = let rest = split sep s in if c == sep then [] ∷ rest else first_part c rest

unfoldable pub friendly_target_group_name : Text → Text
unfolding split join
friendly_target_group_name name =
    let parts = split b'-' name in
    if ltb (length parts) 4 || not (text_eq (get_or parts 0 []) (text "k8s"))
    then name
    else join (text "-") (drop 2 (take (length parts - 1) parts))
