-- ===== src/Resources.antt =====
-- web/src/lib/resources.ts: the groups of discovered resources by load balancer, up to their sorting.
use skills_dashboard.Common.{
  ◌≡◌, refl, sym, ap, ◌∙◌, subst, inl, inr, false, Option, none, some, List, [], ◌∷◌, ◌++◌,
  append-nil, append_assoc, if◌then◌else◌, Bool-cases,
}
use skills_dashboard.Text.{Text, text, text_eq, is_empty}
use skills_dashboard.Text.Laws.{text_eq-eq, text_eq_refl}
use skills_dashboard.TextMap.{get, put, get-put_self, get-put_ne}

-- An `extra` that is missing is empty.
pub record Resource : Type 0 where
  pub id : Text
  pub name : Text
  pub arn : Option Text
  pub extra : List (Text × Text)

pub record ResourceGroup : Type 0 where
  pub key : Text
  pub label : Text
  pub items : List Resource

abbrev pub ungrouped_label : Text
ungrouped_label = text "연결된 로드 밸런서 없음"

-- `a || b` on a text that may be missing
abbrev pub or_text : Option Text → Text → Text
or_text none b = b
or_text (some a) b = if is_empty a then b else a

unfoldable pub app_name : Resource → Text
unfolding get
app_name r = or_text (get (text "friendlyName") r.extra) r.name

unfoldable pub group_label_for : Resource → Text
unfolding get
group_label_for r =
    or_text (get (text "loadBalancerName") r.extra)
      (or_text (get (text "loadBalancer") r.extra) ungrouped_label)

abbrev pub group_key : Option Text → Text
group_key none = []
group_key (some k) = k

unfoldable pub key_of : Resource → Text
unfolding get
key_of r = group_key (get (text "loadBalancer") r.extra)

unfoldable pub add_item : Resource → Option ResourceGroup → ResourceGroup
unfolding key_of group_label_for
add_item r none = record { key = key_of r; label = group_label_for r; items = r ∷ [] }
add_item r (some g) = record g { items = g.items ++ (r ∷ []) }

-- The body of the loop of `groupByLoadBalancer`.
unfoldable pub file_resource : Resource → List (Text × ResourceGroup) → List (Text × ResourceGroup)
unfolding key_of get put add_item
file_resource r m = put (key_of r) (add_item r (get (key_of r) m)) m

unfoldable pub file_all : List Resource → List (Text × ResourceGroup) → List (Text × ResourceGroup)
unfolding file_resource
file_all [] m = m
file_all (r ∷ rs) m = file_all rs (file_resource r m)

-- The resources under a key, in their order.
unfoldable pub filed_under : Text → List Resource → List Resource
unfolding key_of
filed_under k [] = []
filed_under k (r ∷ rs) =
    let rest = filed_under k rs in if text_eq (key_of r) k then r ∷ rest else rest

abbrev pub items_of : Option ResourceGroup → List Resource
items_of none = []
items_of (some g) = g.items

items-add_item :
    (r : Resource) (o : Option ResourceGroup) → (add_item r o).items ≡ items_of o ++ (r ∷ [])
unfolding add_item
items-add_item r none = refl
items-add_item r (some g) = refl

file_resource-same :
    (k : Text) (r : Resource) (m : List (Text × ResourceGroup))
    → key_of r ≡ k
    → items_of (get k (file_resource r m)) ≡ items_of (get k m) ++ (r ∷ [])
unfolding file_resource
file_resource-same k r m same =
    ap items_of (
      subst
        (λ j.
          get j (put (key_of r) (add_item r (get (key_of r) m)) m)
          ≡ some (add_item r (get (key_of r) m)))
        same (get-put_self (key_of r) (add_item r (get (key_of r) m)) m))
    ∙ items-add_item r (get (key_of r) m)
    ∙ ap (λ j. items_of (get j m) ++ (r ∷ [])) same

file_resource-other :
    (k : Text) (r : Resource) (m : List (Text × ResourceGroup))
    → text_eq (key_of r) k ≡ false
    → get k (file_resource r m) ≡ get k m
unfolding file_resource
file_resource-other k r m other = get-put_ne (key_of r) k (add_item r (get (key_of r) m)) m (λ same.
    let bad : text_eq k k ≡ false = subst (λ j. text_eq j k ≡ false) same other in
    cc (text_eq_refl k))

file_all-items_from :
    (k : Text) (rs : List Resource) (m : List (Text × ResourceGroup))
    → items_of (get k (file_all rs m)) ≡ items_of (get k m) ++ filed_under k rs
unfolding file_all filed_under
file_all-items_from k [] m = sym (append-nil (items_of (get k m)))
file_all-items_from k (r ∷ rs) m = elim (Bool-cases (text_eq (key_of r) k)) [
  | inl b ↦
      rw (filed_under, b)
        (file_all-items_from k rs (file_resource r m)
          ∙ ap (λ xs. xs ++ filed_under k rs) (file_resource-same k r m (text_eq-eq (key_of r) k b))
          ∙ append_assoc (items_of (get k m)) (r ∷ []) (filed_under k rs))
  | inr b ↦
      rw (filed_under, b)
        (file_all-items_from k rs (file_resource r m)
          ∙ ap (λ o. items_of o ++ filed_under k rs) (file_resource-other k r m b))
]

-- The group that is filed under a load balancer holds the resources attached to it and no others, each
-- as often and in the order in which they were discovered; so does the group of those attached to none.
pub file_all-items :
    (k : Text) (rs : List Resource) → items_of (get k (file_all rs [])) ≡ filed_under k rs
unfolding get
file_all-items k rs = file_all-items_from k rs []
