-- ===== src/Query/Accepted.antt =====
-- server/src/domain/query.ts: which formats of a log the queries on the pods can be built for.
use skills_dashboard.Query.Pods.{pod_bad_status_list}
use skills_dashboard.Query.Pods.{pod_error_list}
use skills_dashboard.Query.Pods.{pod_bad_status_by_path}
use skills_dashboard.Query.Preamble.{access_fields}
use skills_dashboard.Common.{
  ℕ, ◌≡◌, refl, ◌↔◌, ◌⊎◌, inl, inr, true, false, List, [], ◌∷◌, ◌++◌, if◌then◌else◌, Bool-cases,
  All, Result, ok, err, ◌>>=◌, >>=-eq-ok,
}
use skills_dashboard.Text.{Text, text, text_eq, is_empty}
use skills_dashboard.Text.Laws.{text_eq_iff}
use skills_dashboard.TextMap.{put}
use skills_dashboard.Window.{Window}
use skills_dashboard.Runner.{Query}
use skills_dashboard.LogFormat.{LogFormat}
use skills_dashboard.Query.{QueryError, field, processed_field}
use skills_dashboard.Query.Preamble.{
  labelled, sources, add_fields_from, json_fields, access_preamble, preamble_of,
}
use skills_dashboard.Query.Pods.{pod_traffic, pod_error_series, pod_bad_status_series}
use skills_dashboard.Query.Fields.{FieldReference, field_gives, field_returns}

abbrev pub Returns : {A : Type 0} → Result QueryError A → Type 0
Returns {A} r = (a : A) × (r ≡ ok a)

-- The name under the field that holds the processed record.
abbrev pub prefixed : LogFormat → Text → Text
prefixed f name = if is_empty f.processed_field then name else f.processed_field ++ (b'.' ∷ name)

-- A source that is left out, or a reference.
abbrev pub Usable : LogFormat → Text × Text → Type 0
Usable f source = (source.1 ≡ []) ⊎ FieldReference (prefixed f source.1)

processed_returns :
    (f : LogFormat) (name x : Text)
    → processed_field f name ≡ ok x
    → FieldReference (prefixed f name)
unfolding processed_field
processed_returns f [] x h = cc
processed_returns f (c ∷ s) x h = elim (Bool-cases (is_empty f.processed_field)) [
  | inl b ↦ rw b (field_returns (c ∷ s) x (rw b at h))
  | inr b ↦ rw b (field_returns (f.processed_field ++ (b'.' ∷ (c ∷ s))) x (rw b at h))
]

processed_gives :
    (f : LogFormat) (c : ℕ) (s : Text)
    → FieldReference (prefixed f (c ∷ s))
    → processed_field f (c ∷ s) ≡ ok (prefixed f (c ∷ s))
unfolding processed_field
processed_gives f c s r = elim (Bool-cases (is_empty f.processed_field)) [
  | inl b ↦ rw (processed_field, b) (field_gives (c ∷ s) (rw b at r))
  | inr b ↦
      rw (processed_field, b) (field_gives (f.processed_field ++ (b'.' ∷ (c ∷ s))) (rw b at r))
]

labelled_returns :
    {A : Type 0} (label : Text) (r : Result QueryError A) (a : A)
    → labelled label r ≡ ok a
    → r ≡ ok a
labelled_returns label (ok x) a h = h
labelled_returns label (err e) a h = cc

adds-Returns :
    (f : LogFormat) (rest out : List (Text × Text))
    → Returns (add_fields_from f rest out)
    → All (Usable f) rest
unfolding add_fields_from
adds-Returns f [] out r = tt
adds-Returns f ((key, []) ∷ rest) out r = (inl refl, adds-Returns f rest out r)
adds-Returns f ((key, c ∷ s) ∷ rest) out (got, h) =
    let label : Text = key ++ text "Field" in
    let (value, first, then') =
      >>=-eq-ok (labelled label (processed_field f (c ∷ s)))
        (λ v. add_fields_from f rest (put key v out)) h in
    (
      inr (
          processed_returns f (c ∷ s) value
            (labelled_returns label (processed_field f (c ∷ s)) value first)),
      adds-Returns f rest (put key value out) (got, then'),
    )

adds_give :
    (f : LogFormat) (rest out : List (Text × Text))
    → All (Usable f) rest
    → Returns (add_fields_from f rest out)
unfolding add_fields_from
adds_give f [] out u = (out, refl)
adds_give f ((key, []) ∷ rest) out (u, us) = adds_give f rest out us
adds_give f ((key, c ∷ s) ∷ rest) out (inl e, us) = cc
adds_give f ((key, c ∷ s) ∷ rest) out (inr r, us) =
    rw (add_fields_from, processed_gives f c s r)
      (adds_give f rest (put key (prefixed f (c ∷ s)) out) us)

-- A format that the queries can be built for: the message is a reference, and so is every other source
-- that is configured, unless the lines are those of Gin only.
abbrev pub CanAsk : LogFormat → Type 0
CanAsk f = FieldReference f.message_field × ((f.preset ≡ text "gin") ⊎ All (Usable f) (sources f))

json-Returns :
    (f : LogFormat) → Returns (json_fields f) → (f.preset ≡ text "gin") ⊎ All (Usable f) (sources f)
unfolding json_fields
json-Returns f r = elim (Bool-cases (text_eq f.preset (text "gin"))) [
  | inl b ↦ inl ((text_eq_iff f.preset (text "gin")).0 b)
  | inr b ↦ inr (adds-Returns f (sources f) [] (rw b at r))
]

json_give :
    (f : LogFormat) → (f.preset ≡ text "gin") ⊎ All (Usable f) (sources f) → Returns (json_fields f)
unfolding json_fields
json_give f (inl e) = rw (json_fields, (text_eq_iff f.preset (text "gin")).1 e) ([], refl)
json_give f (inr u) = elim (Bool-cases (text_eq f.preset (text "gin"))) [
  | inl b ↦ rw (json_fields, b) ([], refl)
  | inr b ↦ rw (json_fields, b) (adds_give f (sources f) [] u)
]

preamble-Returns : (f : LogFormat) → Returns (access_preamble f) → CanAsk f
unfolding access_preamble
preamble-Returns f (p, h) =
    let label : Text = text "messageField" in
    let (msg, first, rest) =
      >>=-eq-ok (labelled label (field f.message_field))
        (λ msg. json_fields f >>= λ fields. ok (preamble_of f msg fields)) h in
    let (fields, second, _) =
      >>=-eq-ok (json_fields f) (λ fields. ok (preamble_of f msg fields)) rest in
    (
      field_returns f.message_field msg (labelled_returns label (field f.message_field) msg first),
      json-Returns f (fields, second),
    )

preamble_give : (f : LogFormat) → CanAsk f → Returns (access_preamble f)
unfolding access_preamble
preamble_give f (m, s) =
    let (fields, h) = json_give f s in
    rw (access_preamble, field_gives f.message_field m, h)
      (preamble_of f f.message_field fields, refl)

-- A query that only needs the preamble is built exactly when the preamble is.
after_preamble :
    (f : LogFormat) (make : Text → Query)
    → Returns (access_preamble f >>= λ p. ok (make p)) ↔ CanAsk f
after_preamble f make = (
  λ r.
      let (p, first, _) = >>=-eq-ok (access_preamble f) (λ p. ok (make p)) r.1 in
      preamble-Returns f (p, first),
  λ c. let (p, h) = preamble_give f c in rw h (make p, refl),
)

is_empty_nil : (s : Text) → is_empty s ≡ true → s ≡ []
is_empty_nil [] h = refl
is_empty_nil (c ∷ s) h = cc

processed_accepts :
    (f : LogFormat) (name : Text)
    → is_empty name ≡ false
    → FieldReference (prefixed f name)
    → processed_field f name ≡ ok (prefixed f name)
processed_accepts f [] b r = cc
processed_accepts f (c ∷ s) b r = processed_gives f c s r

prefixed_returns :
    (f : LogFormat) (name x : Text)
    → is_empty name ≡ false
    → processed_field f name ≡ ok x
    → FieldReference (prefixed f name)
prefixed_returns f [] x b h = cc
prefixed_returns f (c ∷ s) x b h = processed_returns f (c ∷ s) x h

agent-Returns :
    (f : LogFormat)
    → is_empty f.user_agent_field ≡ false
    → Returns (access_fields f)
    → FieldReference (prefixed f f.user_agent_field)
unfolding access_fields
agent-Returns f b (a, h) =
    let agent : Result QueryError Text = processed_field f f.user_agent_field in
    let label : Text = text "userAgentField" in
    let (v, first, _) = >>=-eq-ok (labelled label agent) _ (rw b at h) in
    prefixed_returns f f.user_agent_field v b (labelled_returns label agent v first)

agent_fields :
    (f : LogFormat) → Returns (access_fields f) ↔ Usable f (text "userAgent", f.user_agent_field)
unfolding access_fields
agent_fields f = elim (Bool-cases (is_empty f.user_agent_field)) [
  | inl b ↦ (λ r. inl (is_empty_nil f.user_agent_field b), λ u. rw (access_fields, b) (_, refl))
  | inr b ↦ (
    λ r. inr (agent-Returns f b r),
    λ u. elim u [
      | inl e ↦ cc (b, e)
      | inr r ↦ rw (access_fields, b, processed_accepts f f.user_agent_field b r) (_, refl)
    ],
  )
]

-- Whatever the window and the limits, each query on the pods is built exactly when the message field is a
-- reference and, unless the preset is `gin`, so is every other configured source, under the field of
-- the processed record where there is one; the list of the responses also wants the field of the user
-- agent to be left out or such a reference. Otherwise the call throws.
pub pod_queries_iff :
    (f : LogFormat) (w : Window) (limit : ℕ)
    → (Returns (pod_traffic f w) ↔ CanAsk f)
      × (Returns (pod_bad_status_series f w) ↔ CanAsk f)
      × (Returns (pod_bad_status_by_path f) ↔ CanAsk f)
      × (Returns (pod_error_series f w) ↔ CanAsk f)
      × (Returns (pod_error_list f limit) ↔ CanAsk f)
      × (Returns (pod_bad_status_list f limit)
          ↔ (CanAsk f × Usable f (text "userAgent", f.user_agent_field)))
unfolding pod_traffic pod_bad_status_series pod_bad_status_by_path pod_error_series pod_error_list
    pod_bad_status_list
pod_queries_iff f w limit = (
  after_preamble f _,
  after_preamble f _,
  after_preamble f _,
  after_preamble f _,
  after_preamble f _,
  (
    λ r.
        let (lists, first, rest) = >>=-eq-ok (access_fields f) _ r.1 in
        ((after_preamble f _).0 (r.0, rest), (agent_fields f).0 (lists, first)),
    λ c.
        let (lists, h) = (agent_fields f).1 c.1 in
        rw (pod_bad_status_list, h) ((after_preamble f _).1 c.0),
  ),
)
