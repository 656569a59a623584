-- ===== src/MetricPanels/Order.antt =====
-- server/src/http/panels-metrics.ts: `toSeriesList` drops no line, and `metricCacheKey` does not
-- depend on the order of the requests.
use skills_dashboard.MetricPanels.{Series}
use skills_dashboard.Common.{
  ◌≡◌, refl, subst, inl, inr, Bool, true, false, none, some, List, [], ◌∷◌, map, arith, Bool-cases,
}
use skills_dashboard.Common.{◌⊎◌, inl, inr, false}
use skills_dashboard.Common.{if◌then◌else◌, true}
use mathlib.Core.List.{Perm}
use mathlib.Core.List.Perm
use skills_dashboard.Text.{Text}
use skills_dashboard.Catalog.{MetricSpec}
use skills_dashboard.Catalog.Search.{text_leb}
use skills_dashboard.Catalog.Order.{sort-Perm, leb_total}
use skills_dashboard.Window.{Window}
use skills_dashboard.Series.{Point, reduce}
use skills_dashboard.Fetch.{MetricRequest, MetricSeries}
use skills_dashboard.LogPanels.Pivots.{insert_by, sort_by}
use skills_dashboard.MetricPanels.{
  Arithmetic, Style, line_leb, busier, line_for, to_series_list, request_words, metric_cache_key,
}

-- Each element stands in the relation to the one after it.
abbrev pub InOrder : {A : Type 0} → (A → A → Type 0) → List A → Type 0
InOrder R [] = Unit
InOrder R (x ∷ []) = Unit
InOrder R (x ∷ y ∷ ys) = R x y × InOrder R (y ∷ ys)

InOrder-map :
    {A : Type 0} (R S : A → A → Type 0) (xs : List A)
    → ((x y : A) → R x y → S x y)
    → InOrder R xs
    → InOrder S xs
InOrder-map R S [] f c = tt
InOrder-map R S (x ∷ []) f c = tt
InOrder-map R S (x ∷ y ∷ ys) f (h, c) = (f x y h, InOrder-map R S (y ∷ ys) f c)

module _ {A : Type 0} (leq : A → A → Bool) where
  insert_by-Perm : (x : A) (xs : List A) → Perm (insert_by leq x xs) (x ∷ xs)
  unfolding insert_by
  insert_by-Perm x [] = Perm.refl (x ∷ [])
  insert_by-Perm x (y ∷ ys) = elim (Bool-cases (leq x y)) [
    | inl e ↦ rw e (Perm.refl (x ∷ y ∷ ys))
    | inr e ↦ rw e (Perm.trans (Perm.cons y (insert_by-Perm x ys)) (Perm.swap x y ys))
  ]

  -- Sorting loses nothing.
  pub sort_by-Perm : (xs : List A) → Perm (sort_by leq xs) xs
  unfolding sort_by
  sort_by-Perm [] = Perm.refl []
  sort_by-Perm (x ∷ xs) =
      Perm.trans (insert_by-Perm x (sort_by leq xs)) (Perm.cons x (sort_by-Perm xs))

  abbrev Chain : List A → Type 0
  Chain xs = InOrder (λ x y. leq x y ≡ true) xs

  module _ (total : (x y : A) → leq x y ≡ false → leq y x ≡ true) where
    insert_by-Chain : (x : A) (ys : List A) → Chain ys → Chain (insert_by leq x ys)
    unfolding insert_by
    insert_by-Chain x [] c = tt
    insert_by-Chain x (y ∷ []) c = elim (Bool-cases (leq x y)) [
      | inl e ↦ rw e (e, tt)
      | inr e ↦ rw e (total x y e, tt)
    ]
    insert_by-Chain x (y ∷ z ∷ zs) (h, c) = elim (Bool-cases (leq x y)) [
      | inl e ↦ rw e (e, (h, c))
      | inr e ↦ rw e (behind e (insert_by-Chain x (z ∷ zs) c))
    ]
      where
        behind :
            leq x y ≡ false
            → Chain (insert_by leq x (z ∷ zs))
            → Chain (y ∷ insert_by leq x (z ∷ zs))
        behind e rest = elim (Bool-cases (leq x z)) [
          | inl f ↦
              let front : insert_by leq x (z ∷ zs) ≡ x ∷ z ∷ zs = rw f refl in
              rw front (total x y e, (f, c))
          | inr f ↦
              let back : insert_by leq x (z ∷ zs) ≡ z ∷ insert_by leq x zs = rw f refl in
              rw back (h, subst Chain back rest)
        ]

    pub sort_by-Chain : (xs : List A) → Chain (sort_by leq xs)
    unfolding sort_by
    sort_by-Chain [] = tt
    sort_by-Chain (x ∷ xs) = insert_by-Chain x (sort_by leq xs) (sort_by-Chain xs)

module _ {V : Type 0} (p : Arithmetic V) where
  line_leb_total :
      ((a b : V) → p.less a b ≡ true → p.less b a ≡ false)
      → (a b : Point V) (c d : Bool) → (c ≡ false → d ≡ true)
      → line_leb p a b c ≡ false
      → line_leb p b a d ≡ true
  line_leb_total asym none none c d t h = t h
  line_leb_total asym none (some b) c d t h = refl
  line_leb_total asym (some a) none c d t h = cc
  line_leb_total asym (some a) (some b) c d t h = ground (arith, asym a b, t)

  -- A line with a maximum and a label may stand before another: both have a value and its maximum is
  -- the greater, or neither maximum is less than the other and the labels ascend; it alone has a value;
  -- or neither has one and the labels ascend.
  abbrev pub Precedes : Point V → Text → Point V → Text → Type 0
  Precedes (some a) l (some b) m =
      (p.less b a ≡ true) ⊎ ((p.less a b ≡ false) × (p.less b a ≡ false) × (text_leb l m ≡ true))
  Precedes (some a) l none m = Unit
  Precedes none l (some b) m = ⊥
  Precedes none l none m = text_leb l m ≡ true

  -- The maximum of a line, none if it has only gaps.
  abbrev pub peak : Series V → Point V
  peak s = reduce p.greater s

  abbrev pub StandsBefore : Series V → Series V → Type 0
  StandsBefore x y = Precedes (peak x) x.label (peak y) y.label

  line_leb-Precedes :
      (a b : Point V) (l m : Text) → line_leb p a b (text_leb l m) ≡ true → Precedes a l b m
  line_leb-Precedes none none l m h = h
  line_leb-Precedes none (some b) l m h = cc
  line_leb-Precedes (some a) none l m h = tt
  line_leb-Precedes (some a) (some b) l m h = elim (Bool-cases (p.less b a)) [
    | inl f ↦ inl f
    | inr f ↦ elim (Bool-cases (p.less a b)) [
      | inl e ↦
          let no : false ≡ true =
            subst (λ c. (if c then false else if p.less b a then true else text_leb l m) ≡ true) e
              h in
          cc
      | inr e ↦ inr (
        e,
        f,
        subst (λ c. (if c then false else text_leb l m) ≡ true) e
            (subst (λ c. (if p.less a b then false else if c then true else text_leb l m) ≡ true) f
              h),
      )
    ]
  ]

  -- If no value is both less and greater than another, the lines of a chart are those of all the series
  -- that came back, each once, in this order: a greater maximum before a smaller one, lines without a
  -- value last, and lines of the same maximum, or without a value, by their labels.
  pub to_series_list-Perm :
      (w : Window) (list : List (MetricSeries V)) (spec : MetricSpec)
      (label_for : MetricSeries V → Text) (style_for : MetricSeries V → Style)
      → ((a b : V) → p.less a b ≡ true → p.less b a ≡ false)
      → Perm
          (to_series_list p w list spec label_for style_for)
          (map (line_for w spec label_for style_for) list)
        × InOrder StandsBefore (to_series_list p w list spec label_for style_for)
  unfolding to_series_list busier
  to_series_list-Perm w list spec label_for style_for asym =
      let lines : List (Series V) = map (line_for w spec label_for style_for) list in
      (
        sort_by-Perm (busier p) lines,
        InOrder-map (λ x y. busier p x y ≡ true) StandsBefore (sort_by (busier p) lines)
            (λ x y h. line_leb-Precedes (peak x) (peak y) x.label y.label h)
            (sort_by-Chain (busier p)
              (λ x y h.
                line_leb_total asym (peak x) (peak y) (text_leb x.label y.label)
                  (text_leb y.label x.label) (leb_total x.label y.label) h)
              lines),
      )

-- Requests in another order have the same key in the cache.
pub metric_cache_key-Perm :
    (name : Text) (w : Window) (rs qs : List MetricRequest)
    → Perm rs qs
    → metric_cache_key name w rs ≡ metric_cache_key name w qs
unfolding metric_cache_key
metric_cache_key-Perm name w rs qs h =
    rw (sort-Perm (map request_words rs) (map request_words qs) (Perm.map request_words h)) refl
