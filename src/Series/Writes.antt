-- ===== src/Series/Writes.antt =====
-- What `set` and `add` change.
use skills_dashboard.Common.{length-set}
use skills_dashboard.Common.{
  ℕ, zero, suc, ◌<◌, ◌≡◌, refl, inl, inr, ◌&&◌, none, some, List, [], ◌∷◌, arith, ltb, leb, ◌==◌,
  if◌then◌else◌, Bool-cases, length, set, replicate,
}
use skills_dashboard.Common.{ℤ, pos, negsuc}
use skills_dashboard.Series.{Series, Point, set_at, add_at, point_at}

module _ {V : Type 0} where
  pub point_at-set :
      (vs : List (Point V)) (i j : ℕ) (p : Point V)
      → i < length vs
      → point_at (set vs i p) j ≡ (if i == j then p else point_at vs j)
  point_at-set [] i j p h = elim h [ ]
  point_at-set (x ∷ vs) zero zero p h = ground arith
  point_at-set (x ∷ vs) zero (suc j) p h = ground arith
  point_at-set (x ∷ vs) (suc i) zero p h = ground arith
  point_at-set (x ∷ vs) (suc i) (suc j) p h = ground (arith, point_at-set vs i j p)

  pub point_at-replicate : (n j : ℕ) → point_at {V = V} (replicate n none) j ≡ none
  point_at-replicate zero j = refl
  point_at-replicate (suc n) zero = refl
  point_at-replicate (suc n) (suc j) = point_at-replicate n j

  pub length-set_at :
      (s : Series V) (i : ℤ) (v : V) → length (set_at s i v).values ≡ length s.values
  unfolding set_at
  length-set_at s (negsuc i) v = refl
  length-set_at s (pos i) v = ground (arith, length-set s.values i (some v))

  -- After `set`, the point at the index is the value if the index is in range; every other point is
  -- what it was.
  pub point_at-set_at :
      (s : Series V) (i j : ℕ) (v : V)
      → point_at (set_at s (pos i) v).values j
        ≡ (if (i == j) && ltb i (length s.values) then some v else point_at s.values j)
  unfolding set_at
  point_at-set_at s i j v = ground (arith, point_at-set s.values i j (some v))

  pub length-add_at :
      (plus : V → V → V) (s : Series V) (i : ℤ) (v : V)
      → length (add_at plus s i v).values ≡ length s.values
  unfolding add_at
  length-add_at plus s (negsuc i) v = refl
  length-add_at plus s (pos i) v = elim (Bool-cases (leb (length s.values) i)) [
    | inl e ↦ rw e
    | inr e ↦ rw e (length-set s.values i _)
  ]
