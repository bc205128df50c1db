-- ===== src/Bench/Percentiles.antt =====
-- The figures of `LatencyStats` in crates/benchmark/src/lib.rs on a sorted list.
use aether_radio_sim.Base.{
  ℕ, zero, suc, ◌+◌, ◌-◌, ◌<◌, ◌≤◌, ◌≡◌, refl, ap, ◌∙◌, sym, List, [], ◌∷◌, min, max, length, All,
  arith, leb, if◌then◌else◌, Bool-cases, inl, inr, saturating_sub,
}
use aether_radio_sim.Base.Floats.{Float64}
use aether_radio_sim.Metrics.Counters.{smallest, largest}
use aether_radio_sim.Bench.{LatencyStats, index_or_zero, percentile, from_sorted_ns}

-- `sort_unstable` on numbers, of which equal ones are the same
unfoldable pub insert_sorted : ℕ → List ℕ → List ℕ
insert_sorted x [] = x ∷ []
insert_sorted x (y ∷ ys) = let rest = insert_sorted x ys in if leb x y then x ∷ y ∷ ys else y ∷ rest

unfoldable pub sort : List ℕ → List ℕ
sort [] = []
sort (x ∷ xs) = insert_sorted x (sort xs)

abbrev pub IsSorted : List ℕ → Type 0
IsSorted [] = Unit
IsSorted (x ∷ xs) = All (λ y. x ≤ y) xs × IsSorted xs

length-insert_sorted : (x : ℕ) (ys : List ℕ) → length (insert_sorted x ys) ≡ length ys + 1
unfolding insert_sorted
length-insert_sorted x [] = omega arith
length-insert_sorted x (y ∷ ys) = ground (arith, length-insert_sorted x ys)

pub length-sort : (xs : List ℕ) → length (sort xs) ≡ length xs
unfolding sort
length-sort [] = refl
length-sort (x ∷ xs) = omega (arith, length-insert_sorted x (sort xs), length-sort xs)

smallest-cons : (x : ℕ) (ys : List ℕ) → 0 < length ys → smallest (x ∷ ys) ≡ min x (smallest ys)
unfolding smallest
smallest-cons x [] h = absurd (omega (arith, h))
smallest-cons x (y ∷ ys) h = refl

smallest-insert_sorted : (x : ℕ) (ys : List ℕ) → smallest (insert_sorted x ys) ≡ smallest (x ∷ ys)
unfolding insert_sorted smallest
smallest-insert_sorted x [] = refl
smallest-insert_sorted x (y ∷ []) = ground arith
smallest-insert_sorted x (y ∷ z ∷ zs) = ground (
  arith,
  smallest-insert_sorted x (z ∷ zs),
  smallest-cons y (insert_sorted x (z ∷ zs)) (omega (arith, length-insert_sorted x (z ∷ zs))),
)

pub smallest-sort : (xs : List ℕ) → smallest (sort xs) ≡ smallest xs
unfolding sort smallest
smallest-sort [] = refl
smallest-sort (x ∷ []) = smallest-insert_sorted x []
smallest-sort (x ∷ y ∷ ys) = omega (
  arith,
  smallest-insert_sorted x (sort (y ∷ ys)),
  smallest-cons x (sort (y ∷ ys)) (omega (arith, length-sort (y ∷ ys))),
  smallest-sort (y ∷ ys),
)

largest-insert_sorted : (x : ℕ) (ys : List ℕ) → largest (insert_sorted x ys) ≡ max x (largest ys)
unfolding insert_sorted largest
largest-insert_sorted x [] = refl
largest-insert_sorted x (y ∷ ys) = ground (arith, largest-insert_sorted x ys)

pub largest-sort : (xs : List ℕ) → largest (sort xs) ≡ largest xs
unfolding sort largest
largest-sort [] = refl
largest-sort (x ∷ xs) = omega (arith, largest-insert_sorted x (sort xs), largest-sort xs)

insert_sorted-All :
    (b x : ℕ) (ys : List ℕ) → b ≤ x → All (λ y. b ≤ y) ys → All (λ y. b ≤ y) (insert_sorted x ys)
unfolding insert_sorted
insert_sorted-All b x [] h v = (h, tt)
insert_sorted-All b x (y ∷ ys) h v = elim (Bool-cases (leb x y)) [
  | inl le ↦ rw le (h, v)
  | inr gt ↦ rw gt (v.0, insert_sorted-All b x ys h v.1)
]

All-le : (a b : ℕ) (ys : List ℕ) → a ≤ b → All (λ y. b ≤ y) ys → All (λ y. a ≤ y) ys
All-le a b [] h v = tt
All-le a b (y ∷ ys) h v = (omega (arith, h, v.0), All-le a b ys h v.1)

insert_sorted-IsSorted : (x : ℕ) (ys : List ℕ) → IsSorted ys → IsSorted (insert_sorted x ys)
unfolding insert_sorted
insert_sorted-IsSorted x [] v = (tt, tt)
insert_sorted-IsSorted x (y ∷ ys) v = elim (Bool-cases (leb x y)) [
  | inl le ↦ rw le ((ground (arith, le), All-le x y ys (ground (arith, le)) v.0), v)
  | inr gt ↦
      rw gt (insert_sorted-All y x ys (ground (arith, gt)) v.0, insert_sorted-IsSorted x ys v.1)
]

pub sort-IsSorted : (xs : List ℕ) → IsSorted (sort xs)
unfolding sort
sort-IsSorted [] = tt
sort-IsSorted (x ∷ xs) = insert_sorted-IsSorted x (sort xs) (sort-IsSorted xs)

-- The ends of a sorted list.
smallest_first : (x : ℕ) (xs : List ℕ) → IsSorted (x ∷ xs) → smallest (x ∷ xs) ≡ x
unfolding smallest
smallest_first x [] v = refl
smallest_first x (y ∷ ys) v = omega (arith, v.0.0, smallest_first y ys v.1)

largest_last : (xs : List ℕ) → IsSorted xs → index_or_zero xs (length xs - 1) ≡ largest xs
unfolding largest
largest_last [] v = refl
largest_last (x ∷ []) v = omega arith
largest_last (x ∷ y ∷ ys) v =
    let n = length ys in
    let one_less : suc (suc n) - 1 ≡ suc n = omega arith in
    let as_many : suc n - 1 ≡ n = omega arith in
    omega (
      arith,
      ap (index_or_zero (x ∷ y ∷ ys)) one_less,
      ap (index_or_zero (y ∷ ys)) as_many,
      largest_last (y ∷ ys) v.1,
      v.0.0,
    )

-- An element lies between the least and the greatest.
index_between :
    (xs : List ℕ) (i : ℕ)
    → i < length xs
    → (smallest xs ≤ index_or_zero xs i) × (index_or_zero xs i ≤ largest xs)
unfolding smallest largest
index_between [] i h = elim h [ ]
index_between (x ∷ []) zero h = (omega arith, omega arith)
index_between (x ∷ []) (suc i) h = absurd (omega (arith, h))
index_between (x ∷ y ∷ ys) zero h = (omega arith, omega arith)
index_between (x ∷ y ∷ ys) (suc i) h =
    let (below, above) = index_between (y ∷ ys) i (omega (arith, h)) in
    (omega (arith, below), omega (arith, above))

module _ (F : Float64) where
  percentile_between :
      (xs : List ℕ) (p : F.Num)
      → 0 < length xs
      → (smallest xs ≤ percentile F xs p) × (percentile F xs p ≤ largest xs)
  unfolding percentile
  percentile_between xs p h =
      index_between xs
        (min (F.to_u64 (F.mul p (F.of_nat (saturating_sub (length xs) 1)))) (length xs - 1))
        (omega (arith, h))

  -- The figures of a list of samples, once sorted: the least and the greatest are exact, whatever the
  -- floating-point products are, and the percentiles lie between them.
  pub record Describes (xs : List ℕ) (stats : LatencyStats) : Type 0 where
    pub least : stats.min_ns ≡ smallest xs
    pub greatest : stats.max_ns ≡ largest xs
    pub p50_above : stats.min_ns ≤ stats.p50_ns
    pub p50_below : stats.p50_ns ≤ stats.max_ns
    pub p99_above : stats.min_ns ≤ stats.p99_ns
    pub p99_below : stats.p99_ns ≤ stats.max_ns
    pub p999_above : stats.min_ns ≤ stats.p999_ns
    pub p999_below : stats.p999_ns ≤ stats.max_ns

  sorted-Describes : (xs : List ℕ) → IsSorted xs → Describes xs (from_sorted_ns F xs)
  unfolding from_sorted_ns smallest largest
  sorted-Describes [] v = ground arith
  sorted-Describes (x ∷ xs) v =
      let low = smallest_first x xs v in
      let high = largest_last (x ∷ xs) v in
      let within = λ (p : F.Num). percentile_between (x ∷ xs) p (omega arith) in
      let p50 = within (F.div (F.of_nat 1) (F.of_nat 2)) in
      let p99 = within (F.div (F.of_nat 99) (F.of_nat 100)) in
      let p999 = within (F.div (F.of_nat 999) (F.of_nat 1000)) in
      record {
        least = sym low;
        greatest = high;
        p50_above = omega (arith, p50.0, low);
        p50_below = omega (arith, p50.1, high);
        p99_above = omega (arith, p99.0, low);
        p99_below = omega (arith, p99.1, high);
        p999_above = omega (arith, p999.0, low);
        p999_below = omega (arith, p999.1, high);
      }

  -- `from_sorted_ns` on the sorted samples: the least and the greatest are those of the samples, and
  -- the percentiles lie between them, whatever the floating-point products round to.
  pub sort-Describes : (xs : List ℕ) → Describes xs (from_sorted_ns F (sort xs))
  sort-Describes xs =
      let v = sorted-Describes (sort xs) (sort-IsSorted xs) in
      record {
        least = v.least ∙ smallest-sort xs;
        greatest = v.greatest ∙ largest-sort xs;
        p50_above = v.p50_above;
        p50_below = v.p50_below;
        p99_above = v.p99_above;
        p99_below = v.p99_below;
        p999_above = v.p999_above;
        p999_below = v.p999_below;
      }
