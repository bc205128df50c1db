-- ===== src/Bench/Tests.antt =====
-- Concrete samples for crates/benchmark/src/lib.rs.
use aether_radio_sim.Base.{ℕ, List, [], ◌∷◌}
use aether_radio_sim.Base.Floats.{fractions}
use aether_radio_sim.Bench.{from_sorted_ns}
use aether_radio_sim.Bench.Percentiles.{sort, Describes, sort-Describes}

abbrev some_samples : List ℕ
some_samples = 900 ∷ 300 ∷ 700 ∷ 300 ∷ []

sort-Describes_example :
    Describes fractions some_samples (from_sorted_ns fractions (sort some_samples))
sort-Describes_example = sort-Describes fractions some_samples
