-- ===== src/Gates/Verdict.antt =====
-- A report that fails unless its verdict is true, as in crates/benchmark/src/soak.rs and
-- acceptance.rs.
use aether_radio_sim.Base.{
  ◌≡◌, ◌↔◌, refl, Bool, true, false, not, Result, ok, err, if◌then◌else◌, arith,
}

abbrev pub verdict {ℓ ℓ'} : {A : Type ℓ} {E : Type ℓ'} → (Bool → A) → (A → E) → Bool → Result E A
verdict report fail b = if not b then err (fail (report b)) else ok (report b)

-- The verdict is what the answer says, given what it takes to be true.
pub verdict_iff {ℓ ℓ' ℓ''} :
    {A : Type ℓ} {E : Type ℓ'} {P : Type ℓ''} (report : Bool → A) (fail : A → E) (b : Bool)
    → (b ≡ true) ↔ P
    → ((verdict report fail b ≡ ok (report true)) ↔ P)
      × ((verdict report fail b ≡ err (fail (report false))) ↔ (¬ P))
verdict_iff report fail true (to, from) =
    ((λ h. to refl, λ p. refl), (λ h p. ground arith, λ n. absurd (n (to refl))))
verdict_iff report fail false (to, from) = (
  (λ h. ground arith, λ p. let e = from p in ground arith),
  (λ h p. let e = from p in ground arith, λ n. refl),
)
