-- ===== src/Prelude/Inevitable.antt =====
-- What a system of steps comes to, whichever steps it takes.
use Prim.Native.Nat.{ℕ, zero, suc, ◌<◌}
use mathlib.Core.Logic.{◌⊎◌, inl, inr}
use native.Mathlib.Omega.{arith}

-- On every way that the steps can go, a state with the property is reached: it is there, or some step
-- can be taken and all lead to it.
pub data Inevitable {S : Type 0} (R : S → S → Type 0) (P : S → Type 0) : S → Type 0 where
  now : {s : S} → P s → Inevitable R P s
  later : {s : S} (t : S) → R s t → ((u : S) → R s u → Inevitable R P u) → Inevitable R P s

module _ {S : Type 0} {R : S → S → Type 0} where
  -- What is inevitable stays so for what follows from it.
  pub Inevitable-map :
      {P Q : S → Type 0} {s : S} → ((t : S) → P t → Q t) → Inevitable R P s → Inevitable R Q s
  Inevitable-map f (now {s} h) = now (f s h)
  Inevitable-map f (later t step next) = later t step (λ u taken. Inevitable-map f (next u taken))

  -- States with an invariant, in which a step can always be taken: where each step makes the property
  -- inevitable, or keeps the invariant and lowers a measure, it is inevitable.
  pub Inevitable-within :
      {P I : S → Type 0} (measure : S → ℕ)
      → ((s : S) → I s → (t : S) × R s t)
      → ((s t : S) → R s t → I s → Inevitable R P t ⊎ (I t × (measure t < measure s)))
      → (fuel : ℕ) (s : S) → measure s < fuel
      → I s
      → Inevitable R P s
  Inevitable-within measure moves keeps zero s less h = absurd (omega (arith, less))
  Inevitable-within measure moves keeps (suc fuel) s less h =
      let (t, step) = moves s h in
      later t step (λ u taken. elim (keeps s u taken h) [
        | inl reached ↦ reached
        | inr (still, fewer) ↦
            Inevitable-within measure moves keeps fuel u (omega (arith, less, fewer)) still
      ])
