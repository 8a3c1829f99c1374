-- ===== src/Base/Runs.antt =====
-- Runs of a step relation.
module _ {ℓ κ} {S : Type ℓ} (R : S → S → Type κ) where
  pub data Chain (s : S) : S → Type (ℓ ⊔ κ) where
    no_steps : Chain s s
    then_step : {t u : S} → Chain s t → R t u → Chain s u

  -- What every step keeps, every run keeps.
  module _ {ν} (P : S → Type ν) (keeps : (s t : S) → R s t → P s → P t) where
    pub Chain-keeps : {s t : S} → Chain s t → P s → P t
    Chain-keeps no_steps h = h
    Chain-keeps (then_step c st) h = keeps _ _ st (Chain-keeps c h)
