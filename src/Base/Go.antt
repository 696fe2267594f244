-- ===== src/Base/Go.antt =====
-- What a Go function without a stream leaves behind: a result, or a run-time panic. `unfinished`
-- is no Go outcome: a loop ran out of fuel.
pub data Go {ℓ} (A : Type ℓ) : Type ℓ where
  returned : A → Go A
  crashed unfinished : Go A

abbrev pub and_then {ℓ κ} : {A : Type ℓ} {B : Type κ} → Go A → (A → Go B) → Go B
and_then (returned a) f = f a
and_then crashed f = crashed
and_then unfinished f = unfinished
