-- ===== src/Server/Heap.antt =====
-- A heap as a function from addresses.
use ubervisor.Common.{ℕ, ◌==◌, if◌then◌else◌}

abbrev pub update {ℓ} : {A : Type ℓ} → (ℕ → A) → ℕ → A → ℕ → A
update f a v b = if a == b then v else f b
