-- ===== src/Prelude/Layouts.antt =====
-- Objects in memory: `sizeof`, and the bytes that stand for a value.
use Prim.Native.Nat.{ℕ}
use mathlib.Core.Path.{◌≡◌}
use mtappender_file.Prelude.Lists.{length}
use mtappender_file.Prelude.Memory.{Bytes}

pub record Layout {ℓ} (A : Type ℓ) : Type ℓ where
  pub size : ℕ
  pub encode : A → Bytes
  pub decode : Bytes → A
  pub length_kept : (x : A) → length (encode x) ≡ size
  pub decoded : (x : A) → decode (encode x) ≡ x
