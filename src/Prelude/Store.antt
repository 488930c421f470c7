-- ===== src/Prelude/Store.antt =====
-- Objects behind pointers: a field of all objects is a function from their addresses.
use std.Path.{fun_ext}
use native.Mathlib.Decide.{ℕ_discrete}
use libvma.Prelude.{ℕ, ◌≡◌, refl, ◌==◌, false, if◌then◌else◌, arith}

abbrev pub Ptr : Type 0
Ptr = ℕ

abbrev pub null : Ptr
null = 0

abbrev pub update {ℓ} : {A : Type ℓ} → (Ptr → A) → Ptr → A → Ptr → A
update f p v q = if q == p then v else f q

module _ {ℓ} {A : Type ℓ} (f : Ptr → A) (p : Ptr) (v : A) where
  pub update_self : update f p v p ≡ v
  update_self = ground arith

  pub update_ne : (q : Ptr) → (q == p) ≡ false → update f p v q ≡ f q
  update_ne q e = rw e refl

pub update_same {ℓ} : {A : Type ℓ} (f : Ptr → A) (p : Ptr) → update f p (f p) ≡ f
update_same f p =
    fun_ext (λ q. elim (ℕ_discrete q p) [ yes e ↦ rw e (ground arith) | no e ↦ ground arith ])
