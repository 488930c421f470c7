-- ===== src/IpFrag/Key/Order.antt =====
-- The order of src/vma/proto/ip_frag.h is what `std::map` asks of it.
use libvma.Prelude.{◌≡◌, ◌⊎◌, inl, inr, true, false, not, ◌&&◌, arith, Bool-cases}
use libvma.IpFrag.Key.{Key, key_lt, key_eq}

key_eq-eq : (a b : Key) → key_eq a b ≡ true → a ≡ b
unfolding key_lt key_eq
key_eq-eq a b e =
    let p : a.ip_id ≡ b.ip_id = ground arith in
    let q : a.src_ip ≡ b.src_ip = ground arith in
    let r : a.dst_ip ≡ b.dst_ip = ground arith in
    let s : a.ipproto ≡ b.ipproto = ground arith in
    λ i. record { ip_id = p i; src_ip = q i; dst_ip = r i; ipproto = s i }

-- The order of keys is strict and transitive, and keys of which neither is less than the other are
-- the same key: of two keys one is less, or they agree in all four fields.
pub key_lt-StrictTotal :
    (a b c : Key)
    → (key_lt a a ≡ false)
      × ((key_lt a b && key_lt b c && not (key_lt a c)) ≡ false)
      × ((key_lt a b && key_lt b a) ≡ false)
      × ((key_eq a b ≡ false) ⊎ (a ≡ b))
unfolding key_lt key_eq
key_lt-StrictTotal a b c = (
  ground arith,
  ground arith,
  ground arith,
  elim (Bool-cases (key_eq a b)) [ inl e ↦ inr (key_eq-eq a b e) | inr e ↦ inl e ],
)
