-- ===== src/IpFrag/Manager/Cleanup.antt =====
-- The pools of descriptors of src/vma/proto/ip_frag.cpp from the constructor, over the timer, to the
-- destructor.
use libvma.Prelude.{
  ℕ, zero, suc, ◌+◌, ◌-◌, ◌≡◌, refl, ap, ◌∙◌, inl, inr, ◌||◌, [], ◌∷◌, arith, ltb, ◌==◌, length,
  Bool-cases,
}
use libvma.Prelude.Store.{Ptr, null}
use libvma.IpFrag.Manager.{
  ip_frag_max_desc, ip_frag_max_holes, ip_frag_space, Desc, Frags, Manager, free_hole_desc,
  free_frag_desc, free_all, ip_frag_manager, free_frag, destroy_frag_desc, expire,
  handle_timer_expired, release_all, free_frag_resources,
}
use libvma.IpFrag.Manager.Balance.{held, Balanced, free_all-holes}

free_all-descs :
    (n : ℕ) (m : Manager) → free_all n free_frag_desc m ≡ record m { descs_free = m.descs_free + n }
free_all-descs zero m = ap (λ f. record m { descs_free = f }) (omega arith)
free_all-descs (suc n) m =
    free_all-descs n (free_frag_desc m) ∙ ap (λ f. record m { descs_free = f }) (omega arith)

all_free-Balanced :
    (h c : ℕ) (m : Manager)
    → m.frags ≡ []
    → m.holes_free ≡ 0
    → m.descs_free ≡ 0
    → Balanced h c (free_all h free_hole_desc (free_all c free_frag_desc m))
all_free-Balanced h c m e f g =
    rw (free_all-holes h (free_all c free_frag_desc m), free_all-descs c m)
      (record {
        holes_add_up = omega (arith, f, ap held e);
        descs_add_up = omega (arith, g, ap length e);
      })

-- The constructor makes all descriptors and puts them in the pools.
pub ip_frag_manager-Balanced :
    (next owner : Ptr → Ptr) (sz_data : Ptr → ℕ)
    → Balanced ip_frag_max_holes ip_frag_max_desc (ip_frag_manager next owner sz_data)
unfolding ip_frag_manager
ip_frag_manager-Balanced next owner sz_data =
    all_free-Balanced ip_frag_max_holes ip_frag_max_desc
      (record {
        frag_counter = 0;
        frags = [];
        holes_free = 0;
        descs_free = 0;
        returns = λ p. null;
        next = next;
        owner = owner;
        sz_data = sz_data;
      })
      refl refl refl

free_frag-holes :
    (fuel : ℕ) (p : Ptr) (m : Manager) → (free_frag fuel p m).holes_free ≡ m.holes_free
unfolding free_frag
free_frag-holes fuel p m = ground arith

free_frag-descs :
    (fuel : ℕ) (p : Ptr) (m : Manager) → (free_frag fuel p m).descs_free ≡ m.descs_free
unfolding free_frag
free_frag-descs fuel p m = ground arith

module _ (fuel : ℕ) (d : Desc) (m : Manager) where
  destroy-holes : (destroy_frag_desc fuel d m).holes_free ≡ m.holes_free + length d.hole_list
  unfolding destroy_frag_desc
  destroy-holes =
      free_frag-holes fuel d.frag_list (free_all (length d.hole_list) free_hole_desc m)
      ∙ ap (λ n. n.holes_free) (free_all-holes (length d.hole_list) m)

  destroy-descs : (destroy_frag_desc fuel d m).descs_free ≡ m.descs_free
  unfolding destroy_frag_desc
  destroy-descs =
      free_frag-descs fuel d.frag_list (free_all (length d.hole_list) free_hole_desc m)
      ∙ ap (λ n. n.descs_free) (free_all-holes (length d.hole_list) m)

module _ (fuel delta : ℕ) where
  expire-holes :
      (s : Frags) (m : Manager)
      → (expire fuel delta s m).1.holes_free + held (expire fuel delta s m).0
        ≡ m.holes_free + held s
  unfolding expire
  expire-holes [] m = refl
  expire-holes ((k, d) ∷ s) m = elim (Bool-cases (ltb d.frag_counter delta || d.ttl == 0)) [
    | inl e ↦ rw e (
        omega (
          arith,
          expire-holes s (free_frag_desc (destroy_frag_desc fuel d m)),
          destroy-holes fuel d m,
        ))
    | inr e ↦ rw e (omega (arith, expire-holes s m))
  ]

  expire-descs :
      (s : Frags) (m : Manager)
      → (expire fuel delta s m).1.descs_free + length (expire fuel delta s m).0
        ≡ m.descs_free + length s
  unfolding expire
  expire-descs [] m = refl
  expire-descs ((k, d) ∷ s) m = elim (Bool-cases (ltb d.frag_counter delta || d.ttl == 0)) [
    | inl e ↦ rw e (
        omega (
          arith,
          expire-descs s (free_frag_desc (destroy_frag_desc fuel d m)),
          destroy-descs fuel d m,
        ))
    | inr e ↦ rw e (omega (arith, expire-descs s m))
  ]

-- The timer gives the descriptors of the datagrams that it drops back to the pools they come from.
pub handle_timer_expired-Balanced :
    (h c fuel : ℕ) (m : Manager) → Balanced h c m → Balanced h c (handle_timer_expired fuel m).0
unfolding handle_timer_expired
handle_timer_expired-Balanced h c fuel m b =
    let delta = m.frag_counter - ip_frag_space in
    let m' = record m { frag_counter = m.frag_counter - delta } in
    record {
      holes_add_up = omega (arith, b.holes_add_up, expire-holes fuel delta m.frags m');
      descs_add_up = omega (arith, b.descs_add_up, expire-descs fuel delta m.frags m');
    }

release_all-holes :
    (fuel : ℕ) (s : Frags) (m : Manager) → (release_all fuel s m).holes_free ≡ m.holes_free + held s
unfolding release_all
release_all-holes fuel [] m = omega arith
release_all-holes fuel ((k, d) ∷ s) m = omega (
  arith,
  release_all-holes fuel s (free_frag_desc (destroy_frag_desc fuel d m)),
  destroy-holes fuel d m,
)

release_all-descs :
    (fuel : ℕ) (s : Frags) (m : Manager)
    → (release_all fuel s m).descs_free ≡ m.descs_free + length s
unfolding release_all
release_all-descs fuel [] m = omega arith
release_all-descs fuel ((k, d) ∷ s) m = omega (
  arith,
  release_all-descs fuel s (free_frag_desc (destroy_frag_desc fuel d m)),
  destroy-descs fuel d m,
)

-- The destructor finds every descriptor again: in the end the pools have all that the constructor
-- put into them.
pub free_frag_resources-pools :
    (h c fuel : ℕ) (m : Manager)
    → Balanced h c m
    → ((free_frag_resources fuel m).0.holes_free ≡ h)
      × ((free_frag_resources fuel m).0.descs_free ≡ c)
unfolding free_frag_resources
free_frag_resources-pools h c fuel m b = (
  omega (arith, b.holes_add_up, release_all-holes fuel m.frags m),
  omega (arith, b.descs_add_up, release_all-descs fuel m.frags m),
)
