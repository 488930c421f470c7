-- ===== src/HashMap/Tests.antt =====
-- Keys of two bytes, of which 258 and 4115 share a bucket.
use libvma.Prelude.{ℕ, ◌≡◌, refl, ◌/◌, ◌%◌, true, false, none, List, [], ◌∷◌}
use libvma.HashMap.{hash_map, calc_hash, checksum}
use libvma.HashMap.Run.{Op, get_op, set_op, del_op, value, deleted, run, run_map, run-hash_map}

abbrev two_bytes : ℕ → List ℕ
two_bytes k = k % 256 ∷ k / 256 ∷ []

same_bucket : calc_hash (two_bytes 258) ≡ calc_hash (two_bytes 4115)
unfolding calc_hash checksum
same_bucket = refl

abbrev calls : List Op
calls =
    set_op 258 5
    ∷ set_op 4115 6
    ∷ get_op 4115 0
    ∷ set_op 4115 7
    ∷ get_op 4115 0
    ∷ del_op 4115
    ∷ get_op 4115 9
    ∷ del_op 4115
    ∷ get_op 258 0
    ∷ []

run-hash_map_example : run two_bytes calls hash_map ≡ run_map calls (λ k. none)
run-hash_map_example = run-hash_map two_bytes calls

answers :
    run_map calls (λ k. none)
    ≡ value 6 ∷ value 7 ∷ deleted true ∷ value 9 ∷ deleted false ∷ value 5 ∷ []
unfolding run_map
answers = refl
