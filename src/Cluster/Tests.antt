-- ===== src/Cluster/Tests.antt =====
-- cluster_config.c: runs on a small ring, and the theorems at concrete inputs.
use arcus_memcached.Prelude.{ℕ, ◌≡◌, refl, true, none, some, List, [], ◌∷◌, arith}
use arcus_memcached.Btree.{binary_comp}
use arcus_memcached.Search.{search_loop}
use arcus_memcached.Cluster.{
  ContItem, ClusterConfig, hpoint_comp, first_equal, do_continuum_find, cluster_config_key_is_mine,
  do_nodearray_find,
}
use arcus_memcached.Cluster.Ring.{Sorted, cluster_config_key_is_mine-owner}
use arcus_memcached.Cluster.Names.{Increasing, NamedAt, do_nodearray_find-NamedAt}

abbrev point : ℕ → ℕ → ContItem
point h n = record { hpoint = h; nindex = n; sindex = 0; sstate = 1 }

abbrev ring : ClusterConfig
ring = record {
  self_id = 1;
  continuum = point 10 0 ∷ point 20 1 ∷ point 20 2 ∷ point 30 0 ∷ [];
  is_valid = true;
}

-- A hash function for the runs: the first byte.
abbrev first_byte : List ℕ → ℕ
first_byte [] = 0
first_byte (c ∷ key) = c

ring-Sorted : Sorted ring.continuum
unfolding Sorted
ring-Sorted = (omega arith, (omega arith, (omega arith, (omega arith, tt))))

cluster_config_key_is_mine-owner_example :
    cluster_config_key_is_mine first_byte ring (15 ∷ []) ≡ some (true, 1, 1)
cluster_config_key_is_mine-owner_example =
    cluster_config_key_is_mine-owner first_byte ring (15 ∷ []) refl ring-Sorted

abbrev names : List (List ℕ)
names = (97 ∷ []) ∷ (98 ∷ []) ∷ (98 ∷ 97 ∷ []) ∷ []

names-Increasing : Increasing names
unfolding Increasing binary_comp
names-Increasing = (refl, (refl, (refl, tt)))

do_nodearray_find-NamedAt_example : NamedAt names (98 ∷ []) (do_nodearray_find names (98 ∷ []))
do_nodearray_find-NamedAt_example = do_nodearray_find-NamedAt names (98 ∷ []) names-Increasing

ring_run :
    (do_continuum_find ring.continuum 20 ≡ some (point 20 1))
    × (do_continuum_find ring.continuum 21 ≡ some (point 30 0))
    × (do_continuum_find ring.continuum 31 ≡ some (point 10 0))
    × (do_nodearray_find names (98 ∷ 97 ∷ []) ≡ some 2)
    × (do_nodearray_find names (99 ∷ []) ≡ none)
unfolding do_continuum_find hpoint_comp first_equal search_loop do_nodearray_find binary_comp
ring_run = (refl, refl, refl, refl, refl)
