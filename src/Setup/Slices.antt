-- ===== src/Setup/Slices.antt =====
-- `apply_server_hostnames` of environment/aws/topology_setup/setup_topology.py deals the machines out.
use mathlib.Core.Path.{ap₂}
use native.Mathlib.Nat.{zero-add, suc-add}
use couchbase_lite_tests.Prelude.{
  ℕ, zero, suc, ◌+◌, ◌≤◌, ◌≡◌, refl, ap, List, map, [], ◌∷◌, ◌++◌, pos, Text, arith, length, take,
  drop,
}
use couchbase_lite_tests.Setup.{ClusterInput, TopologyInputs}
use couchbase_lite_tests.Setup.Hosts.{
  ClusterConfig, new_topology, slice, cluster_configs, apply_server_hostnames,
}

-- The inputs ask for these numbers of servers, none of which is below zero.
abbrev pub Counts : List ClusterInput → List ℕ → Type 0
Counts [] [] = Unit
Counts (c ∷ inputs) (n ∷ counts) = (c.server_count ≡ pos n) × Counts inputs counts
Counts _ _ = ◌≡◌ {A = ℕ} 0 1

abbrev pub total : List ℕ → ℕ
total [] = 0
total (n ∷ counts) = n + total counts

-- Parts of a list, one after the other, of these lengths.
abbrev pub deal {ℓ} : {A : Type ℓ} → List ℕ → List A → List (List A)
deal [] xs = []
deal (n ∷ counts) xs = take n xs ∷ deal counts (drop n xs)

pub concat {ℓ} : {A : Type ℓ} → List (List A) → List A
concat [] = []
concat (xs ∷ rest) = xs ++ concat rest

take-nil {ℓ} : {A : Type ℓ} (n : ℕ) → take {A = A} n [] ≡ []
take-nil zero = refl
take-nil (suc n) = refl

drop-nil {ℓ} : {A : Type ℓ} (n : ℕ) → drop {A = A} n [] ≡ []
drop-nil zero = refl
drop-nil (suc n) = refl

drop-take {ℓ} : {A : Type ℓ} (k n : ℕ) (xs : List A) → drop k (take (k + n) xs) ≡ take n (drop k xs)
drop-take zero n xs = rw zero-add refl
drop-take (suc k) n [] = rw (take-nil (suc k + n), take-nil n) refl
drop-take (suc k) n (x ∷ xs) = rw suc-add (drop-take k n xs)

drop-drop {ℓ} : {A : Type ℓ} (k n : ℕ) (xs : List A) → drop n (drop k xs) ≡ drop (k + n) xs
drop-drop zero n xs = rw zero-add refl
drop-drop (suc k) n [] = rw (drop-nil n, drop-nil (suc k + n)) refl
drop-drop (suc k) n (x ∷ xs) = rw suc-add (drop-drop k n xs)

length-take-le {ℓ} : {A : Type ℓ} (n : ℕ) (xs : List A) → n ≤ length xs → length (take n xs) ≡ n
length-take-le zero xs h = refl
length-take-le (suc n) [] h = omega arith
length-take-le (suc n) (x ∷ xs) h = omega (arith, length-take-le n xs)

length-drop-le {ℓ} :
    {A : Type ℓ} (n m : ℕ) (xs : List A) → n + m ≤ length xs → m ≤ length (drop n xs)
length-drop-le zero m xs h = omega arith
length-drop-le (suc n) m [] h = omega arith
length-drop-le (suc n) m (x ∷ xs) h = length-drop-le n m xs (omega arith)

take-add {ℓ} :
    {A : Type ℓ} (n m : ℕ) (xs : List A) → take n xs ++ take m (drop n xs) ≡ take (n + m) xs
take-add zero m xs = rw zero-add refl
take-add (suc n) m [] = rw (take-nil m, take-nil (suc n + m)) refl
take-add (suc n) m (x ∷ xs) = rw suc-add (ap (◌∷◌ x) (take-add n m xs))

map-length-deal {ℓ} :
    {A : Type ℓ} (counts : List ℕ) (xs : List A)
    → total counts ≤ length xs
    → map length (deal counts xs) ≡ counts
map-length-deal [] xs h = refl
map-length-deal (n ∷ counts) xs h =
    ap₂ ◌∷◌ (length-take-le n xs (omega arith))
      (map-length-deal counts (drop n xs) (length-drop-le n (total counts) xs h))

concat-deal {ℓ} :
    {A : Type ℓ} (counts : List ℕ) (xs : List A) → concat (deal counts xs) ≡ take (total counts) xs
unfolding concat
concat-deal [] xs = refl
concat-deal (n ∷ counts) xs = rw (concat-deal counts (drop n xs)) (take-add n (total counts) xs)

abbrev pub publics : List ClusterConfig → List (List Text)
publics clusters = map (λ (c : ClusterConfig). c.public_hostnames) clusters

abbrev pub internals : List ClusterConfig → List (List Text)
internals clusters = map (λ (c : ClusterConfig). c.internal_hostnames) clusters

slice-part : (k n : ℕ) (xs : List Text) → slice xs (pos k) (pos (k + n)) ≡ take n (drop k xs)
slice-part k n xs = drop-take k n xs

pub cluster_configs-deal :
    (inputs : List ClusterInput) (counts : List ℕ) (k : ℕ) (hostnames internal : List Text)
    → Counts inputs counts
    → (publics (cluster_configs (pos k) hostnames internal inputs) ≡ deal counts (drop k hostnames))
      × (internals (cluster_configs (pos k) hostnames internal inputs)
          ≡ deal counts (drop k internal))
unfolding cluster_configs
cluster_configs-deal [] [] k hostnames internal h = (refl, refl)
cluster_configs-deal [] (n ∷ counts) k hostnames internal h = absurd (omega arith)
cluster_configs-deal (c ∷ inputs) [] k hostnames internal h = absurd (omega arith)
cluster_configs-deal (c ∷ inputs) (n ∷ counts) k hostnames internal (e, h) =
    let (p, i) = cluster_configs-deal inputs counts (k + n) hostnames internal h in
    rw (e, drop-drop k n hostnames, drop-drop k n internal)
      (ap₂ ◌∷◌ (slice-part k n hostnames) p, ap₂ ◌∷◌ (slice-part k n internal) i)

-- What Terraform has started is dealt out in order: where the clusters of a topology ask for these
-- numbers of servers and there are at least as many host names as servers in all, each cluster gets as
-- many public and as many internal host names as it asks for, and together they get the first ones, each
-- once.
pub apply_server_hostnames-deal :
    (hostnames internal : List Text) (inputs : TopologyInputs) (counts : List ℕ)
    → Counts inputs.clusters counts
    → total counts ≤ length hostnames
    → total counts ≤ length internal
    → let clusters = (apply_server_hostnames hostnames internal (new_topology inputs)).clusters in
      (map length (publics clusters) ≡ counts)
      × (map length (internals clusters) ≡ counts)
      × (concat (publics clusters) ≡ take (total counts) hostnames)
      × (concat (internals clusters) ≡ take (total counts) internal)
unfolding apply_server_hostnames
apply_server_hostnames-deal hostnames internal inputs counts h enough enough_internal =
    let (p, i) = cluster_configs-deal inputs.clusters counts 0 hostnames internal h in
    rw (p, i)
      (
        map-length-deal counts hostnames enough,
        map-length-deal counts internal enough_internal,
        concat-deal counts hostnames,
        concat-deal counts internal,
      )
