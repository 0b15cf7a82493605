-- ===== src/Heartbeat/Chain/Laws.antt =====
-- What the generated chain holds, and that it is read back from its file.
use smartedge.Base.{ℕ, zero, suc, ◌+◌, ◌*◌, ◌/◌, ◌≤◌, ◌≡◌, refl, ap, ap₂, ◌∙◌}
use smartedge.Base.{◌&&◌, true, some, none, leb, if◌then◌else◌, List, [], ◌∷◌, ◌++◌, =?_refl, arith}
use smartedge.Base.{length, length-append, get_elem?, last?, All, take, drop}
use smartedge.Base.{take-length-append, drop-length-append, drop-drop}
use smartedge.Base.Bytes.{Bytes}
use smartedge.Base.Exec.{ok, raised, os_error, return, ◌>>=◌}
use smartedge.Heartbeat.Chain.{
  KeyDir, Disk, private_key_file, chain_file, public_key_file, safe_write, finish, join, slices,
  load_chain, hash_n, check_link, extend, generate_winternitz_chain,
}

slices-drop : (i k : ℕ) (bytes : Bytes) → slices (i + 1) k bytes ≡ slices i k (drop 32 bytes)
unfolding slices
slices-drop i zero bytes = refl
slices-drop i (suc k) bytes =
    ap₂ ◌∷◌
      (ap (take 32)
        (ap (λ m. drop m bytes) {x = (i + 1) * 32} (omega arith) ∙ drop-drop (i * 32) 32 bytes))
      (slices-drop (i + 1) k bytes)

length-join :
    (chain : List Bytes) → All (λ p. length p ≡ 32) chain → length (join chain) ≡ 32 * length chain
unfolding join
length-join [] h = refl
length-join (p ∷ ps) (e, h) = length-append p (join ps) ∙ omega (arith, length-join ps h)

slices-join :
    (chain : List Bytes)
    → All (λ p. length p ≡ 32) chain
    → slices 0 (length chain) (join chain) ≡ chain
unfolding slices join
slices-join [] h = refl
slices-join (p ∷ ps) (e, h) = ap₂ ◌∷◌ (take-length-append p (join ps) 32 e) (
    slices-drop 0 (length ps) (p ++ join ps)
    ∙ ap (slices 0 (length ps)) (drop-length-append p (join ps) 32 e)
    ∙ slices-join ps h)

div_chain :
    (chain : List Bytes) → All (λ p. length p ≡ 32) chain → length (join chain) / 32 ≡ length chain
div_chain chain h = omega (arith, length-join chain h)

-- A chain of points of 32 bytes is read back from the file of its points joined.
pub load_chain-join :
    (chain : List Bytes) → All (λ p. length p ≡ 32) chain → load_chain (join chain) ≡ ok chain
unfolding load_chain
load_chain-join chain h = ground (
  arith,
  length-join chain h,
  slices-join chain h,
  ap (λ k. slices 0 k (join chain)) (div_chain chain h),
)

module _ (hash : Bytes → Bytes) where
  -- The points from `x` on: `x`, `hash x`, …, and `n` more.
  iterates : Bytes → ℕ → List Bytes
  iterates x zero = x ∷ []
  iterates x (suc n) = x ∷ iterates (hash x) n

  length-iterates : (x : Bytes) (n : ℕ) → length (iterates x n) ≡ n + 1
  unfolding iterates
  length-iterates x zero = refl
  length-iterates x (suc n) = omega (arith, length-iterates (hash x) n)

  get_elem?-iterates :
      (x : Bytes) (n i : ℕ) → i ≤ n → get_elem? (iterates x n) i ≡ some (hash_n hash x i)
  unfolding iterates hash_n
  get_elem?-iterates x zero zero h = refl
  get_elem?-iterates x zero (suc i) h = absurd (omega arith)
  get_elem?-iterates x (suc n) zero h = refl
  get_elem?-iterates x (suc n) (suc i) h = get_elem?-iterates (hash x) n i (omega arith)

  get_elem?-points :
      (x : Bytes) (n i : ℕ)
      → get_elem? (iterates x n) i ≡ (if leb i n then some (hash_n hash x i) else none)
  unfolding iterates hash_n
  get_elem?-points x zero zero = refl
  get_elem?-points x zero (suc i) = ground arith
  get_elem?-points x (suc n) zero = ground arith
  get_elem?-points x (suc n) (suc i) = get_elem?-points (hash x) n i ∙ ground arith

  last?-cons : (x : Bytes) (y : Bytes) (n : ℕ) → last? (x ∷ iterates y n) ≡ last? (iterates y n)
  unfolding iterates
  last?-cons x y zero = refl
  last?-cons x y (suc n) = refl

  last?-iterates : (x : Bytes) (n : ℕ) → last? (iterates x n) ≡ some (hash_n hash x n)
  unfolding iterates hash_n
  last?-iterates x zero = refl
  last?-iterates x (suc n) = last?-cons x (hash x) n ∙ last?-iterates (hash x) n

  iterates-append :
      (x : Bytes) (n : ℕ) → iterates x n ++ hash (hash_n hash x n) ∷ [] ≡ iterates x (suc n)
  unfolding iterates hash_n
  iterates-append x zero = refl
  iterates-append x (suc n) = ap (◌∷◌ x) (iterates-append (hash x) n)

  hash_n-suc : (x : Bytes) (n : ℕ) → hash_n hash x (suc n) ≡ hash (hash_n hash x n)
  unfolding hash_n
  hash_n-suc x zero = refl
  hash_n-suc x (suc n) = hash_n-suc (hash x) n

  -- `n` and then `m` more applications are `n + m`.
  pub hash_n-add : (x : Bytes) (n m : ℕ) → hash_n hash (hash_n hash x n) m ≡ hash_n hash x (n + m)
  unfolding hash_n
  hash_n-add x zero m = ap (hash_n hash x) {x = m} {y = 0 + m} (omega arith)
  hash_n-add x (suc n) m =
      hash_n-add (hash x) n m ∙ ap (hash_n hash x) {x = suc (n + m)} {y = suc n + m} (omega arith)

  check_link-iterates : (x : Bytes) (n : ℕ) → check_link hash (iterates x (suc n)) (suc n) ≡ ok true
  unfolding check_link
  check_link-iterates x n = ground (
    arith,
    get_elem?-iterates x (suc n) (suc n),
    get_elem?-iterates x (suc n) n,
    hash_n-suc x n,
    =?_refl (hash (hash_n hash x n)),
  )

  extend-iterates :
      (k n : ℕ) (x : Bytes) → extend hash k (suc n) (iterates x n) ≡ ok (iterates x (n + k))
  unfolding extend
  extend-iterates zero n x = ap (λ m. ok (iterates x m)) (omega arith)
  extend-iterates (suc k) n x = ground (
    arith,
    last?-iterates x n,
    iterates-append x n,
    check_link-iterates x n,
    extend-iterates k (suc n) x,
    ap (λ m. iterates x m) {x = suc n + k} {y = n + suc k} (omega arith),
  )

  extended : (x0 : Bytes) (n : ℕ) → extend hash n 1 (x0 ∷ []) ≡ ok (iterates x0 n)
  unfolding iterates
  extended x0 n =
      extend-iterates n 0 x0 ∙ ap (λ m. ok (iterates x0 m)) {x = 0 + n} {y = n} (omega arith)

  generated_files :
      (disk : Disk) (x0 : Bytes) (n : ℕ) (dir : KeyDir)
      → let made = disk.makes_dir in
        let one = made && disk.writes private_key_file in
        let two = one && disk.writes chain_file in
        let three = two && disk.writes public_key_file in
        ((generate_winternitz_chain hash disk x0 n dir).0
          ≡ (if three then ok (iterates x0 n) else raised os_error))
        × ((generate_winternitz_chain hash disk x0 n dir).1 ≡ record {
          private_key = if one then some x0 else dir.private_key;
          winternitz_chain = if two then some (join (iterates x0 n)) else dir.winternitz_chain;
          public_key = if three then some (hash_n hash x0 n) else dir.public_key;
        })
  unfolding generate_winternitz_chain finish safe_write return ◌>>=◌
  generated_files disk x0 n dir = (
    ground (arith, extended x0 n, last?-iterates x0 n),
    ground (arith, extended x0 n, last?-iterates x0 n),
  )

  -- The generator returns its chain exactly when the directory can be made and the three files can
  -- be written, and otherwise raises an OSError; each file is written when the ones before it
  -- could be, and is left as it was otherwise. The chain has chain_length + 1 points, point i is
  -- the seed hashed i times, and the files hold the seed, all points joined and the last point.
  pub generate-chain :
      (disk : Disk) (x0 : Bytes) (chain_length : ℕ) (dir : KeyDir)
      → let made = disk.makes_dir in
        let one = made && disk.writes private_key_file in
        let two = one && disk.writes chain_file in
        let three = two && disk.writes public_key_file in
        (chain : List Bytes) × ((generate_winternitz_chain hash disk x0 chain_length dir).0
          ≡ (if three then ok chain else raised os_error))
        × ((generate_winternitz_chain hash disk x0 chain_length dir).1 ≡ record {
          private_key = if one then some x0 else dir.private_key;
          winternitz_chain = if two then some (join chain) else dir.winternitz_chain;
          public_key = if three then some (hash_n hash x0 chain_length) else dir.public_key;
        })
        × (length chain ≡ chain_length + 1)
        × ((i : ℕ)
            → get_elem? chain i ≡ (if leb i chain_length then some (hash_n hash x0 i) else none))
  generate-chain disk x0 n dir =
      let (result, files) = generated_files disk x0 n dir in
      (iterates x0 n, result, files, length-iterates x0 n, get_elem?-points x0 n)
