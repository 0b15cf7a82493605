-- ===== src/Heartbeat/Chain.antt =====
-- The hash chain: `generate_winternitz_chain` and `load_chain` of
-- node_manager/heartbeat/heartbeat_client.py, and `_hash_n` of coordinator/heartbeat_server.py.
-- The hash function (SHA-256) is a parameter.
pub mod Laws
use smartedge.Base.{ℕ, zero, suc, ◌+◌, ◌*◌, ◌/◌, ◌%◌, ◌≡◌, Bool, Option, none, some}
use smartedge.Base.{
  List, [], ◌∷◌, ◌++◌, ◌==◌, ◌=?◌, if◌then◌else◌, length, get_elem?, last?, take, drop,
}
use smartedge.Base.Bytes.{Bytes}
use smartedge.Base.Exec.{
  Exec, Result, ok, raised, index_error, runtime_error, value_error, os_error, return, ◌>>=◌, ◌>>◌,
}

-- The files of the key directory.
pub record KeyDir : Type 0 where
  pub private_key : Option Bytes
  pub winternitz_chain : Option Bytes
  pub public_key : Option Bytes

pub data KeyFile : Type 0 where
  private_key_file chain_file public_key_file : KeyFile

-- Whether the directory can be made, and whether each file can be written and put in its place.
pub record Disk : Type 0 where
  pub makes_dir : Bool
  pub writes : KeyFile → Bool

abbrev put_file : KeyFile → Bytes → KeyDir → KeyDir
put_file private_key_file bytes dir = record dir { private_key = some bytes }
put_file chain_file bytes dir = record dir { winternitz_chain = some bytes }
put_file public_key_file bytes dir = record dir { public_key = some bytes }

-- `_safe_write`, which leaves an old file as it is where it fails.
unfoldable pub safe_write : Disk → KeyFile → Bytes → Exec KeyDir (Unit {0})
safe_write disk file bytes dir =
    if disk.writes file then (ok tt, put_file file bytes dir) else (raised os_error, dir)

-- `b"".join(chain)`
unfoldable pub join : List Bytes → Bytes
join [] = []
join (p ∷ ps) = p ++ join ps

-- `[data[i * 32:(i + 1) * 32] for i in range(i, i + k)]`
unfoldable pub slices : ℕ → ℕ → Bytes → List Bytes
slices i zero bytes = []
slices i (suc k) bytes = take 32 (drop (i * 32) bytes) ∷ slices (i + 1) k bytes

-- `load_chain`, from the content of the file.
unfoldable pub load_chain : Bytes → Result (List Bytes)
unfolding slices
load_chain bytes =
    if length bytes % 32 == 0 then ok (slices 0 (length bytes / 32) bytes) else raised value_error

module _ (hash : Bytes → Bytes) where
  -- `_hash_n`
  unfoldable pub hash_n : Bytes → ℕ → Bytes
  hash_n x zero = x
  hash_n x (suc n) = hash_n (hash x) n

  -- The test `chain[i] != hash(chain[i - 1])`, with Python's errors on the two indices.
  check_link : List Bytes → ℕ → Result Bool
  check_link chain zero = raised index_error
  check_link chain (suc i) = elim (get_elem? chain (suc i)) [
    | none ↦ raised index_error
    | some x ↦ elim (get_elem? chain i) [
      | none ↦ raised index_error
      | some prev ↦ ok (x =? hash prev)
    ]
  ]

  -- The rounds `for i in range(i, i + k)` of the generator.
  extend : ℕ → ℕ → List Bytes → Result (List Bytes)
  unfolding check_link
  extend zero i chain = ok chain
  extend (suc k) i chain = elim (last? chain) [
    | none ↦ raised index_error
    | some prev ↦
        let longer = chain ++ hash prev ∷ [] in
        let rest = extend k (i + 1) longer in
        elim (check_link longer i) [
          | raised e ↦ raised e
          | ok same ↦ if same then rest else raised runtime_error
        ]
  ]

  -- The three files, from the random seed `x0` and the chain.
  finish : Disk → Bytes → List Bytes → Exec KeyDir (List Bytes)
  unfolding safe_write return ◌>>=◌
  finish disk x0 chain dir = elim (last? chain) [
    | none ↦ (raised index_error, dir)
    | some public_key ↦
        (do
          safe_write disk private_key_file x0
          safe_write disk chain_file (join chain)
          safe_write disk public_key_file public_key
          return chain)
          dir
  ]

  -- `generate_winternitz_chain`
  unfoldable pub generate_winternitz_chain : Disk → Bytes → ℕ → Exec KeyDir (List Bytes)
  unfolding extend finish
  generate_winternitz_chain disk x0 chain_length dir =
      if disk.makes_dir
      then (elim (extend chain_length 1 (x0 ∷ [])) [
        | raised e ↦ (raised e, dir)
        | ok chain ↦ finish disk x0 chain dir
      ])
      else (raised os_error, dir)
