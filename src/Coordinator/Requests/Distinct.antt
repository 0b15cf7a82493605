-- ===== src/Coordinator/Requests/Distinct.antt =====
-- The tasks of a request have identifiers that increase, so their addresses are distinct.
use smartedge.Base.{
  ℕ, ◌+◌, ◌≤◌, ◌<◌, ◌^◌, ◌≡◌, ◌≢◌, ◌⊎◌, refl, ap, ◌∙◌, none, some, Option, List, [], ◌∷◌, ◌++◌, map,
  arith, Text, All, inl, inr, Option-cases, ltb, Bool-cases,
}
use smartedge.Base.Dict.{Dict, lookup}
use smartedge.Base.Exec.{Result, ok, raised, value_error}
use smartedge.Address.{
  int_to_mac, ip_text, ip_add, ip_address, assign_virtual_mac_and_ip_by_host_id,
}
use smartedge.Address.Ip.{ip_address-ip_text}
use smartedge.Address.Mac.{mac_value, mac_value-int_to_mac}
use smartedge.Swarm.Io.{ArtRow, Heartbeats, Config, NodeConfig, set_config, update_config, go_away}
use smartedge.Swarm.Database.HostIds.{Increasing, Increasing-weaken}
use smartedge.Swarm.Settings.{this_swarm_subnet}
use smartedge.Swarm.Discovery.{Ap}
use smartedge.Coordinator.Onboard.{Task, node_config}
use smartedge.Coordinator.Onboard.Configs.{offer, offers}
use smartedge.Coordinator.Requests.{task_of, cons_task, create_tasks}

-- A field of the configurations that give a node its addresses.
unfoldable pub told : (NodeConfig → Text) → List (Text × Config) → List Text
told pick [] = []
told pick ((ip, set_config c) ∷ cs) = pick c ∷ told pick cs
told pick ((ip, update_config c) ∷ cs) = pick c ∷ told pick cs
told pick ((ip, go_away) ∷ cs) = told pick cs

unfoldable pub Distinct : List Text → Type 0
Distinct [] = Unit
Distinct (t ∷ ts) = All (λ u. t ≢ u) ts × Distinct ts

-- Texts whose values increase are distinct.
above :
    (f : Text → ℕ) (lo : ℕ) (t : Text) (ts : List Text)
    → f t < lo
    → Increasing lo (map f ts)
    → All (λ u. t ≢ u) ts
above f lo t [] h i = tt
above f lo t (u ∷ ts) h (l, i) =
    (λ e. absurd (omega (arith, h, l, ap f e)), above f (f u + 1) t ts (omega arith) i)

Increasing-Distinct :
    (f : Text → ℕ) (lo : ℕ) (ts : List Text) → Increasing lo (map f ts) → Distinct ts
unfolding Distinct
Increasing-Distinct f lo [] i = tt
Increasing-Distinct f lo (t ∷ ts) (l, i) =
    (above f (f t + 1) t ts (omega arith) i, Increasing-Distinct f (f t + 1) ts i)

abbrev pub Ordered : ℕ → Option (List Task) → Type 0
Ordered lo none = Unit
Ordered lo (some ts) = Increasing lo (map (λ t. t.host_id) ts)

cons_task-Ordered :
    (lo : ℕ) (t : Task) (o : Option (List Task))
    → lo ≤ t.host_id
    → Ordered (t.host_id + 1) o
    → Ordered lo (cons_task t o)
cons_task-Ordered lo t none l h = tt
cons_task-Ordered lo t (some ts) l h = (l, h)

pub create_tasks-Ordered :
    (rows : List ArtRow) (ids : List ℕ) (lo : ℕ)
    → Increasing lo ids
    → Ordered lo (create_tasks rows ids)
unfolding create_tasks
create_tasks-Ordered [] ids lo i = tt
create_tasks-Ordered (r ∷ rows) [] lo i = tt
create_tasks-Ordered (r ∷ rows) (n ∷ ids) lo (l, i) =
    cons_task-Ordered lo (task_of r n) (create_tasks rows ids) l
      (create_tasks-Ordered rows ids (n + 1) i)

abbrev pub address_of : ℕ → ℕ
address_of host_id = this_swarm_subnet + host_id

assigned :
    (n : ℕ)
    → (assign_virtual_mac_and_ip_by_host_id this_swarm_subnet n ≡ raised value_error)
      ⊎ ((address_of n < 2 ^ 32)
          × (assign_virtual_mac_and_ip_by_host_id this_swarm_subnet n
              ≡ ok (int_to_mac (address_of n), ip_text (address_of n))))
unfolding assign_virtual_mac_and_ip_by_host_id ip_add
assigned n = elim (Bool-cases (ltb (address_of n) (2 ^ 32))) [
  | inl fits ↦ inr (ground (arith, fits), rw (fits, assign_virtual_mac_and_ip_by_host_id) refl)
  | inr too_far ↦ inl (rw (too_far, assign_virtual_mac_and_ip_by_host_id) refl)
]

front : (lo n m : ℕ) (xs : List ℕ) → m ≡ n → lo ≤ n → Increasing (n + 1) xs → Increasing lo (m ∷ xs)
front lo n m xs same l i = rw same (l, i)

-- A field with a value that is the address.
module _ (pick : NodeConfig → Text) (f : Text → ℕ)
    (value : (c : NodeConfig) (n : ℕ)
      → n < 2 ^ 32
      → c.veth1_vip ≡ ip_text n
      → c.veth1_vmac ≡ int_to_mac n
      → f (pick c) ≡ n)
    (aps : Dict Ap) (hb : Heartbeats) where
  abbrev values : List (Text × Config) → List ℕ
  values cs = map f (told pick cs)

  -- One task, in front of the configurations of the tasks behind it.
  offer-Increasing :
      (t : Task) (lo : ℕ) (cs : List (Text × Config))
      → lo ≤ t.host_id
      → Increasing (address_of (t.host_id + 1)) (values cs)
      → Increasing (address_of lo) (values (offer aps hb t ++ cs))
  unfolding offer told node_config
  offer-Increasing t lo cs l i =
      let weaker =
        Increasing-weaken (address_of lo) (address_of (t.host_id + 1)) (values cs)
          (omega (arith, l)) i in
      elim (Option-cases (lookup t.ap_id aps)) [
        | inl unknown ↦ rw unknown weaker
        | inr (a, known) ↦ elim (assigned t.host_id) [
          | inl too_far ↦ rw (known, too_far) weaker
          | inr (fits, address) ↦
              rw (known, address)
                (front (address_of lo) (address_of t.host_id) _ (values cs)
                  (value _ (address_of t.host_id) fits refl refl) (omega (arith, l))
                  (Increasing-weaken (address_of t.host_id + 1) (address_of (t.host_id + 1))
                    (values cs) (omega arith) i))
        ]
      ]

  offers-Increasing :
      (ts : List Task) (lo : ℕ)
      → Increasing lo (map (λ t. t.host_id) ts)
      → Increasing (address_of lo) (values (offers aps hb ts))
  unfolding offers told
  offers-Increasing [] lo i = tt
  offers-Increasing (t ∷ ts) lo (l, i) =
      offer-Increasing t lo (offers aps hb ts) l (offers-Increasing ts (t.host_id + 1) i)

  pub offers-Distinct :
      (ts : List Task) (lo : ℕ)
      → Increasing lo (map (λ t. t.host_id) ts)
      → Distinct (told pick (offers aps hb ts))
  offers-Distinct ts lo i =
      Increasing-Distinct f (address_of lo) (told pick (offers aps hb ts))
        (offers-Increasing ts lo i)

abbrev pub number_of : Result ℕ → ℕ
number_of (ok a) = a
number_of (raised e) = 0

abbrev pub ip_value : Text → ℕ
ip_value t = number_of (ip_address t)

pub mac_of_config :
    (c : NodeConfig) (n : ℕ)
    → n < 2 ^ 32
    → c.veth1_vip ≡ ip_text n
    → c.veth1_vmac ≡ int_to_mac n
    → mac_value 0 c.veth1_vmac ≡ n
mac_of_config c n fits vip vmac = rw vmac (mac_value-int_to_mac n (omega (arith, fits)))

pub ip_of_config :
    (c : NodeConfig) (n : ℕ)
    → n < 2 ^ 32
    → c.veth1_vip ≡ ip_text n
    → c.veth1_vmac ≡ int_to_mac n
    → ip_value c.veth1_vip ≡ n
ip_of_config c n fits vip vmac = ap ip_value vip ∙ ap number_of (ip_address-ip_text n fits)
