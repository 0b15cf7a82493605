-- ===== src/Address/Machine.antt =====
-- The functions of lib/helper_functions.py that look at the machine: which interfaces it has, and the
-- names that are made from addresses. `psutil`, `netifaces`, the routing table of the kernel and
-- `int(text, 16)` are arguments.
use smartedge.Base.{ℕ, ◌+◌, ◌-◌, ◌/◌, ◌%◌, Option, none, some, List, [], ◌∷◌, ◌++◌}
use smartedge.Base.{◌&&◌, ◌==◌, Text, codes, ◌=?◌, length, drop, get_elem?, if◌then◌else◌}
use smartedge.Base.Bytes.{split, strip, words, starts_with, remove_char}
use smartedge.Base.Decimal.{pos, negsuc, dec, int}
use smartedge.Base.Exec.{Result, ok, raised, value_error, index_error, attribute_error}
use smartedge.Address.{zeros, int_to_mac, ip_address}

-- The first interface whose name begins with the prefix.
unfoldable pub first_interface : Text → List Text → Option Text
unfolding starts_with
first_interface prefix [] = none
first_interface prefix (iface ∷ ifaces) =
    let rest = first_interface prefix ifaces in
    if starts_with prefix iface then some iface else rest

-- The Wi-Fi entry of `get_interfaces`.
unfoldable pub wifi_interface : List Text → Option Text
unfolding first_interface
wifi_interface all_interfaces = first_interface (codes "wl") all_interfaces

module _ (int16 : Text → Option ℕ) where
  -- One line of /proc/net/route: a default route through a gateway, in eleven columns. A line that
  -- raises is passed over.
  unfoldable pub default_route : List Text → Option Text
  default_route (iface ∷ dest ∷ gateway ∷ flags ∷ columns) = elim (int16 flags) [
    | none ↦ none
    | some f ↦
        if length columns == 7 && dest =? codes "00000000" && f / 2 % 2 == 1
        then some iface
        else none
  ]
  default_route _ = none

  unfoldable pub get_default_iface_name_linux : List Text → Option Text
  unfolding default_route
  get_default_iface_name_linux [] = none
  get_default_iface_name_linux (line ∷ lines) =
      let rest = get_default_iface_name_linux lines in
      elim (default_route (words (strip line))) [ none ↦ rest | some iface ↦ some iface ]

-- `"{:03d}".format(n)`
unfoldable pub dec3 : ℕ → Text
dec3 n = let t = dec n in zeros (3 - length t) ++ t

last_octet : Option Text → Result Text
unfolding dec3
last_octet none = raised index_error
last_octet (some t) = elim (int t) [
  | none ↦ raised value_error
  | some i ↦ elim i [
    | pos n ↦ ok (dec3 n)
    | negsuc n ↦ ok (45 ∷ (let d = dec (n + 1) in zeros (2 - length d) ++ d))
  ]
]

prefixed : Text → Result Text → Result Text
prefixed node_type (ok t) = ok (node_type ++ t)
prefixed node_type (raised e) = raised e

-- `auto_gen_uuid`, from the address of the default interface, where there is one.
unfoldable pub auto_gen_uuid : Text → Option Text → Result Text
unfolding last_octet prefixed
auto_gen_uuid node_type none = raised attribute_error
auto_gen_uuid node_type (some ip) = prefixed node_type (last_octet (get_elem? (split b'.' ip) 3))

-- `generate_uuid_from_lo`, from the address of the loopback interface.
unfoldable pub generate_uuid_from_lo : Text → Option Text → Result Text
generate_uuid_from_lo node_type none = raised value_error
generate_uuid_from_lo node_type (some lo0_ip) = elim (ip_address lo0_ip) [
  | raised e ↦ raised e
  | ok a ↦ ok (remove_char b':' (node_type ++ b':' ∷ drop 9 (int_to_mac a)))
]
