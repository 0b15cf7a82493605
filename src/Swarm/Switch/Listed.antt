-- ===== src/Swarm/Switch/Listed.antt =====
-- The ports of the broadcast group, as a switch lists them, and the command that changes them.
use smartedge.Base.{
  ℕ, ◌≡◌, refl, ap, ◌∙◌, true, false, not, some, List, [], ◌∷◌, ◌++◌, ◌&&◌, ◌||◌, arith,
}
use smartedge.Base.{Text, codes, All, elem, ◌==◌, if◌then◌else◌}
use mathlib.Core.List.{append-nil}
use smartedge.Base.Bytes.{split-append, has_char-append, splitlines, has_char}
use smartedge.Base.Bytes.Split.{split_text-once}
use smartedge.Base.Exec.{Exec, Result, ok, raised, lift, return, proceed, ◌>>=◌}
use smartedge.Address.Numbers.{join_commas, extract_numbers-join_commas, has_char-join_commas}
use smartedge.Swarm.Io.{Env, Io, cli, run_cli_command}
use smartedge.Swarm.Switch.{
  node_update_command, add_port, remove_port, port_set, listed_ports, set_ports, is_group,
  each_group, next_line, drop_port, add_bmv2_swarm_broadcast_port, remove_bmv2_swarm_broadcast_port,
}
use smartedge.Swarm.Switch.Ports.{elem-ports, elem-numbers}

abbrev needle : Text
needle = codes "ports=["

-- The line under a group, which has no other 'p' than that of "ports".
abbrev pub listing : Text → List ℕ → Text → Text
listing front ns back = front ++ (needle ++ (join_commas ns ++ b']' ∷ back))

body_no_p :
    (ns : List ℕ) (back : Text)
    → has_char b'p' back ≡ false
    → has_char b'p' (join_commas ns ++ b']' ∷ back) ≡ false
unfolding has_char
body_no_p ns back k = ground (
  arith,
  k,
  has_char-append b'p' (join_commas ns) (b']' ∷ back),
  has_char-join_commas b'p' ns (omega arith),
)

listed_ports-listing :
    (front back : Text) (ns : List ℕ)
    → has_char b'p' front ≡ false
    → has_char b'p' back ≡ false
    → listed_ports (some (listing front ns back)) ≡ ok (port_set [] ns)
unfolding listed_ports codes
listed_ports-listing front back ns h k =
    let body = join_commas ns ++ b']' ∷ back in
    ground (
      arith,
      split_text-once b'p' (codes "orts=[") front body h (body_no_p ns back k),
      split-append b']' (join_commas ns) back (has_char-join_commas b']' ns (omega arith)),
      extract_numbers-join_commas ns,
    )

-- Lines of no group.
each_group-none :
    (act : List ℕ → Exec Io (Unit {0})) (lines : List Text) (s : Io)
    → All (λ l. is_group l ≡ false) lines
    → each_group act lines s ≡ (ok tt, s)
unfolding each_group
each_group-none act [] s h = refl
each_group-none act (l ∷ lines) s (here, h) = rw here (each_group-none act lines s h)

each_group-step :
    (act : List ℕ → Exec Io (Unit {0})) (group : Text) (lines : List Text) (ports : List ℕ) (s : Io)
    → is_group group ≡ true
    → listed_ports (next_line lines) ≡ ok ports
    → each_group act (group ∷ lines) s
      ≡ proceed (λ _. each_group act lines) (act ports s).0 (act ports s).1
unfolding each_group lift ◌>>=◌
each_group-step act group lines ports s here listed = rw (here, listed) refl

-- A single group.
each_group-one :
    (act : List ℕ → Exec Io (Unit {0})) (group line : Text) (after : List Text) (ports : List ℕ)
    (s : Io)
    → is_group group ≡ true
    → All (λ l. is_group l ≡ false) (line ∷ after)
    → listed_ports (some line) ≡ ok ports
    → (each_group act (group ∷ line ∷ after) s).1 ≡ (act ports s).1
each_group-one act group line after ports s here h listed =
    ap (λ r. r.1) (each_group-step act group (line ∷ after) ports s here listed)
    ∙ go (act ports s).0 (act ports s).1
  where
    go : (r : Result (Unit {0})) (t : Io) → (proceed (λ _. each_group act (line ∷ after)) r t).1 ≡ t
    go (ok u) t = ap (λ r. r.1) (each_group-none act (line ∷ after) t h)
    go (raised e) t = refl

set_ports-events :
    (env : Env) (switch : Text) (ports : List ℕ) (s : Io)
    → (set_ports env switch ports s).1.events
      ≡ s.events ++ cli switch (node_update_command ports) ∷ []
unfolding set_ports return run_cli_command ◌>>=◌
set_ports-events env switch ports s = ground arith

drop_port-events :
    (env : Env) (p : ℕ) (switch : Text) (ports : List ℕ) (s : Io)
    → (drop_port env p switch ports s).1.events
      ≡ s.events
        ++ (if elem p ports
            then cli switch (node_update_command (remove_port p ports)) ∷ []
            else [])
unfolding drop_port
drop_port-events env p switch ports s =
    ground (arith, set_ports-events env switch (remove_port p ports) s, append-nil s.events)

module _ (env : Env) (p : ℕ) (switch response : Text) (s t : Io) (front back group : Text)
    (ns : List ℕ) (after : List Text) where
  each_group-lines :
      (act : List ℕ → Exec Io (Unit {0}))
      → splitlines response ≡ group ∷ listing front ns back ∷ after
      → is_group group ≡ true
      → All (λ l. is_group l ≡ false) (listing front ns back ∷ after)
      → has_char b'p' front ≡ false
      → has_char b'p' back ≡ false
      → (each_group act (splitlines response) t).1 ≡ (act (port_set [] ns) t).1
  each_group-lines act lines here h no_front no_back =
      ap (λ ls. (each_group act ls t).1) lines
      ∙ each_group-one act group (listing front ns back) after (port_set [] ns) t here h
          (listed_ports-listing front back ns no_front no_back)

  -- When a switch lists a single group, whose ports stand behind the only "ports=[" of a line with
  -- no other 'p', adding a port sends exactly one update of the group, with the listed ports and
  -- that one; removing a port sends exactly one, with the listed ports but that one, where it is
  -- listed, and none where it is not.
  pub broadcast_port-events :
      run_cli_command env (codes "mc_dump") switch s ≡ (ok response, t)
      → splitlines response ≡ group ∷ listing front ns back ∷ after
      → is_group group ≡ true
      → All (λ l. is_group l ≡ false) (listing front ns back ∷ after)
      → has_char b'p' front ≡ false
      → has_char b'p' back ≡ false
      → ((ports : List ℕ) × ((add_bmv2_swarm_broadcast_port env p switch s).1.events
            ≡ t.events ++ cli switch (node_update_command ports) ∷ [])
          × ((x : ℕ) → elem x ports ≡ (p == x || elem x ns)))
        × ((ports : List ℕ) × ((remove_bmv2_swarm_broadcast_port env p switch s).1.events
              ≡ t.events ++ (if elem p ns then cli switch (node_update_command ports) ∷ [] else []))
            × ((x : ℕ) → elem x ports ≡ (not (p == x) && elem x ns)))
  unfolding add_bmv2_swarm_broadcast_port remove_bmv2_swarm_broadcast_port ◌>>=◌
  broadcast_port-events dump lines here h no_front no_back = (
    (
      add_port p (port_set [] ns),
      ap
            (λ r.
              (proceed
                (λ response.
                  each_group (λ ports. set_ports env switch (add_port p ports))
                    (splitlines response))
                r.0 r.1).1.events)
            dump
          ∙ ap (λ u. u.events)
              (each_group-lines (λ ports. set_ports env switch (add_port p ports)) lines here h
                no_front no_back)
          ∙ set_ports-events env switch (add_port p (port_set [] ns)) t,
      λ x. (elem-ports x p ns).0,
    ),
    (
      remove_port p (port_set [] ns),
      ap
            (λ r.
              (proceed (λ response. each_group (drop_port env p switch) (splitlines response)) r.0
                r.1).1.events)
            dump
          ∙ ap (λ u. u.events)
              (each_group-lines (drop_port env p switch) lines here h no_front no_back)
          ∙ drop_port-events env p switch (port_set [] ns) t
          ∙ ap
              (λ b.
                t.events
                ++ (if b
                    then cli switch (node_update_command (remove_port p (port_set [] ns))) ∷ []
                    else []))
              (elem-numbers p ns),
      λ x. (elem-ports x p ns).1,
    ),
  )
