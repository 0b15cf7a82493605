-- ===== src/Swarm/Tests.antt =====
-- The theorems on addresses, identifiers, switches and discovery at concrete data.
use smartedge.Base.{ℕ, ◌≡◌, refl, true, false, not, none, some, List, [], ◌∷◌, ◌++◌}
use smartedge.Base.{◌&&◌, ◌||◌, ◌==◌, All, ltb, leb, elem, if◌then◌else◌, Text, codes}
use smartedge.Base.Exec.{ok}
use smartedge.Base.Bytes.{contains_text, starts_with, splitlines, has_char}
use smartedge.Base.Decimal.{dec, to_dec}
use smartedge.Address.Numbers.{join_commas}
use smartedge.Swarm.Io.{Env, Io, cli, run_cli_command}
use smartedge.Swarm.Database.{range_from, without, lowest_free, next_host_id, batch_host_ids}
use smartedge.Swarm.Database.HostIds.{Increasing, batch_end, elem-batch_host_ids}
use smartedge.Swarm.Switch.{
  thrift_cli, table_add_command, dump_entry_command, bad_match_key, add_entry_to_bmv2,
  node_update_command, add_bmv2_swarm_broadcast_port, remove_bmv2_swarm_broadcast_port,
}
use smartedge.Swarm.Switch.Answers.{modification, dumped, add_entry-events}
use smartedge.Swarm.Switch.Listed.{listing, broadcast_port-events}
use smartedge.Swarm.Discovery.{Known, Announcement, listen}
use smartedge.Swarm.Discovery.Laws.{listen-listen}

elem-batch_host_ids_example :
    Increasing 1 (batch_host_ids 1 5 (2 ∷ 4 ∷ []))
    × ((x : ℕ)
        → elem x (batch_host_ids 1 5 (2 ∷ 4 ∷ []))
          ≡ (leb 1 x && ltb x (batch_end 5 (2 ∷ 4 ∷ [])) && not (elem x (2 ∷ 4 ∷ []))))
elem-batch_host_ids_example = elem-batch_host_ids 1 5 (2 ∷ 4 ∷ [])

least : next_host_id 1 5 (2 ∷ 1 ∷ []) ≡ ok 3
unfolding next_host_id lowest_free without range_from elem
least = refl

-- A switch that answers every command with the same text.
abbrev switch_env : Text → Env
switch_env answer = record {
  write = λ _ _. true;
  art_row = λ _ _. some none;
  art_rows = λ _ _. some [];
  id_of = λ _ _. some none;
  ids = λ _. some [];
  onecmd = λ _ _ _. record { output = answer; raises = false };
  run = λ _ _. record { stdout = []; stderr = [] };
  connect = λ _ _ _. true;
  rounds = λ _. 1;
}

abbrev start : Io
start = record { events = []; captured = []; position = 0 }

abbrev table : Text
table = codes "t"

abbrev switch : Text
switch = codes "s"

abbrev param : Text
param = codes "p"

add_entry-events_example :
    (add_entry_to_bmv2
      (switch_env bad_match_key)
      thrift_cli
      switch
      table
      param
      param
      param
      start).1.events
    ≡ (run_cli_command
        (switch_env bad_match_key)
        (dump_entry_command table param)
        switch
        start).1.events
      ++ (if contains_text bad_match_key bad_match_key
          then cli switch (table_add_command table param param param) ∷ []
          else modification switch table param param (dumped bad_match_key))
unfolding run_cli_command codes
add_entry-events_example =
    add_entry-events (switch_env bad_match_key) switch table param param param bad_match_key start
      (run_cli_command (switch_env bad_match_key) (dump_entry_command table param) switch start).1
      refl

-- The switch's list of its broadcast group.
abbrev group : Text
group = codes "mgrp(1)"

abbrev front : Text
front = codes "-> ("

abbrev back : Text
back = codes ")"

abbrev ports : List ℕ
ports = 510 ∷ 7 ∷ []

abbrev listed : Text
listed = group ++ b'\n' ∷ listing front ports back

abbrev asked : Io
asked = (run_cli_command (switch_env listed) (codes "mc_dump") switch start).1

listed-answer :
    run_cli_command (switch_env listed) (codes "mc_dump") switch start ≡ (ok listed, asked)
unfolding run_cli_command codes
listed-answer = refl

listed-lines : splitlines listed ≡ group ∷ listing front ports back ∷ []
unfolding splitlines join_commas dec to_dec codes
listed-lines = refl

group-here : contains_text (codes "mgrp(") group ≡ true
unfolding contains_text starts_with codes
group-here = refl

no_group_after : All (λ l. contains_text (codes "mgrp(") l ≡ false) (listing front ports back ∷ [])
unfolding contains_text starts_with join_commas dec to_dec codes
no_group_after = (refl, tt)

plain : (has_char b'p' front ≡ false) × (has_char b'p' back ≡ false)
unfolding has_char codes
plain = (refl, refl)

broadcast_port-events_example :
    ((ps : List ℕ) × ((add_bmv2_swarm_broadcast_port (switch_env listed) 7 switch start).1.events
        ≡ asked.events ++ cli switch (node_update_command ps) ∷ [])
      × ((x : ℕ) → elem x ps ≡ (7 == x || elem x ports)))
    × ((ps : List ℕ) × ((remove_bmv2_swarm_broadcast_port
            (switch_env listed)
            7
            switch
            start).1.events
          ≡ asked.events ++ (if elem 7 ports then cli switch (node_update_command ps) ∷ [] else []))
        × ((x : ℕ) → elem x ps ≡ (not (7 == x) && elem x ports)))
broadcast_port-events_example =
    broadcast_port-events (switch_env listed) 7 switch listed start asked front back group ports []
      listed-answer listed-lines group-here no_group_after plain.0 plain.1

abbrev nobody : Known
nobody = record { known_aps = []; known_coordinators = [] }

abbrev hello : Announcement
hello = record {
  group_id = table;
  kind = codes "AP";
  last_update = codes "12";
  uuid = param;
  name = switch;
  address = switch;
  sebackbone_ip = switch;
}

listen-listen_example :
    listen table (λ a. some a) (some hello) (listen table (λ a. some a) (some hello) nobody)
    ≡ listen table (λ a. some a) (some hello) nobody
listen-listen_example = listen-listen table (λ a. some a) (some hello) nobody
