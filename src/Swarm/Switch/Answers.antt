-- ===== src/Swarm/Switch/Answers.antt =====
-- The commands that the functions on tables issue, by the answers of the switch.
use smartedge.Base.{ℕ, ◌≡◌, ap, ◌∙◌, Option, none, some, List, [], ◌∷◌, ◌++◌, arith}
use smartedge.Base.{Text, if◌then◌else◌}
use mathlib.Core.List.{append-nil}
use smartedge.Base.Bytes.{contains_text, splitlines}
use smartedge.Base.Exec.{Exec, ok, raised, return, lift, proceed, ◌>>=◌}
use smartedge.Swarm.Io.{Env, Io, Event, cli, run_cli_command}
use smartedge.Swarm.Switch.{
  Added, thrift_cli, dump_entry_command, table_add_command, table_modify_command,
  table_delete_command, find_handle, modify_entry, change_entry, new_entry, bad_match_key,
  add_entry_to_bmv2, get_entry_handle, delete_handle, delete_forwarding_entry_from_bmv2,
}

-- The handle that the dump of an entry names, where it can be read.
abbrev pub dumped : Text → Option ℕ
dumped response = elim (find_handle (splitlines response)) [ raised e ↦ none | ok h ↦ h ]

abbrev pub modification : Text → Text → Text → Text → Option ℕ → List Event
modification switch table action params none = []
modification switch table action params (some h) =
    cli switch (table_modify_command table action h params) ∷ []

abbrev pub deletion : Text → Text → Option ℕ → List Event
deletion switch table none = []
deletion switch table (some h) = cli switch (table_delete_command table h) ∷ []

new_entry-events :
    (env : Env) (switch table action key params : Text) (s : Io)
    → (new_entry env switch table action key params s).1.events
      ≡ s.events ++ cli switch (table_add_command table action key params) ∷ []
unfolding new_entry ◌>>=◌ lift run_cli_command
new_entry-events env switch table action key params s = ground arith

change_entry-events :
    (env : Env) (switch table action params response : Text) (s : Io)
    → (change_entry env switch table action params response s).1.events
      ≡ s.events ++ modification switch table action params (dumped response)
unfolding change_entry ◌>>=◌ lift run_cli_command return modify_entry
change_entry-events env switch table action params response s = ground (arith, append-nil s.events)

-- The first command and what follows it.
after_dump :
    (env : Env) (switch table key response : Text) (A : Type 0) (f : Text → Exec Io A) (s t : Io)
    → run_cli_command env (dump_entry_command table key) switch s ≡ (ok response, t)
    → (run_cli_command env (dump_entry_command table key) switch >>= f) s ≡ f response t
unfolding ◌>>=◌
after_dump env switch table key response A f s t h = ap (λ r. proceed f r.0 r.1) h

-- To add an entry is to look its key up and then to issue at most one command: table_add where the
-- switch knows no such key, and otherwise table_modify of the handle in its answer, if it has one.
pub add_entry-events :
    (env : Env) (switch table action key params response : Text) (s t : Io)
    → run_cli_command env (dump_entry_command table key) switch s ≡ (ok response, t)
    → (add_entry_to_bmv2 env thrift_cli switch table action key params s).1.events
      ≡ t.events
        ++ (if contains_text bad_match_key response
            then cli switch (table_add_command table action key params) ∷ []
            else modification switch table action params (dumped response))
unfolding add_entry_to_bmv2
add_entry-events env switch table action key params response s t h =
    ap (λ r. r.1.events) (after_dump env switch table key response Added _ s t h)
    ∙ ground (
      arith,
      new_entry-events env switch table action key params t,
      change_entry-events env switch table action params response t,
    )

-- The handle is read, and its entry deleted.
delete_dumped :
    (env : Env) (switch table response : Text) (t : Io)
    → (proceed (delete_handle env switch table) (find_handle (splitlines response)) t).1.events
      ≡ t.events ++ deletion switch table (dumped response)
unfolding delete_handle run_cli_command return ◌>>=◌
delete_dumped env switch table response t = ground (arith, append-nil t.events)

get_entry_handle-dumped :
    (env : Env) (switch table key response : Text) (s t : Io)
    → run_cli_command env (dump_entry_command table key) switch s ≡ (ok response, t)
    → get_entry_handle env switch table key s ≡ (find_handle (splitlines response), t)
unfolding get_entry_handle lift
get_entry_handle-dumped env switch table key response s t h =
    after_dump env switch table key response (Option ℕ) _ s t h

-- To delete an entry is to look its key up and then to delete the handle in the answer, if it has
-- one.
pub delete_entry-events :
    (env : Env) (switch table key response : Text) (s t : Io)
    → run_cli_command env (dump_entry_command table key) switch s ≡ (ok response, t)
    → (delete_forwarding_entry_from_bmv2 env thrift_cli switch table key s).1.events
      ≡ t.events ++ deletion switch table (dumped response)
unfolding delete_forwarding_entry_from_bmv2 ◌>>=◌
delete_entry-events env switch table key response s t h =
    ap (λ r. (proceed (delete_handle env switch table) r.0 r.1).1.events)
      (get_entry_handle-dumped env switch table key response s t h)
    ∙ delete_dumped env switch table response t
