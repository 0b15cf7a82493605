-- ===== src/AccessPoint/Keeps.antt =====
-- How the actions of an access point change its table of stations.
use smartedge.Base.{◌≡◌, refl, sym, ap, Option, none, some}
use smartedge.Base.{Text}
use mathlib.Core.Path.{subst}
use smartedge.Base.Dict.{Dict}
use smartedge.Base.Exec.{Exc, Exec, Result, ok, raised, return, require, lift, proceed, ◌>>=◌}
use smartedge.Swarm.Io.{Env, Io}
use smartedge.AccessPoint.Vxlan.{Station, Ap, outside, shell, cli}

-- Every run of the action changes the table as `R` says.
pub record Changes {A : Type 0} (R : Dict Station → Dict Station → Type 0) (m : Exec Ap A)
    : Type 0 where
  pub runs : (s : Ap) → R s.connected_stations (m s).1.connected_stations

abbrev pub Same : Dict Station → Dict Station → Type 0
Same d d' = d' ≡ d

abbrev pub Keeps : {A : Type 0} → Exec Ap A → Type 0
Keeps m = Changes Same m

module _ {A B : Type 0} {R : Dict Station → Dict Station → Type 0} {m : Exec Ap A}
    {f : A → Exec Ap B} where
  -- What follows an action that keeps the table.
  pub Changes-after :
      ((d : Dict Station) → R d d) → Keeps m → ((a : A) → Changes R (f a)) → Changes R (m >>= f)
  unfolding ◌>>=◌
  Changes-after stays k c = record { runs = λ s. go s (m s).0 (m s).1 (k.runs s) }
    where
      go :
          (s : Ap) (r : Result A) (t : Ap)
          → t.connected_stations ≡ s.connected_stations
          → R s.connected_stations (proceed f r t).1.connected_stations
      go s (ok a) t h = subst (λ d. R d (f a t).1.connected_stations) h ((c a).runs t)
      go s (raised e) t h = subst (R s.connected_stations) (sym h) (stays s.connected_stations)

  -- An action, and then one that keeps the table.
  pub Changes-before : Changes R m → ((a : A) → Keeps (f a)) → Changes R (m >>= f)
  unfolding ◌>>=◌
  Changes-before c k = record { runs = λ s. go s (m s).0 (m s).1 (c.runs s) }
    where
      go :
          (s : Ap) (r : Result A) (t : Ap)
          → R s.connected_stations t.connected_stations
          → R s.connected_stations (proceed f r t).1.connected_stations
      go s (ok a) t h = subst (R s.connected_stations) (sym ((k a).runs t)) h
      go s (raised e) t h = h

-- The step of a run.
pub bind_ok :
    {A B : Type 0} (m : Exec Ap A) (f : A → Exec Ap B) (s t : Ap) (a : A)
    → m s ≡ (ok a, t)
    → (m >>= f) s ≡ f a t
unfolding ◌>>=◌
bind_ok m f s t a h = ap (λ r. proceed f r.0 r.1) h

pub bind-Keeps :
    {A B : Type 0} {m : Exec Ap A} {f : A → Exec Ap B}
    → Keeps m
    → ((a : A) → Keeps (f a))
    → Keeps (m >>= f)
bind-Keeps k c = Changes-after (λ d. refl) k c

module _ {A : Type 0} where
  pub outside-Keeps : (m : Exec Io A) → Keeps (outside m)
  unfolding outside
  outside-Keeps m = record { runs = λ s. refl }

  pub require-Keeps : (e : Exc) (o : Option A) → Keeps (require e o)
  unfolding require
  require-Keeps e none = record { runs = λ s. refl }
  require-Keeps e (some a) = record { runs = λ s. refl }

  pub lift-Keeps : (r : Result A) → Keeps (lift r)
  unfolding lift
  lift-Keeps r = record { runs = λ s. refl }

  pub return-Keeps : (a : A) → Keeps (return {S = Ap} a)
  unfolding return
  return-Keeps a = record { runs = λ s. refl }

pub shell-Keeps : (env : Env) (c : Text) → Keeps (shell env c)
unfolding shell outside
shell-Keeps env c = record { runs = λ s. refl }

pub cli-Keeps : (env : Env) (i c : Text) → Keeps (cli env i c)
unfolding cli outside
cli-Keeps env i c = record { runs = λ s. refl }

-- The rules by which an action of several steps keeps the table.
pub ruleset keeping =
    (bind-Keeps, outside-Keeps, require-Keeps, lift-Keeps, return-Keeps, shell-Keeps, cli-Keeps)
