-- ===== src/Swarm/Discovery/Laws.antt =====
-- What a node learns from the announcements of others.
use smartedge.Base.{◌≡◌, refl, sym, ap, ◌∙◌, ◌≢◌, ◌⊎◌, Bool, true, false, Option, none, some, arith}
use smartedge.Base.{Text, codes, ◌=?◌, inl, inr, if◌then◌else◌}
use smartedge.Base.Decimal.{ℤ, pos, negsuc, int}
use smartedge.Base.Dict.{lookup, lookup-insert_self}
use smartedge.Base.Exec.{Result, ok, raised}
use smartedge.Swarm.Discovery.{
  Known, Announcement, above, compare_times, is_news, ap_time, coordinator_time, when_news,
  learn_ap, learn_coordinator, learn, listen,
}

above_irrefl : (a : ℤ) → above a a ≡ false
unfolding above
above_irrefl (pos n) = ground arith
above_irrefl (negsuc n) = ground arith

compare_times_irrefl : (t : Option ℤ) → (compare_times t t ≡ ok true) → ⊥
unfolding compare_times
compare_times_irrefl none h = cc
compare_times_irrefl (some a) h = absurd_true (sym (ok_inj (sym (ap ok (above_irrefl a)) ∙ h)))
  where
    ok_inj : {a b : Bool} → ◌≡◌ {A = Result Bool} (ok a) (ok b) → a ≡ b
    ok_inj e = cc

    absurd_true : true ≡ false → ⊥
    absurd_true e = cc

is_news_again : (t : Text) → is_news t (some t) ≡ ok true → ⊥
unfolding is_news
is_news_again t h = compare_times_irrefl (int t) h

-- The two branches of `learn`, as functions on what is known.
take_ap : (Text → Option Text) → Announcement → Known → Known
take_ap connect m k =
    (when_news (is_news m.last_update (ap_time (lookup m.uuid k.known_aps))) (learn_ap connect m)
      k).1

take_coordinator : Announcement → Known → Known
take_coordinator m k =
    (when_news (is_news m.last_update (coordinator_time (lookup m.uuid k.known_coordinators)))
      (learn_coordinator m) k).1

-- An action that is not news leaves what is known.
not_news : (r : Result Bool) (f : Known → Known) (k : Known) → r ≢ ok true → (when_news r f k).1 ≡ k
not_news (raised e) f k _ = refl
not_news (ok true) f k stale = absurd (stale refl)
not_news (ok false) f k _ = refl

news_cases : (r : Result Bool) → (r ≡ ok true) ⊎ (r ≢ ok true)
news_cases (raised e) = inr (λ h. cc)
news_cases (ok true) = inl refl
news_cases (ok false) = inr (λ h. cc)

-- What is settled once stays so.
module _ (t : Text) (time : Known → Option Text) (f : Known → Known) (k : Known) where
  abbrev take : Known → Known
  take k' = (when_news (is_news t (time k')) f k').1

  take_news : is_news t (time k) ≡ ok true → take k ≡ f k
  take_news news = ap (λ r. (when_news r f k).1) news

  take_again : (f k ≡ k) ⊎ (time (f k) ≡ some t) → take (take k) ≡ take k
  take_again once = elim (news_cases (is_news t (time k))) [
    | inr stale ↦ ap take (not_news (is_news t (time k)) f k stale)
    | inl news ↦ ap take (take_news news) ∙ (elim once [
      | inl same ↦ ap take same
      | inr now ↦
          not_news (is_news t (time (f k))) f (f k)
            (λ e. is_news_again t (sym (ap (is_news t) now) ∙ e))
          ∙ sym (take_news news)
    ])
  ]

learn_ap_once :
    (connect : Text → Option Text) (m : Announcement) (k : Known)
    → (learn_ap connect m k ≡ k)
      ⊎ (ap_time (lookup m.uuid (learn_ap connect m k).known_aps) ≡ some m.last_update)
unfolding learn_ap
learn_ap_once connect m k = go (connect m.address) refl
  where
    go :
        (c : Option Text)
        → connect m.address ≡ c
        → (learn_ap connect m k ≡ k)
          ⊎ (ap_time (lookup m.uuid (learn_ap connect m k).known_aps) ≡ some m.last_update)
    go none h = inl (ground (arith, h))
    go (some i) h = inr (rw (learn_ap, h) (ap ap_time (lookup-insert_self m.uuid _ k.known_aps)))

take_ap_again :
    (connect : Text → Option Text) (m : Announcement) (k : Known)
    → take_ap connect m (take_ap connect m k) ≡ take_ap connect m k
unfolding take_ap
take_ap_again connect m k =
    take_again m.last_update (λ k'. ap_time (lookup m.uuid k'.known_aps)) (learn_ap connect m) k
      (learn_ap_once connect m k)

take_coordinator_again :
    (m : Announcement) (k : Known)
    → take_coordinator m (take_coordinator m k) ≡ take_coordinator m k
unfolding take_coordinator learn_coordinator
take_coordinator_again m k =
    take_again m.last_update (λ k'. coordinator_time (lookup m.uuid k'.known_coordinators))
      (learn_coordinator m) k
      (inr (ap coordinator_time (lookup-insert_self m.uuid _ k.known_coordinators)))

learn-take :
    (connect : Text → Option Text) (m : Announcement) (k : Known)
    → (learn connect m k).1 ≡ (
        if m.kind =? codes "AP"
        then take_ap connect m k
        else if m.kind =? codes "CO"
        then take_coordinator m k
        else k)
unfolding learn take_ap take_coordinator
learn-take connect m k = ground arith

learn-learn :
    (connect : Text → Option Text) (m : Announcement) (k : Known)
    → (learn connect m (learn connect m k).1).1 ≡ (learn connect m k).1
learn-learn connect m k =
    rw (learn-take connect m k, learn-take connect m)
      (ground (arith, take_ap_again connect m k, take_coordinator_again m k))

-- An announcement that a node receives a second time changes nothing more: not when its time is
-- not a number, and not when the switch could not be reached, provided the switch answers the
-- same.
pub listen-listen :
    (group_id : Text) (connect : Text → Option Text) (m : Option Announcement) (k : Known)
    → listen group_id connect m (listen group_id connect m k) ≡ listen group_id connect m k
unfolding listen learn take_ap take_coordinator
listen-listen group_id connect none k = refl
listen-listen group_id connect (some m) k = ground (arith, learn-learn connect m k)
