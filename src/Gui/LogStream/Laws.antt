-- ===== src/Gui/LogStream/Laws.antt =====
-- The history of a node is the end of the log, as far as it is about that node.
use smartedge.Base.{
  ℕ, zero, suc, ◌+◌, ◌-◌, ◌≤◌, ◌≡◌, refl, sym, ap, ◌∙◌, Bool, true, false, none, some, List, [],
  ◌∷◌, ◌++◌, arith, inl, inr,
}
use smartedge.Base.{
  Text, ◌=?◌, =?_iff, =?_refl, is_empty, length, length-append, leb, map, drop, or_default,
  if◌then◌else◌, Option-cases, Bool-cases,
}
use native.Mathlib.Numerals.{unary_clauses}
use mathlib.Core.List.{append_assoc, append-nil}
use smartedge.Base.Bytes.{strip}
use smartedge.Base.Dict.{lookup, lookup-insert}
use smartedge.Gui.LogStream.{
  history_limit, Streams, append_bounded, find_uuid, dispatch_to_subscribers, remember, Line,
  tail_line, tail_heartbeat_log, subscribe, replay, websocket_endpoint,
}

-- The last `n` of a list.
unfoldable pub latest {ℓ} : {A : Type ℓ} → ℕ → List A → List A
latest n xs = drop (length xs - n) xs

abbrev of : Text → Streams → List Text
of u s = or_default (lookup u s.history_by_uuid) []

nothing_below : (k : ℕ) → suc k ≤ 0 → ⊥
nothing_below k h = omega (arith, h)

module _ {ℓ} {A : Type ℓ} where
  drop-append :
      (k : ℕ) (xs : List A) (x : A) → k ≤ length xs → drop k (xs ++ x ∷ []) ≡ drop k xs ++ x ∷ []
  drop-append zero xs x h = refl
  drop-append (suc k) [] x h = elim (nothing_below k h) [ ]
  drop-append (suc k) (y ∷ xs) x h = drop-append k xs x (omega (arith, h))

  drop-drop : (j k : ℕ) (xs : List A) → drop j (drop k xs) ≡ drop (k + j) xs
  drop-drop j zero xs = ap (λ i. drop i xs) (omega arith)
  drop-drop zero (suc k) [] = simp unary_clauses refl
  drop-drop (suc j) (suc k) [] = simp unary_clauses refl
  drop-drop j (suc k) (x ∷ xs) =
      let same : suc (k + j) ≡ suc k + j = omega arith in
      drop-drop j k xs ∙ ap (λ i. drop i (x ∷ xs)) same

  length-drop : (k : ℕ) (xs : List A) → length (drop k xs) ≡ length xs - k
  length-drop zero xs = omega arith
  length-drop (suc k) [] = omega arith
  length-drop (suc k) (x ∷ xs) = omega (arith, length-drop k xs)

  pub append_bounded-latest :
      (n : ℕ) (xs : List A) (x : A) → append_bounded n (latest n xs) x ≡ latest n (xs ++ x ∷ [])
  unfolding append_bounded latest
  append_bounded-latest n xs x =
      let k = length xs - n in
      ap (λ ys. drop (length ys - n) ys) (sym (drop-append k xs x (omega arith)))
      ∙ (drop-drop (length (drop k (xs ++ x ∷ [])) - n) k (xs ++ x ∷ [])
          ∙ ap (λ j. drop j (xs ++ x ∷ []))
              (omega (arith, length-drop k (xs ++ x ∷ []), length-append xs (x ∷ []))))

module _ (is_decimal : ℕ → Bool) (u : Text) where
  -- The lines about the node, stripped, in order.
  unfoldable pub about : List Line → List Text
  about [] = []
  about (l ∷ ls) =
      let rest = about ls in
      elim (find_uuid is_decimal (strip l.text)) [
        | none ↦ rest
        | some node_uuid ↦ if node_uuid =? u then strip l.text ∷ rest else rest
      ]

  of-dispatch :
      (sends : ℕ → Bool) (v line : Text) (s : Streams)
      → of u (dispatch_to_subscribers sends v line s) ≡ of u s
  unfolding dispatch_to_subscribers
  of-dispatch sends v line s = ground arith

  of-remember :
      (v msg : Text) (s : Streams)
      → of u (remember v msg s)
        ≡ (if u =? v then append_bounded history_limit (of u s) msg else of u s)
  unfolding remember
  of-remember v msg s = ground (
    arith,
    lookup-insert u v
        (append_bounded history_limit (or_default (lookup v s.history_by_uuid) []) msg)
        s.history_by_uuid,
    =?_iff u v,
  )

  find_uuid-nonempty : (m v : Text) → find_uuid is_decimal m ≡ some v → is_empty m ≡ false
  unfolding find_uuid
  find_uuid-nonempty [] v h = ground (arith, h)
  find_uuid-nonempty (c ∷ m) v h = refl

  of-found :
      (sends : ℕ → Bool) (v msg : Text) (s : Streams) (xs : List Text)
      → of u s ≡ latest history_limit xs
      → of u (dispatch_to_subscribers sends v msg (remember v msg s))
        ≡ latest history_limit (xs ++ (if v =? u then msg ∷ [] else []))
  of-found sends v msg s xs h =
      of-dispatch sends v msg (remember v msg s)
      ∙ (of-remember v msg s ∙ elim (Bool-cases (v =? u)) [
        | inl same ↦
            rw (same, (=?_iff v u).0 same, =?_refl u, h)
              (append_bounded-latest history_limit xs msg)
        | inr other ↦
            let apart : (u =? v) ≡ false = ground (arith, other, =?_iff u v, =?_iff v u) in
            rw (other, apart, append-nil xs) h
      ])

  about-found :
      (l : Line) (v : Text)
      → find_uuid is_decimal (strip l.text) ≡ some v
      → (if v =? u then strip l.text ∷ [] else []) ≡ about (l ∷ [])
  unfolding about
  about-found l v found = ground (arith, found)

  tail_line-found :
      (l : Line) (v : Text) (s : Streams)
      → find_uuid is_decimal (strip l.text) ≡ some v
      → tail_line is_decimal l s
        ≡ dispatch_to_subscribers l.sends v (strip l.text) (remember v (strip l.text) s)
  unfolding tail_line
  tail_line-found l v s found = rw (found, find_uuid-nonempty (strip l.text) v found) refl

  of-tail_line :
      (l : Line) (s : Streams) (xs : List Text)
      → of u s ≡ latest history_limit xs
      → of u (tail_line is_decimal l s) ≡ latest history_limit (xs ++ about (l ∷ []))
  unfolding tail_line about
  of-tail_line l s xs h = elim (Option-cases (find_uuid is_decimal (strip l.text))) [
    | inl none_found ↦ ground (arith, none_found, h, append-nil xs)
    | inr (v, found) ↦
        ap (of u) (tail_line-found l v s found)
        ∙ (of-found l.sends v (strip l.text) s xs h
            ∙ ap (λ ys. latest history_limit (xs ++ ys)) (about-found l v found))
  ]

  about-cons : (l : Line) (ls : List Line) → about (l ∷ ls) ≡ about (l ∷ []) ++ about ls
  unfolding about
  about-cons l ls = ground arith

  tail-history :
      (ls : List Line) (s : Streams) (xs : List Text)
      → of u s ≡ latest history_limit xs
      → of u (tail_heartbeat_log is_decimal ls s) ≡ latest history_limit (xs ++ about ls)
  unfolding tail_heartbeat_log about
  tail-history [] s xs h = h ∙ ap (latest history_limit) (sym (append-nil xs))
  tail-history (l ∷ ls) s xs h =
      tail-history ls (tail_line is_decimal l s) (xs ++ about (l ∷ [])) (of-tail_line l s xs h)
      ∙ ap (latest history_limit) (
          append_assoc xs (about (l ∷ [])) (about ls) ∙ ap (λ ys. xs ++ ys) (sym (about-cons l ls)))

replay-all :
    (ws room : ℕ) (lines : List Text)
    → length lines ≤ room
    → replay ws room lines ≡ map (λ line. (ws, line)) lines
unfolding replay
replay-all ws room [] h = refl
replay-all ws zero (line ∷ lines) h = elim (nothing_below (length lines) h) [ ]
replay-all ws (suc room) (line ∷ lines) h = rw (replay-all ws room lines (omega (arith, h))) refl

length-latest : {A : Type 0} (n : ℕ) (xs : List A) → length (latest n xs) ≤ n
unfolding latest
length-latest n xs = omega (arith, length-drop (length xs - n) xs)

sent-endpoint :
    (u : Text) (ws room : ℕ) (s : Streams)
    → length (of u s) ≤ room
    → (websocket_endpoint u ws room s).sent ≡ s.sent ++ map (λ line. (ws, line)) (of u s)
unfolding websocket_endpoint subscribe
sent-endpoint u ws room s h =
    let fits : leb (length (of u s)) room ≡ true = ground (arith, h) in
    rw (fits, replay-all ws room (of u s) h) refl

-- A socket that takes at least 150 lines and connects for a node without a history before the log
-- was read is sent exactly the last 150 lines of the log about that node.
pub endpoint-latest :
    (is_decimal : ℕ → Bool) (u : Text) (ls : List Line) (ws room : ℕ) (s : Streams)
    → lookup u s.history_by_uuid ≡ none
    → history_limit ≤ room
    → (websocket_endpoint u ws room (tail_heartbeat_log is_decimal ls s)).sent
      ≡ (tail_heartbeat_log is_decimal ls s).sent
        ++ map (λ line. (ws, line)) (latest history_limit (about is_decimal u ls))
unfolding latest
endpoint-latest is_decimal u ls ws room s absent h =
    let all = tail-history is_decimal u ls s [] (rw absent refl) in
    let short : length (of u (tail_heartbeat_log is_decimal ls s)) ≤ room =
      omega (arith, h, ap length all, length-latest history_limit (about is_decimal u ls)) in
    sent-endpoint u ws room (tail_heartbeat_log is_decimal ls s) short
    ∙ ap (λ ys. (tail_heartbeat_log is_decimal ls s).sent ++ map (λ line. (ws, line)) ys) all
