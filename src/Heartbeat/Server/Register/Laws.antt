-- ===== src/Heartbeat/Server/Register/Laws.antt =====
-- What a registration leaves in the cache, and that the message of `send_public_key` is understood.
use smartedge.Base.{ℕ, ◌*◌, ◌%◌, ◌≡◌, refl, true, false, some, none}
use smartedge.Base.{
  [], ◌∷◌, ◌++◌, ◌==◌, arith, Text, length, is_empty, All, All-append, inl, ==_iff,
}
use smartedge.Base.Bytes.{Bytes, bar, strip, strip-no_space, is_space, split_once, has_char}
use smartedge.Base.Dict.{lookup, lookup-insert_self}
use smartedge.Base.Utf8.{decode}
use smartedge.Base.Utf8.Encode.{IsScalar, decode-encode}
use smartedge.Base.Hex.{hex_digit, AllBytes, hexlify, from_hex-hexlify}
use smartedge.Base.Exec.{◌>>=◌, ◌>>◌}
use smartedge.Heartbeat.Client.{registration_message}
use smartedge.Heartbeat.Server.{
  set_default, Status, registered, alive, dead, Env, Server, ack, sendall, cache_key,
}
use smartedge.Heartbeat.Server.Calls.{
  IsUp, IsCached, after_key, after_hb, save_hb_state-IsUp, save_pubkey-IsUp, get_hb_state-IsCached,
  cache_hb-IsCached,
}
use smartedge.Heartbeat.Server.Register.{parse_registration, revive, store}

split_once-append :
    (c : ℕ) (a b : Text) → has_char c a ≡ false → split_once c (a ++ c ∷ b) ≡ some (a, b)
unfolding split_once has_char
split_once-append c [] b h = ground arith
split_once-append c (x ∷ a) b h = ground (arith, split_once-append c a b)

hexlify-no_space : (bs : Bytes) → AllBytes bs → All (λ c. is_space c ≡ false) (hexlify bs)
unfolding hexlify is_space
hexlify-no_space [] h = tt
hexlify-no_space (b ∷ bs) (small, h) = (ground arith, (ground arith, hexlify-no_space bs h))

length-hexlify : (bs : Bytes) → length (hexlify bs) ≡ 2 * length bs
unfolding hexlify
length-hexlify [] = refl
length-hexlify (b ∷ bs) = omega (arith, length-hexlify bs)

even_hexlify : (bs : Bytes) → (length (hexlify bs) % 2 == 0) ≡ true
even_hexlify bs = (==_iff (length (hexlify bs) % 2) 0).1 (omega (arith, length-hexlify bs))

strip-hexlify : (bs : Bytes) → AllBytes bs → strip (hexlify bs) ≡ hexlify bs
strip-hexlify bs h = strip-no_space (hexlify bs) (hexlify-no_space bs h)

-- The text of the message is read back.
parse-registration_text :
    (client_id : Text) (key : Bytes)
    → has_char bar client_id ≡ false
    → is_empty client_id ≡ false
    → strip client_id ≡ client_id
    → AllBytes key
    → parse_registration (client_id ++ bar ∷ hexlify key) ≡ some (client_id, key)
unfolding parse_registration
parse-registration_text c key no_bar named bare bytes = ground (
  arith,
  split_once-append bar c (hexlify key) no_bar,
  bare,
  strip-hexlify key bytes,
  even_hexlify key,
  from_hex-hexlify key bytes,
)

hexlify-IsScalar : (bs : Bytes) → AllBytes bs → All IsScalar (hexlify bs)
unfolding hexlify hex_digit
hexlify-IsScalar [] h = tt
hexlify-IsScalar (b ∷ bs) (small, h) =
    (inl (ground arith), (inl (ground arith), hexlify-IsScalar bs h))

-- The bytes that a client sends to register are decoded by the server and read back as the
-- client's identifier and its key, for an identifier without surrogates that is not empty, has no
-- '|' and no space at its ends, and a key of bytes.
pub decode-registration_message :
    (client_id : Text) (key : Bytes)
    → All IsScalar client_id
    → has_char bar client_id ≡ false
    → is_empty client_id ≡ false
    → strip client_id ≡ client_id
    → AllBytes key
    → (msg : Text) × (decode (registration_message client_id key) ≡ some msg)
      × (parse_registration msg ≡ some (client_id, key))
unfolding registration_message
decode-registration_message c key scalar no_bar named bare bytes = (
  c ++ bar ∷ hexlify key,
  decode-encode (c ++ bar ∷ hexlify key) (
      All-append IsScalar c (bar ∷ hexlify key) scalar
        (inl (omega arith), hexlify-IsScalar key bytes)),
  parse-registration_text c key no_bar named bare bytes,
)

-- The index from which the node goes on.
abbrev pub resumed : Status → ℕ → ℕ
resumed dead last = 0
resumed registered last = last
resumed alive last = last

abbrev pub revived : Status → Status
revived dead = registered
revived registered = registered
revived alive = alive

module _ (node : Text) (b : ℕ) (key : Bytes) (s : Server) where
  after_key-new :
      lookup node s.state ≡ none → IsCached node b key 0 registered (after_key node (b ∷ key) s)
  unfolding cache_key
  after_key-new absent = record {
    last_ts = some 0;
    entry = rw absent (lookup-insert_self node _ s.state);
  }

  after_key-IsCached :
      (b' : ℕ) (old : Bytes) (last : ℕ) (st : Status)
      → IsCached node b' old last st s
      → IsCached node b key last st (after_key node (b ∷ key) s)
  unfolding cache_key
  after_key-IsCached b' old last st c = record {
    last_ts = set_default c.last_ts 0;
    entry = rw (c.entry) (lookup-insert_self node _ s.state);
  }

-- The answer to the client does not touch the cache.
state-sendall : (env : Env) (s : Server) → (sendall env ack s).1.state ≡ s.state
unfolding sendall
state-sendall env s = ground arith

IsCached-sendall :
    (env : Env) (node : Text) (b : ℕ) (key : Bytes) (last : ℕ) (st : Status) (s : Server)
    → IsCached node b key last st s
    → IsCached node b key last st (sendall env ack s).1
IsCached-sendall env node b key last st s c = record {
  last_ts = c.last_ts;
  entry = rw (state-sendall env s) (c.entry);
}

module _ (env : Env) (up : IsUp env) (node : Text) (b : ℕ) (key : Bytes) where
  answer_revived :
      (last : ℕ) (st : Status) (t : Server)
      → IsCached node b key last st t
      → IsCached node b key
          (resumed st last)
          (revived st)
          ((revive env node st >> sendall env ack) t).1
  unfolding revive ◌>>=◌
  answer_revived last dead t c = rw (save_hb_state-IsUp env up node 0 registered t) (
      IsCached-sendall env node b key 0 registered (after_hb env node 0 registered t)
        (cache_hb-IsCached node b key last dead t c env 0 registered))
  answer_revived last registered t c = IsCached-sendall env node b key last registered t c
  answer_revived last alive t c = IsCached-sendall env node b key last alive t c

  store-after_key :
      (last : ℕ) (st : Status) (s : Server)
      → IsCached node b key last st (after_key node (b ∷ key) s)
      → IsCached node b key (resumed st last) (revived st) (store env node (b ∷ key) s).1
  unfolding store ◌>>=◌
  store-after_key last st s c = rw (save_pubkey-IsUp env up node (b ∷ key) s) (
      rw (get_hb_state-IsCached node b key last st (after_key node (b ∷ key) s) c env)
        (answer_revived last st (after_key node (b ∷ key) s) c))

  -- With the database up, a node that the cache does not have is registered with index 0.
  pub store-new :
      (s : Server)
      → lookup node s.state ≡ none
      → IsCached node b key 0 registered (store env node (b ∷ key) s).1
  store-new s absent = store-after_key 0 registered s (after_key-new node b key s absent)

  -- With the database up, a node that was dead starts again from index 0 when it registers; any
  -- other takes the new key and keeps its index.
  pub store-IsCached :
      (b' : ℕ) (old : Bytes) (last : ℕ) (st : Status) (s : Server)
      → IsCached node b' old last st s
      → IsCached node b key (resumed st last) (revived st) (store env node (b ∷ key) s).1
  store-IsCached b' old last st s c =
      store-after_key last st s (after_key-IsCached node b key s b' old last st c)
