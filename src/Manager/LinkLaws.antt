-- ===== src/Manager/LinkLaws.antt =====
-- manager/ipc_client.go and ipc_server.go: a window's calls bring what the methods return.
use amneziawg_windows_client.Common.{
  some, ℕ, ◌≤◌, ◌≡◌, ◌∷◌, ◌++◌, length, true, ltb, List, [], false, arith, refl, ap, none, Option,
  ◌∙◌,
}
use amneziawg_windows_client.Common.Text.{Text}
use amneziawg_windows_client.Ipc.{Value, decoded_error, text_value}
use amneziawg_windows_client.Ipc.Client.{
  ask_error, decode_into, Transport, ask_both, rpc_decode_error, ask, both_behind, status_behind,
  value_behind,
}
use amneziawg_windows_client.Manager.{Host, ManagerService, Manager, Failure}
use amneziawg_windows_client.Manager.Link.{Link, pipes}
use amneziawg_windows_client.Manager.Requests.{Request, read_request}
use amneziawg_windows_client.Manager.Server.{
  serve_loop, serve_conn, nothing, only_value, only_error, both, encode_reply, handle, Reply,
  err_to_string,
}
use amneziawg_windows_client.Router.{System}

-- No reply has more than two values.
length-encode_reply :
    {sys : System} (host : Host sys) (rep : Reply) → length (encode_reply host rep) ≤ 2
unfolding encode_reply
length-encode_reply host nothing = omega arith
length-encode_reply host (only_value v) = omega arith
length-encode_reply host (only_error err) = omega arith
length-encode_reply host (both v err) = omega arith

encode_reply_nil :
    {sys : System} (host : Host sys) (rep : Reply)
    → encode_reply host rep ++ [] ≡ encode_reply host rep
unfolding encode_reply
encode_reply_nil host nothing = refl
encode_reply_nil host (only_value v) = refl
encode_reply_nil host (only_error err) = refl
encode_reply_nil host (both v err) = refl

module _ {sys : System} (host : Host sys) (s : ManagerService) (room : ℕ) (broken : Text) where
  abbrev pub link : Manager host → Link host
  link m = record { manager = m; incoming = []; is_open = true }

  -- One request that is read and answered.
  serve-one :
      (v : Value) (vs : List Value) (r : Request) (rep : Reply) (m m' : Manager host)
      → 2 ≤ room
      → read_request (v ∷ vs) ≡ some (r, [])
      → handle host s r m ≡ (some rep, m')
      → serve_conn host s room (v ∷ vs) m
        ≡ record { manager = m'; written = encode_reply host rep; has_ended = false }
  unfolding serve_conn serve_loop
  serve-one v vs r rep m m' enough parsed handled =
      let fits : ltb room (length (encode_reply host rep)) ≡ false =
        ground (arith, length-encode_reply host rep, enough) in
      let left : (handle host s r m).1 ≡ m' = ap (λ x. x.1) handled in
      rw (parsed, serve_conn, serve_loop) rw handled rw fits rw (encode_reply_nil host rep) rw left
        refl

  abbrev pub rpc : Transport (Link host)
  rpc = pipes host s room broken

  -- The pipes behind the values of one function.
  pub encode-one :
      (v : Value) (vs : List Value) (r : Request) (rep : Reply) (m m' : Manager host)
      → 2 ≤ room
      → read_request (v ∷ vs) ≡ some (r, [])
      → handle host s r m ≡ (some rep, m')
      → rpc.encode (v ∷ vs) (link m)
        ≡ (none, record { manager = m'; incoming = encode_reply host rep; is_open = true })
  unfolding pipes
  encode-one v vs r rep m m' enough parsed handled =
      rw (serve-one v vs r rep m m' enough parsed handled) refl

  decode-link :
      {A : Type 0} (read : Value → Option A) (zero_value a : A) (x : Value) (rest : List Value)
      (m : Manager host)
      → read x ≡ some a
      → decode_into rpc read zero_value
          (record { manager = m; incoming = x ∷ rest; is_open = true })
        ≡ ((a, none), record { manager = m; incoming = rest; is_open = true })
  unfolding decode_into pipes
  decode-link read zero_value a x rest m fits = rw fits refl

  module _ (v : Value) (vs : List Value) (r : Request) (m m' : Manager host) (enough : 2 ≤ room)
      (parsed : read_request (v ∷ vs) ≡ some (r, [])) where
    ask_behind :
        {A : Type 0} (read : Value → Option A) (zero_value : A) (rep : Reply)
        → handle host s r m ≡ (some rep, m')
        → ask rpc read zero_value (v ∷ vs) (link m)
          ≡ decode_into rpc read zero_value
              (record { manager = m'; incoming = encode_reply host rep; is_open = true })
    unfolding ask
    ask_behind read zero_value rep handled =
        ap (value_behind rpc read zero_value) (encode-one v vs r rep m m' enough parsed handled)

    -- The three shapes of a function that decodes.
    pub ask-link :
        {A : Type 0} (read : Value → Option A) (zero_value a : A) (x : Value)
        → read x ≡ some a
        → handle host s r m ≡ (some (only_value x), m')
        → ask rpc read zero_value (v ∷ vs) (link m) ≡ ((a, none), link m')
    unfolding decode_into encode_reply pipes
    ask-link read zero_value a x fits handled =
        ask_behind read zero_value (only_value x) handled
        ∙ decode-link read zero_value a x [] m' fits

    pub ask_both-link :
        {A : Type 0} (read : Value → Option A) (zero_value a : A) (x : Value) (err : Option Failure)
        → read x ≡ some a
        → handle host s r m ≡ (some (both x err), m')
        → ask_both rpc read zero_value (v ∷ vs) (link m)
          ≡ ((a, decoded_error (err_to_string host err)), link m')
    unfolding ask_both decode_into rpc_decode_error encode_reply pipes
    ask_both-link read zero_value a x err fits handled = ap (both_behind rpc) (
        ask_behind read zero_value (both x err) handled
        ∙ decode-link read zero_value a x (text_value (err_to_string host err) ∷ []) m' fits)

    pub ask_error-link :
        (err : Option Failure)
        → handle host s r m ≡ (some (only_error err), m')
        → ask_error rpc (v ∷ vs) (link m) ≡ (decoded_error (err_to_string host err), link m')
    unfolding ask_error decode_into rpc_decode_error encode_reply pipes
    ask_error-link err handled =
        ap (status_behind rpc) (encode-one v vs r (only_error err) m m' enough parsed handled)
