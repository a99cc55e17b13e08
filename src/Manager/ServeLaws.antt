-- ===== src/Manager/ServeLaws.antt =====
-- manager/ipc_server.go: what holds of all that ServeConn does, when it holds of each request, and how
-- many rounds it needs.
use amneziawg_windows_client.Common.{
  none, some, arith, ◌∷◌, [], length, ◌≤◌, ℕ, List, Option, zero, ◌-◌, inr, ◌≡◌, inl, Option-cases,
  refl, suc, All, if_both, ◌++◌, ltb, take,
}
use amneziawg_windows_client.Ipc.{Value}
use amneziawg_windows_client.Manager.{Host, Manager, ManagerService}
use amneziawg_windows_client.Manager.Requests.{read_request, Request}
use amneziawg_windows_client.Manager.Server.{
  serve_loop, serve_conn, handle, Served, serve_loop, handle, encode_reply, handle, Reply,
}
use amneziawg_windows_client.Manager.StreamLaws.{read_request-Within, Within}
use amneziawg_windows_client.Router.{System}
use mathlib.Core.Path.{subst}

module _ {sys : System} (host : Host sys) (Q : Value → Type 0) where
  -- Each value of a reply.
  abbrev pub EachOf : Option Reply → Type 0
  EachOf none = Unit
  EachOf (some rep) = All Q (encode_reply host rep)

module _ {sys : System} (host : Host sys) (s : ManagerService) where
  -- Two numbers of rounds that both suffice.
  serve_loop-same :
      (j k room : ℕ) (vs : List Value) (m : Manager host)
      → length vs ≤ j
      → length vs ≤ k
      → serve_loop host j s room vs m ≡ serve_loop host k s room vs m
  unfolding serve_loop
  serve_loop-same j k room [] m h h' = refl
  serve_loop-same zero k room (v ∷ vs) m h h' = absurd (omega (arith, h))
  serve_loop-same (suc j) zero room (v ∷ vs) m h h' = absurd (omega (arith, h'))
  serve_loop-same (suc j) (suc k) room (v ∷ vs) m h h' =
      elim (Option-cases (read_request (v ∷ vs))) [
        | inl e ↦ rw (e, serve_loop) refl
        | inr ((r, rest), e) ↦
            let shorter : length rest ≤ length vs =
              subst (Within (length vs)) e (read_request-Within v vs) in
            let (reply, m') = handle host s r m in
            elim (Option-cases reply) [
              | inl waits ↦ rw (e, serve_loop) rw waits refl
              | inr (rep, done) ↦
                  let ih =
                    serve_loop-same j k (room - length (encode_reply host rep)) rest m'
                      (omega (arith, h, shorter)) (omega (arith, h', shorter)) in
                  rw (e, serve_loop) rw done rw ih refl
            ]
      ]

  -- ServeConn ends: every number of rounds from the number of the values on gives the same result, so
  -- that a stream is left only for the reasons that the loop has.
  serve_loop-serve_conn :
      (rounds room : ℕ) (vs : List Value) (m : Manager host)
      → length vs ≤ rounds
      → serve_loop host rounds s room vs m ≡ serve_conn host s room vs m
  unfolding serve_conn
  serve_loop-serve_conn rounds room vs m h =
      serve_loop-same rounds (length vs) room vs m h (omega arith)

  module _ (P : Manager host → Type 0) (Q : Value → Type 0) where
    take-All : (n : ℕ) (vs : List Value) → All Q vs → All Q (take n vs)
    take-All zero vs h = tt
    take-All (suc n) [] h = tt
    take-All (suc n) (v ∷ vs) h = (h.0, take-All n vs h.1)

    append-All : (vs ws : List Value) → All Q vs → All Q ws → All Q (vs ++ ws)
    append-All [] ws h k = k
    append-All (v ∷ vs) ws h k = (h.0, append-All vs ws h.1 k)

    abbrev Leaves : Served host → Type 0
    Leaves served = P served.manager × All Q served.written

    -- What each request keeps is kept by a connection, and what holds of the values of each reply holds
    -- of all that is written.
    serve_loop-keeps :
        ((r : Request) (m : Manager host)
          → P m
          → P (handle host s r m).1 × EachOf host Q (handle host s r m).0)
        → (rounds room : ℕ) (vs : List Value) (m : Manager host) → P m
        → Leaves (serve_loop host rounds s room vs m)
    unfolding serve_loop
    serve_loop-keeps each rounds room [] m h = (h, tt)
    serve_loop-keeps each zero room (v ∷ vs) m h = (h, tt)
    serve_loop-keeps each (suc rounds) room (v ∷ vs) m h =
        elim (Option-cases (read_request (v ∷ vs))) [
          | inl e ↦ rw (e, serve_loop) (h, tt)
          | inr ((r, rest), e) ↦
              let (kept, good) = each r m h in
              let (reply, m') = handle host s r m in
              elim (Option-cases reply) [
                | inl waits ↦ rw (e, serve_loop) rw waits (kept, tt)
                | inr (rep, done) ↦
                    let out = encode_reply host rep in
                    let good' : All Q out = subst (λ o. EachOf host Q o) done good in
                    let (kept', later) =
                      serve_loop-keeps each rounds (room - length out) rest m' kept in
                    rw (e, serve_loop) rw done
                      (if_both Leaves (ltb room (length out)) (kept, take-All room out good')
                        (kept', append-All out _ good' later))
              ]
        ]

    pub serve_conn-keeps :
        ((r : Request) (m : Manager host)
          → P m
          → P (handle host s r m).1 × EachOf host Q (handle host s r m).0)
        → (room : ℕ) (vs : List Value) (m : Manager host) → P m
        → P (serve_conn host s room vs m).manager × All Q (serve_conn host s room vs m).written
    unfolding serve_conn
    serve_conn-keeps each room vs m h = serve_loop-keeps each (length vs) room vs m h
