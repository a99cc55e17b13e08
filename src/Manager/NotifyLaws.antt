-- ===== src/Manager/NotifyLaws.antt =====
-- manager/ipc_server.go and ipc_client.go: the windows hear what the goroutines of notifyAll write.
use amneziawg_windows_client.Common.{
  List, Option, refl, some, All, is_nil, [], ◌≤◌, if◌then◌else◌, ◌≡◌, ◌∷◌, length, ◌++◌, Bool,
  false, arith, zero, suc, ◌∙◌, ap, none, ℕ, sym, true, take,
}
use amneziawg_windows_client.Ipc.{notification_types, notification_number, decoded_error, Value}
use amneziawg_windows_client.Ipc.Events.{
  tunnels_changed, next_notification, tunnel_changed, update_found, read_events, heard,
  Notification, update_progressed, read_notification, manager_stopping, told_change,
  initialize_ipc_client,
}
use amneziawg_windows_client.Manager.{ManagerService}
use amneziawg_windows_client.Manager.Notify.{notification_values, error_string, write_event}
use mathlib.Core.List.{append_assoc, append-nil}

abbrev concat : List (List Value) → List Value
concat [] = []
concat (vs ∷ rest) = vs ++ concat rest

-- A change of a tunnel names it.
abbrev pub IsNamed : Notification → Type 0
IsNamed (tunnel_changed name state global_state err) = is_nil name ≡ false
IsNamed _ = Unit

-- What a window makes of a notification: an empty text of an error is no error, and a tunnel's unknown
-- state is passed over.
abbrev pub heard_as : Notification → Option Notification
heard_as (tunnel_changed name state global_state err) =
    told_change name state global_state (decoded_error (error_string err))
heard_as (update_progressed dp) =
    some (update_progressed (record dp { error = decoded_error (error_string dp.error) }))
heard_as n = some n

next_notification-values :
    (n : Notification) (rest : List Value)
    → IsNamed n
    → next_notification (notification_values n ++ rest) ≡ some (heard_as n, rest)
unfolding next_notification notification_values read_notification notification_types
    notification_number
next_notification-values (tunnel_changed name state global_state err) rest h = rw h refl
next_notification-values tunnels_changed rest h = refl
next_notification-values manager_stopping rest h = refl
next_notification-values (update_found state) rest h = refl
next_notification-values (update_progressed dp) rest h = refl

-- The notifications that a window hears of those that were written to it, with whether the write came
-- through.
abbrev pub heard_of : List (Notification × Bool) → List Notification
heard_of [] = []
heard_of ((n, came) ∷ ns) = if came then heard (heard_as n) (heard_of ns) else heard_of ns

-- The stream of the writes that came through.
abbrev sent : List (Notification × Bool) → List Value
sent [] = []
sent ((n, came) ∷ ns) = if came then notification_values n ++ sent ns else sent ns

length-values :
    (n : Notification) (vs : List Value) → suc (length vs) ≤ length (notification_values n ++ vs)
unfolding notification_values
length-values (tunnel_changed name state global_state err) vs = omega arith
length-values tunnels_changed vs = omega arith
length-values manager_stopping vs = omega arith
length-values (update_found state) vs = omega arith
length-values (update_progressed dp) vs = omega arith

read_events-first :
    (n : Notification) (vs : List Value) (rounds : ℕ)
    → IsNamed n
    → read_events (suc rounds) (notification_values n ++ vs)
      ≡ heard (heard_as n) (read_events rounds vs)
unfolding read_events
read_events-first n vs rounds h = rw (next_notification-values n vs h, read_events) refl

read_events-then :
    (n : Notification) (vs : List Value) (later : List Notification) (rounds : ℕ)
    → IsNamed n
    → ((k : ℕ) → length vs ≤ k → read_events k vs ≡ later)
    → length (notification_values n ++ vs) ≤ rounds
    → read_events rounds (notification_values n ++ vs) ≡ heard (heard_as n) later
read_events-then n vs later zero h ih enough = absurd (omega (arith, enough, length-values n vs))
read_events-then n vs later (suc k) h ih enough =
    read_events-first n vs k h
    ∙ ap (heard (heard_as n)) (ih k (omega (arith, enough, length-values n vs)))

read_events-sent :
    (ns : List (Notification × Bool)) (rounds : ℕ)
    → All (λ x. IsNamed x.0) ns
    → length (sent ns) ≤ rounds
    → read_events rounds (sent ns) ≡ heard_of ns
unfolding read_events
read_events-sent [] zero h enough = refl
read_events-sent [] (suc rounds) h enough = refl
read_events-sent ((n, true) ∷ ns) rounds h enough =
    read_events-then n (sent ns) (heard_of ns) rounds h.0 (λ k. read_events-sent ns k h.1) enough
read_events-sent ((n, false) ∷ ns) rounds h enough = read_events-sent ns rounds h.1 enough

-- How much of a write comes through: everything or nothing.
abbrev pub written_of : Bool → List Value → ℕ
written_of came vs = if came then length vs else 0

-- One service, on which the goroutines of notifyAll run one after another.
abbrev pub follow : List (Notification × Bool) → ManagerService → ManagerService
follow [] s = s
follow ((n, came) ∷ ns) s =
    let vs = notification_values n in follow ns (write_event (written_of came vs) vs s)

-- The stream that was written to a window's events.
abbrev pub stream_of : Option (List (List Value)) → List Value
stream_of none = []
stream_of (some writes) = concat writes

concat-append : (xs ys : List (List Value)) → concat (xs ++ ys) ≡ concat xs ++ concat ys
concat-append [] ys = refl
concat-append (x ∷ xs) ys = rw (concat-append xs ys) (sym (append_assoc x (concat xs) (concat ys)))

take-length : (vs : List Value) → take (length vs) vs ≡ vs
take-length [] = refl
take-length (v ∷ vs) = ap (◌∷◌ v) (take-length vs)

concat_written :
    (came : Bool) (n : Notification) (ns : List (Notification × Bool))
    → (let vs = notification_values n in
        concat (take (written_of came vs) vs ∷ []) ++ sent ns ≡ sent ((n, came) ∷ ns))
concat_written true n ns =
    rw (take-length (notification_values n))
      (ap (λ vs. vs ++ sent ns) (append-nil (notification_values n)))
concat_written false n ns = refl

follow-stream :
    (ns : List (Notification × Bool)) (s : ManagerService) (writes : List (List Value))
    → s.events ≡ some writes
    → stream_of (follow ns s).events ≡ concat writes ++ sent ns
unfolding write_event
follow-stream [] s writes e = ap stream_of e ∙ sym (append-nil (concat writes))
follow-stream ((n, came) ∷ ns) s writes e =
    let vs = notification_values n in
    let part : List (List Value) = take (written_of came vs) vs ∷ [] in
    let s' : ManagerService = record s { events = some (writes ++ part) } in
    let next : write_event (written_of came vs) vs s ≡ s' = rw (e, write_event) refl in
    ap (λ x. stream_of (follow ns x).events) next
    ∙ follow-stream ns s' (writes ++ part) refl
    ∙ ap (λ x. x ++ sent ns) (concat-append writes part)
    ∙ append_assoc (concat writes) (concat part) (sent ns)
    ∙ ap (λ x. concat writes ++ x) (concat_written came n ns)

-- A window that has begun to listen, and on whose events the goroutines of notifyAll run in any order,
-- each writing everything or nothing, hears exactly the notifications that came through, in the order
-- in which they were written: the decoding of InitializeIPCClient undoes the encoding of notifyAll. An
-- empty text of an error is heard as no error, and an unknown state of a tunnel is passed over. Tunnels
-- have a name.
pub initialize_ipc_client-follow :
    (ns : List (Notification × Bool)) (s : ManagerService)
    → All (λ x. IsNamed x.0) ns
    → s.events ≡ some []
    → initialize_ipc_client (stream_of (follow ns s).events) ≡ heard_of ns
unfolding initialize_ipc_client
initialize_ipc_client-follow ns s named began =
    ap initialize_ipc_client (follow-stream ns s [] began)
    ∙ read_events-sent ns (length (sent ns)) named (omega arith)
