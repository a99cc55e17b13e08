-- ===== src/Manager/Sessions.antt =====
-- manager/service.go: which sessions of Windows have a window, and with which rights.
use amneziawg_windows_client.Common.{
  true, ◌++◌, ◌==◌, Bool, Option, [], ◌∷◌, false, not, List, any, if◌then◌else◌, none, ◌&&◌, ℕ,
  some,
}

-- What Windows says of a session's user: TokenIsElevatedOrElevatable; LimitedOperatorUI with the group;
-- IsMember of the linked or the own token, where that can be asked; GetTokenUser and LookupAccount with
-- a user's type of account; IsElevated; GetLinkedToken with whether that token is elevated.
pub record Account : Type 0 where
  pub is_admin : Bool
  pub has_limited_ui : Bool
  pub is_member : Option Bool
  pub is_known : Bool
  pub is_user : Bool
  pub is_elevated : Bool
  pub linked : Option Bool

-- The token that a window runs with.
pub data Rights : Type 0 where
  elevated plain : Rights

-- isOperator
unfoldable pub is_operator : Account → Bool
is_operator a =
    if not a.is_admin && a.has_limited_ui
    then (elim a.is_member [ none ↦ false | some member ↦ member ])
    else false

-- startProcess up to its loop: none where it returns. The token of WTSQueryUserToken is there.
unfoldable pub window_rights : Account → Option Rights
unfolding is_operator
window_rights a =
    if not a.is_admin && not (is_operator a)
    then none
    else if not a.is_known
    then none
    else if not a.is_user
    then none
    else if not a.is_admin
    then some plain
    else if a.is_elevated
    then some elevated
    else elim a.linked [
      | none ↦ none
      | some is_elevated ↦ if is_elevated then some elevated else none
    ]

-- aliveSessions; the sessions whose process runs and is not yet in procs; procs; the sessions for which
-- startProcess was started, and those whose process was killed, the newest first.
pub record Sessions : Type 0 where
  pub alive : List ℕ
  pub launched : List ℕ
  pub procs : List ℕ
  pub started : List ℕ
  pub killed : List ℕ

abbrev pub has_session : ℕ → List ℕ → Bool
has_session id ids = any (λ x. x == id) ids

unfoldable pub without_session : ℕ → List ℕ → List ℕ
without_session id [] = []
without_session id (x ∷ xs) = let rest = without_session id xs in if x == id then rest else x ∷ rest

-- A session that is there.
unfoldable pub session_begins : ℕ → Sessions → Sessions
session_begins id s =
    if has_session id s.alive
    then s
    else if has_session id s.procs
    then record s { alive = id ∷ s.alive }
    else record s { alive = id ∷ s.alive; started = id ∷ s.started }

-- WTS_SESSION_LOGOFF
unfoldable pub session_ends : ℕ → Sessions → Sessions
unfolding without_session
session_ends id s = record s {
  alive = without_session id s.alive;
  killed = if has_session id s.procs then id ∷ s.killed else s.killed;
}

-- The sessions of WTSEnumerateSessions with whether their state is WTSActive or WTSDisconnected.
unfoldable pub enumerate_sessions : List (ℕ × Bool) → Sessions → Sessions
unfolding session_begins
enumerate_sessions [] s = s
enumerate_sessions ((id, is_there) ∷ rest) s =
    enumerate_sessions rest (if is_there then session_begins id s else s)

-- The begin of a round of the loop of startProcess: false where it returns.
unfoldable pub window_begins : ℕ → Bool → Sessions → Bool
window_begins id is_stopping s = not is_stopping && has_session id s.alive

-- The section that launches the window: none where startProcess returns. `is_launched` tells whether the
-- pipes, the handle of the log and launchUIProcess had no error.
unfoldable pub window_launched : ℕ → Bool → Sessions → Option Sessions
window_launched id is_launched s =
    if not (has_session id s.alive)
    then none
    else if not is_launched
    then none
    else some (record s { launched = id ∷ s.launched })

-- The section behind it, which enters the process into procs. Other sections may come between the two.
unfoldable pub window_entered : ℕ → Sessions → Sessions
unfolding without_session
window_entered id s = record s {
  launched = without_session id s.launched;
  procs = id ∷ without_session id s.procs;
}

-- The end of the window, with its exit code where that is known: is there another round?
-- STATUS_DLL_INIT_FAILED_LOGOFF is 3221226091.
unfoldable pub window_ends : ℕ → Option ℕ → Sessions → Sessions × Bool
unfolding without_session
window_ends id exit_code s = (
  record s { procs = without_session id s.procs },
  elim exit_code [ none ↦ true | some code ↦ not (code == 3221226091) ],
)

-- The deferred function of startProcess.
unfoldable pub process_returns : ℕ → Sessions → Sessions
unfolding without_session
process_returns id s = record s { alive = without_session id s.alive }

-- What happens to the sessions. The loop of Execute receives from quitManagersChan, or a request of the
-- service control manager: a notification of another size than its structure is passed over, and so
-- are the requests that change no session. In between, startProcess of a session opens a window, enters
-- its process into procs, sees it end, with its exit code, or returns.
pub data SessionEvent : Type 0 where
  quit_asked stop_asked passed_over : SessionEvent
  logged_on logged_off : (size_fits : Bool) → ℕ → SessionEvent
  window_opened window_known : ℕ → SessionEvent
  window_closed : ℕ → Option ℕ → SessionEvent
  process_returned : ℕ → SessionEvent

abbrev pub or_as_before : Sessions → Option Sessions → Sessions
or_as_before s none = s
or_as_before s (some s') = s'

-- One of them: the sessions, and whether the manager is uninstalled where the loop ends.
unfoldable pub on_event : SessionEvent → Sessions → Sessions × Option Bool
unfolding session_begins session_ends window_launched window_entered window_ends process_returns
on_event quit_asked s = (s, some true)
on_event stop_asked s = (s, some false)
on_event passed_over s = (s, none)
on_event (logged_on size_fits id) s = (if size_fits then session_begins id s else s, none)
on_event (logged_off size_fits id) s = (if size_fits then session_ends id s else s, none)
on_event (window_opened id) s = (or_as_before s (window_launched id true s), none)
on_event (window_known id) s = (if has_session id s.launched then window_entered id s else s, none)
on_event (window_closed id exit_code) s = ((window_ends id exit_code s).0, none)
on_event (process_returned id) s = (process_returns id s, none)

abbrev pub kill_all : Sessions → Sessions
kill_all s = record s { killed = s.procs ++ s.killed }

-- The loop of Execute, and its end: the processes in procs are killed. The result tells whether the manager is
-- uninstalled, none where nothing has ended the loop yet.
unfoldable pub session_loop : List SessionEvent → Sessions → Sessions × Option Bool
unfolding on_event
session_loop [] s = (s, none)
session_loop (c ∷ rest) s =
    let (s', ended) = on_event c s in
    let later = session_loop rest s' in
    elim ended [ none ↦ later | some uninstall ↦ (kill_all s', some uninstall) ]
