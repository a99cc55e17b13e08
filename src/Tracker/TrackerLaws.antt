-- ===== src/Tracker/TrackerLaws.antt =====
-- manager/tunneltracker.go: which changes are told.
use amneziawg_windows_client.Tunnel
use amneziawg_windows_client.Common.{
  List, Bool, false, ◌∷◌, true, [], ◌≡◌, ◌∙◌, ◌+◌, if_cases, false≢true, sym, if◌then◌else◌, refl,
  if_both, ◌||◌, none,
}
use amneziawg_windows_client.Tracker.{
  Tracker, Notice, Report, on_status, same_state, check_for_disabled, new_tracker,
  notify_state_to_tun_state, error_at, deletion, on_statuses,
}
use amneziawg_windows_client.Tunnel.{TunnelState}
use mathlib.Core.Path.{subst}

-- The state that was told last.
abbrev pub told : List Notice → TunnelState
told [] = Tunnel.unknown
told (n ∷ ns) = n.state

-- Every notice tells another state than the one before it.
abbrev pub IsChanging : List Notice → Type 0
IsChanging [] = Unit
IsChanging (n ∷ ns) = (same_state n.state (told ns) ≡ false) × IsChanging ns

-- What is told and what is tracked agree.
abbrev pub IsTrue : Tracker → Type 0
IsTrue t = (t.tracked ≡ told t.notices) × IsChanging t.notices

abbrev IsCurrent : Tracker → Type 0
IsCurrent t = IsTrue t × (t.last_state ≡ told t.notices)

-- A callback keeps it, or ends at a state that is told to have stopped.
abbrev pub IsStep : Tracker × Bool → Type 0
IsStep (t, ended) =
    IsTrue t
    × (ended ≡ false → t.last_state ≡ told t.notices)
    × (ended ≡ true → told t.notices ≡ Tunnel.stopped)

same_state-eq : (a b : TunnelState) → same_state a b ≡ true → a ≡ b
same_state-eq Tunnel.unknown Tunnel.unknown e = refl
same_state-eq Tunnel.started Tunnel.started e = refl
same_state-eq Tunnel.stopped Tunnel.stopped e = refl
same_state-eq Tunnel.starting Tunnel.starting e = refl
same_state-eq Tunnel.stopping Tunnel.stopping e = refl
same_state-eq _ _ e = absurd (false≢true e)

on_status-IsStep : (report : Report) (t : Tracker) → IsCurrent t → IsStep (on_status report t)
unfolding on_status check_for_disabled
on_status-IsStep report t h =
    let s = notify_state_to_tun_state report.status in
    let err = error_at s report.query in
    let t1 : Tracker = record t { deletions = t.deletions + deletion err } in
    let t2 : Tracker = if same_state s t.last_state then t1 else record t1 {
      tracked = s;
      last_state = s;
      notices = record { state = s; error = err } ∷ t1.notices;
    } in
    let told_now : IsCurrent t2 × (t2.last_state ≡ s) =
      if_cases (λ (t' : Tracker). IsCurrent t' × (t'.last_state ≡ s)) (same_state s t.last_state)
        (λ same. (h, sym (same_state-eq s t.last_state same)))
        (λ other. (((refl, (subst (λ l. same_state s l ≡ false) h.1 other, h.0.1)), refl), refl)) in
    let (current, last) = told_now in
    let P : Tracker × Bool → Type 0 =
      λ (t3, ended). IsStep (t3, ended || same_state s Tunnel.stopped) in
    let goes_on : P (t2, false) = (
      current.0,
      (λ e. current.1),
      (λ e. sym current.1 ∙ last ∙ same_state-eq s Tunnel.stopped e),
    ) in
    if_cases P (same_state s Tunnel.unknown)
      (λ lost.
        let was : Tunnel.unknown ≡ told t2.notices =
          sym (same_state-eq s Tunnel.unknown lost) ∙ sym last ∙ current.1 in
        let gone : Tracker = record t2 {
          tracked = Tunnel.stopped;
          notices = record { state = Tunnel.stopped; error = none } ∷ t2.notices;
          deletions = t2.deletions + 1;
        } in
        let ends : P (gone, true) = (
          (refl, (subst (λ l. same_state Tunnel.stopped l ≡ false) was refl, current.0.1)),
          (λ e. absurd (false≢true (sym e))),
          (λ e. refl),
        ) in
        if_both P report.is_disabled ends goes_on)
      (λ _. goes_on)

on_statuses-IsStep :
    (reports : List Report) (t : Tracker) → IsCurrent t → IsStep (on_statuses reports t)
unfolding on_statuses
on_statuses-IsStep [] t h = (h.0, (λ e. h.1), λ e. absurd (false≢true e))
on_statuses-IsStep (report ∷ reports) t h =
    let (t', ended) = on_status report t in
    let now = on_status-IsStep report t h in
    if_cases IsStep ended (λ e. (now.0, (λ bad. absurd (false≢true (sym bad))), λ _. now.2 e))
      (λ e. on_statuses-IsStep reports t' (now.0, now.1 e))

-- Whatever the service reports to a new tracker, the first notice tells a known state and every
-- later one another state than the one before it, the tracked state is the one told last, and when
-- the tracking ends this is the stopped state.
pub on_statuses-IsTrue :
    (reports : List Report)
    → let (t, ended) = on_statuses reports new_tracker in
      (t.tracked ≡ told t.notices)
      × IsChanging t.notices
      × (ended ≡ true → told t.notices ≡ Tunnel.stopped)
on_statuses-IsTrue reports =
    let step = on_statuses-IsStep reports new_tracker ((refl, tt), refl) in
    (step.0.0, step.0.1, step.2)
