-- ===== src/Tests/Tracking.antt =====
-- manager/tunneltracker.go at concrete inputs.
use amneziawg_windows_client.Tunnel
use amneziawg_windows_client.Common.{false, some, refl, ◌∷◌, [], ◌≡◌, map, none, true, List}
use amneziawg_windows_client.Tracker.{Report, Notice, on_statuses, new_tracker}
use amneziawg_windows_client.Tracker.TrackerLaws.{told, on_statuses-IsTrue, IsChanging}

-- A service that starts, runs, and stops with an error.
abbrev some_reports : List Report
some_reports =
    record { status = 2; query = none; is_disabled = false }
    ∷ record { status = 8; query = none; is_disabled = false }
    ∷ record { status = 8; query = none; is_disabled = false }
    ∷ record {
      status = 1;
      query = some (record { win32_exit_code = 1066; specific_exit_code = 3 });
      is_disabled = false;
    }
    ∷ []

told_states :
    map (λ (n : Notice). n.state) (on_statuses some_reports new_tracker).0.notices
    ≡ Tunnel.stopped ∷ Tunnel.started ∷ Tunnel.starting ∷ []
unfolding on_statuses
told_states = refl

on_statuses-IsTrue_example :
    let (t, ended) = on_statuses some_reports new_tracker in
    (t.tracked ≡ told t.notices)
    × IsChanging t.notices
    × (ended ≡ true → told t.notices ≡ Tunnel.stopped)
on_statuses-IsTrue_example = on_statuses-IsTrue some_reports
