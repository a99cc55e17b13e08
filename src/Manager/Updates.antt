-- ===== src/Manager/Updates.antt =====
-- manager/updatestate.go: the search for updates.
use amneziawg_windows_client.Common.{
  [], if◌then◌else◌, ◌++◌, true, List, ◌&&◌, Bool, not, false, ◌∷◌,
}
use amneziawg_windows_client.Ipc.{updates_disabled, found_update}
use amneziawg_windows_client.Manager.{Manager, Host}
use amneziawg_windows_client.Manager.Notify.{notify_update_found}
use amneziawg_windows_client.Router.{System, raised, returned, Fallible}

-- How long the loop sleeps: four to six minutes, 25 to 30, or about an hour.
pub data Pause : Type 0 where
  first_retry later_retry hourly : Pause

-- noError and didNotify
pub record Checker : Type 0 where
  pub no_error : Bool
  pub did_notify : Bool

module _ {sys : System} (host : Host sys) where
  -- The state and the pauses, the newest last.
  abbrev pub Search : Type 0
  Search = Checker × Manager host × List Pause

  abbrev pub pause : Pause → Search → Search
  pause p (c, m, pauses) = (c, m, pauses ++ p ∷ [])

  -- One round of the loop of checkForUpdates; CheckForUpdate finds an update, or none, or fails.
  unfoldable pub check_round : Fallible Bool → Search → Search
  unfolding notify_update_found
  check_round (returned found) (c, m, pauses) =
      if found && not c.did_notify
      then (
        record c { did_notify = true },
        notify_update_found host found_update (record m { update_state = found_update }),
        pauses,
      )
      else pause hourly (c, m, pauses)
  check_round (raised why) (c, m, pauses) =
      if c.did_notify
      then pause hourly (c, m, pauses)
      else if c.no_error
      then pause first_retry (record c { no_error = false }, m, pauses)
      else pause later_retry (c, m, pauses)

  unfoldable pub check_loop : List (Fallible Bool) → Search → Search
  unfolding check_round
  check_loop [] search = search
  check_loop (result ∷ rest) search = check_loop rest (check_round result search)

  -- checkForUpdates, over the first results.
  unfoldable pub check_for_updates :
      Bool → List (Fallible Bool) → Manager host → Manager host × List Pause
  unfolding notify_update_found check_loop
  check_for_updates is_official results m =
      if not is_official
      then (
        notify_update_found host updates_disabled (record m { update_state = updates_disabled }),
        [],
      )
      else let (c, m', pauses) =
          check_loop results (record { no_error = true; did_notify = false }, m, []) in
        (m', pauses)
