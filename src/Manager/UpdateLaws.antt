-- ===== src/Manager/UpdateLaws.antt =====
-- manager/updatestate.go: the windows are told of an update once.
use amneziawg_windows_client.Common.{
  [], List, ◌≡◌, refl, false, Bool, true, ◌∷◌, if_both, not, ◌∙◌, ◌++◌, ap, if◌then◌else◌, ◌&&◌,
  any, arith, false≢true, if_cases, sym,
}
use amneziawg_windows_client.Ipc.{found_update, updates_disabled}
use amneziawg_windows_client.Manager.{Manager, Host}
use amneziawg_windows_client.Manager.Notify.{notify_update_found}
use amneziawg_windows_client.Manager.Updates.{
  check_round, Pause, check_loop, Checker, hourly, Search, check_for_updates,
}
use amneziawg_windows_client.Router.{System, Fallible, returned, raised}

module _ {sys : System} (host : Host sys) where
  -- Did a check find an update?
  abbrev pub is_found : Fallible Bool → Bool
  is_found (returned found) = found
  is_found (raised why) = false

  abbrev pub announced : Manager host → Manager host
  announced m = notify_update_found host found_update (record m { update_state = found_update })

  -- A round after the windows were told, and one that finds nothing.
  check_round-told :
      (result : Fallible Bool) (c : Checker) (m : Manager host) (pauses : List Pause)
      → c.did_notify ≡ true
      → check_round host result (c, m, pauses) ≡ (c, m, pauses ++ hourly ∷ [])
  unfolding check_round
  check_round-told (returned found) c m pauses h =
      let quiet : (found && not c.did_notify) ≡ false = ground (arith, h) in rw quiet refl
  check_round-told (raised why) c m pauses h = rw h refl

  -- The checker is still silent, and the manager is as before.
  abbrev IsQuiet : Manager host → Search host → Type 0
  IsQuiet m (c, m', pauses) = (c.did_notify ≡ false) × (m' ≡ m)

  check_round-IsQuiet :
      (result : Fallible Bool) (c : Checker) (m : Manager host) (pauses : List Pause)
      → c.did_notify ≡ false
      → is_found result ≡ false
      → IsQuiet m (check_round host result (c, m, pauses))
  unfolding check_round
  check_round-IsQuiet (returned found) c m pauses h e = rw e (h, refl)
  check_round-IsQuiet (raised why) c m pauses h e =
      let P : Search host → Type 0 = λ x. IsQuiet m x in
      if_cases P c.did_notify (λ e'. absurd (false≢true (sym h ∙ e')))
        (λ e'. if_both P c.no_error (h, refl) (h, refl))

  check_loop-told :
      (results : List (Fallible Bool)) (c : Checker) (m : Manager host) (pauses : List Pause)
      → c.did_notify ≡ true
      → (check_loop host results (c, m, pauses)).1 ≡ m
  unfolding check_loop
  check_loop-told [] c m pauses h = refl
  check_loop-told (result ∷ rest) c m pauses h =
      ap (λ x. (check_loop host rest x).1) (check_round-told result c m pauses h)
      ∙ check_loop-told rest c m (pauses ++ hourly ∷ []) h

  check_round-found :
      (c : Checker) (m : Manager host) (pauses : List Pause)
      → c.did_notify ≡ false
      → check_round host (returned true) (c, m, pauses)
        ≡ (record c { did_notify = true }, announced m, pauses)
  unfolding check_round
  check_round-found c m pauses h = let new : not c.did_notify ≡ true = ap not h in rw new refl

  check_loop-announced :
      (results : List (Fallible Bool)) (c : Checker) (m : Manager host) (pauses : List Pause)
      → c.did_notify ≡ false
      → (check_loop host results (c, m, pauses)).1
        ≡ (if any is_found results then announced m else m)
  unfolding check_loop check_round
  check_loop-announced [] c m pauses h = refl
  check_loop-announced (returned true ∷ rest) c m pauses h =
      let c' : Checker = record c { did_notify = true } in
      ap (λ x. (check_loop host rest x).1) (check_round-found c m pauses h)
      ∙ check_loop-told rest c' (announced m) pauses refl
  check_loop-announced (returned false ∷ rest) c m pauses h =
      check_loop-announced rest c m (pauses ++ hourly ∷ []) h
  check_loop-announced (raised why ∷ rest) c m pauses h =
      let (c', m', pauses') = check_round host (raised why) (c, m, pauses) in
      let quiet = check_round-IsQuiet (raised why) c m pauses h refl in
      check_loop-announced rest c' m' pauses' quiet.0
      ∙ ap (λ k. if any is_found rest then announced k else k) quiet.1

  -- What checkForUpdates does to the manager, however often it has checked: an unofficial build is told
  -- so; otherwise the windows are told once that there is an update, if a check has found one, and
  -- nothing else changes. The checks that fail or find nothing, before and after, make no difference.
  pub check_for_updates_lem :
      (is_official : Bool) (results : List (Fallible Bool)) (m : Manager host)
      → (check_for_updates host is_official results m).0 ≡ (
          if not is_official
          then notify_update_found host updates_disabled
              (record m { update_state = updates_disabled })
          else if any is_found results
          then announced m
          else m)
  unfolding check_for_updates
  check_for_updates_lem false results m = refl
  check_for_updates_lem true results m =
      check_loop-announced results (record { no_error = true; did_notify = false }) m [] refl
