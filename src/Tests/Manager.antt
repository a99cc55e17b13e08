-- ===== src/Tests/Manager.antt =====
-- manager/ipc_server.go and ipc_client.go, the manager service at concrete inputs.
use amneziawg_windows_client.DnsLog
use amneziawg_windows_client.Tunnel
use amneziawg_windows_client.PortFirewall
use amneziawg_windows_client.Common.{
  none, if◌then◌else◌, some, List, [], false, drop, true, ◌∷◌, any, ◌≡◌, refl, Bool, All, ◌≤◌,
  arith,
}
use amneziawg_windows_client.Common.Text.{◌=ᵗ◌, codes, Text}
use amneziawg_windows_client.DnsLog.{count, set_enabled}
use amneziawg_windows_client.Ipc.{
  update_unknown, bool_value, Value, quit_method_type, text_value, method_value,
  stored_config_method_type, tunnel_value, int_value, decoded_error,
}
use amneziawg_windows_client.Ipc.Events.{
  initialize_ipc_client, update_progressed, Notification, manager_stopping, tunnel_changed,
}
use amneziawg_windows_client.Manager.{Host, Manager, errno, Outside, ManagerService, message}
use amneziawg_windows_client.Manager.CallLaws.{call_all-run_all}
use amneziawg_windows_client.Manager.Link.{pipes, call_all, run_all, Seen, seen}
use amneziawg_windows_client.Manager.LinkLaws.{link}
use amneziawg_windows_client.Manager.Install.{service_marked_for_delete}
use amneziawg_windows_client.Manager.NotifyLaws.{
  heard_of, initialize_ipc_client-follow, follow, stream_of,
}
use amneziawg_windows_client.Manager.QuitLaws.{begun, asked, quit_fails, Run-quits}
use amneziawg_windows_client.Manager.Requests.{
  ask_quit, Request, ask_delete, ask_count, ask_set_enabled, ask_create,
}
use amneziawg_windows_client.Manager.Server.{handle, serve_conn, err_to_string, answer}
use amneziawg_windows_client.Manager.Service.{
  delete, prepare_start, start, quit, wait_for_stop, create,
}
use amneziawg_windows_client.Manager.ShownLaws.{serve_conn-unelevated, IsShown}
use amneziawg_windows_client.Manager.StartLaws.{start-IsRefused, wait_for_stop-ends, IsRefused}
use amneziawg_windows_client.Manager.UpdateLaws.{announced, check_for_updates_lem}
use amneziawg_windows_client.Manager.Updates.{check_for_updates}
use amneziawg_windows_client.Router.{System, raised, returned, World}
use amneziawg_windows_client.Tests.Router.{
  home_config, home_system, home_answers, new_manager, new_world,
}

abbrev calm_ports : PortFirewall.Manager.System
calm_ports = record {
  read_config = λ path config. none;
  mkdir_all = λ path. none;
  write = λ path config. none;
  run = λ script. none;
}

abbrev calm_outside : Outside
calm_outside = record {
  answers = home_answers;
  ports = calm_ports;
  is_ip = λ text. true;
  set_user_key = λ text. none;
  dial = λ again. none;
  write_pipe = λ again. none;
  from_uapi = λ c. returned c;
}

abbrev without_name : Text → List Text → List Text
without_name name [] = []
without_name name (x ∷ xs) = let rest = without_name name xs in if x =ᵗ name then rest else x ∷ rest

-- The services that are installed, which all run; a sleep is enough for the first to go away.
abbrev test_host : (sys : System) → Host sys
test_host sys = record {
  Services = List Text;
  connect = λ s. none;
  service_name = λ name. returned name;
  open_service = λ name s. if any (λ x. x =ᵗ name) s then none else some (errno 1060);
  query_service = λ name s. (none, 4);
  control_stop = λ name s. s;
  delete_service = λ name s. (none, without_name name s);
  close_service = λ name s. none;
  create_service = λ name path s. (none, name ∷ s);
  start_service = λ name s. (none, s);
  executable = some (codes "a.exe");
  sleep = λ s. drop 1 s;
  redact = λ c. record c { keys = [] };
  intersects = λ c c2. true;
  path_of = λ c. returned c.name;
  name_from_path = λ path. returned path;
  delete_name = λ name st. (none, st);
  error_text = λ n. codes "error";
  outside = λ n. calm_outside;
  patience = 10;
}

abbrev test_world : (sys : System) → sys.Store → sys.routing.Table → World sys
test_world sys st t = record { table = t; dns_calls = []; store = st; file = none }

abbrev window : ManagerService
window = record { id = 1; is_elevated = false; events = some [] }

abbrev admin_window : ManagerService
admin_window = record { id = 2; is_elevated = true; events = some [] }

abbrev test_manager : (sys : System) → World sys → Manager (test_host sys)
test_manager sys w = record {
  router = new_manager;
  world = w;
  firewall = record {
    mode = PortFirewall.off;
    rules = [];
    config = record { mode = []; rules = [] };
    config_path = [];
    active_tunnel = [];
  };
  effects = [];
  local_records = [];
  dns_log = record { entries = []; max_size = DnsLog.pos 5; enabled = true };
  tracked = (codes "home", Tunnel.starting) ∷ [];
  services = codes "home" ∷ [];
  is_connected = true;
  pipes = [];
  have_quit = false;
  quits = 0;
  update_state = update_unknown;
  listeners = window ∷ admin_window ∷ [];
  jobs = [];
  requests = 0;
}

abbrev home_host : Host home_system
home_host = test_host home_system

abbrev home_manager : Manager home_host
home_manager = test_manager home_system new_world

abbrev calls : List Request
calls = ask_set_enabled false ∷ ask_create home_config ∷ ask_count ∷ ask_delete (codes "home") ∷ []

abbrev replies : List Seen
replies =
    (none, none)
    ∷ (some (tunnel_value []), some (codes "error"))
    ∷ (some (int_value (DnsLog.pos 0)), none)
    ∷ (none, some (codes "error"))
    ∷ []

abbrev called_manager : Manager home_host
called_manager = record home_manager {
  dns_log = record { entries = []; max_size = DnsLog.pos 5; enabled = false };
  requests = 4;
}

call_all-run_all_example :
    call_all home_host
      (pipes home_host window 2 (codes "broken"))
      calls
      (link home_host window 2 (codes "broken") home_manager)
    ≡ (replies, link home_host window 2 (codes "broken") called_manager)
unfolding run_all handle answer seen decoded_error err_to_string delete create set_enabled count
call_all-run_all_example =
    call_all-run_all home_host window 2 (codes "broken") calls home_manager called_manager replies
      (omega arith) refl

-- The window asks for the keys of its tunnel, and to quit.
abbrev curious : List Value
curious =
    method_value stored_config_method_type
    ∷ text_value (codes "home")
    ∷ method_value quit_method_type
    ∷ bool_value true
    ∷ []

serve_conn-unelevated_example :
    All (IsShown home_host) (serve_conn home_host window 9 curious home_manager).written
    × ((serve_conn home_host window 9 curious home_manager).manager.quits ≡ 0)
    × ((serve_conn home_host window 9 curious home_manager).manager.have_quit ≡ false)
serve_conn-unelevated_example = serve_conn-unelevated home_host window 9 curious home_manager refl

abbrev quitting : Manager home_host
quitting = (handle home_host admin_window (ask_quit true) home_manager).1

Run-quits_example : quitting.quits ≤ 1
Run-quits_example =
    Run-quits home_host home_manager quitting refl refl (asked admin_window (ask_quit true) begun)

-- A registry that cannot be listed.
abbrev blind_system : System
blind_system = record home_system { list_tunnels = λ st. raised (codes "no list") }

abbrev blind_host : Host blind_system
blind_host = test_host blind_system

abbrev blind_manager : Manager blind_host
blind_manager = test_manager blind_system (test_world blind_system home_config [])

abbrev blind_later : Manager blind_host
blind_later = (quit blind_host admin_window true blind_manager).1

quit_fails_example :
    ((quit blind_host admin_window true blind_manager).0
      ≡ (false, some (message (codes "no list"))))
    × ((handle blind_host window (ask_quit true) blind_later).1.quits ≡ 0)
quit_fails_example =
    quit_fails blind_host admin_window blind_manager
      (handle blind_host window (ask_quit true) blind_later).1 (codes "no list") refl refl refl
      (asked window (ask_quit true) begun)

start-IsRefused_example :
    IsRefused home_host (codes "home") home_manager (start home_host (codes "home") home_manager)
unfolding prepare_start
start-IsRefused_example =
    start-IsRefused home_host (codes "home") home_manager home_config refl refl

wait_for_stop-ends_example :
    wait_for_stop home_host (codes "home") home_manager
    ≡ (some none, record home_manager { services = [] })
unfolding ◌=ᵗ◌
wait_for_stop-ends_example =
    wait_for_stop-ends home_host 1 (codes "home") (codes "home") home_manager (errno 1060) refl refl
      (omega arith) (refl, tt) refl refl

-- A host whose services are marked for deletion before they go away.
abbrev marking_host : Host home_system
marking_host = record home_host {
  open_service =
      λ name s. if any (λ x. x =ᵗ name) s then none else some (errno service_marked_for_delete);
}

abbrev news : List (Notification × Bool)
news =
    (tunnel_changed (codes "home") Tunnel.started Tunnel.started none, false)
    ∷ (
      update_progressed (record {
        activity = codes "Downloading";
        bytes_downloaded = 1;
        bytes_total = 2;
        error = none;
        complete = false;
      }),
      true,
    )
    ∷ (manager_stopping, false)
    ∷ []

initialize_ipc_client-follow_example :
    initialize_ipc_client (stream_of (follow news window).events) ≡ heard_of news
initialize_ipc_client-follow_example =
    initialize_ipc_client-follow news window (refl, (tt, (tt, tt))) refl

check_for_updates_lem_example :
    (check_for_updates home_host true
      (raised (codes "offline") ∷ returned true ∷ returned true ∷ [])
      home_manager).0
    ≡ announced home_host home_manager
check_for_updates_lem_example =
    check_for_updates_lem home_host true
      (raised (codes "offline") ∷ returned true ∷ returned true ∷ []) home_manager
