-- ===== src/Daemon/Laws.antt =====
-- The threads of the daemon from their start to their end.
use rs1541fs.Prelude.{ℕ, ◌≡◌, refl, ◌⊎◌, inl, inr, String, Option, none, some}
use rs1541fs.Error.{io, Result, ok, err, panic}
use rs1541fs.Ipc.Server.{IpcServer, start, start_bg_receiver, start_ipc_listener, setup_socket}
use rs1541fs.Daemon.{
  Daemon, new_daemon, Tasks, create_ipc_server, create_bg_proc, start_bg_proc, start_ipc_server,
  take_bg_proc_handle, take_ipc_server_handle_ref, take_bg_listener_handle, start_threads,
}

-- A daemon whose threads are these tasks.
pub record IsRunning (tasks : Tasks) (d : Daemon) : Type 0 where
  pub bg_proc : (channel : ℕ) × (d.bg_proc ≡ some channel)
  pub ipc_server : (server : IpcServer) × (d.ipc_server ≡ some server)
  pub bg_proc_abort : d.bg_proc_abort ≡ some tasks.bg_proc
  pub ipc_server_abort : d.ipc_server_abort ≡ some tasks.ipc_server
  pub bg_listener_abort : d.bg_listener_abort ≡ some tasks.bg_listener

-- How the start of the threads of a new daemon ends.
abbrev pub IsStart : Option String → Tasks → Result (Tasks × Daemon) → Type 0
IsStart bind tasks r =
    ((d : Daemon) × (bind ≡ none)
      × (r ≡ ok (tasks, d))
      × IsRunning tasks d
      × (start_threads bind tasks d ≡ panic))
    ⊎ ((e : String) × (bind ≡ some e) × (r ≡ err (io "Failed to bind Unix socket" e)))

-- The start of a new daemon's threads never panics: it gives the three tasks and a daemon that runs
-- them, which is not started a second time, or the error of binding the socket.
pub start_threads-IsStart :
    (bind : Option String) (tasks : Tasks) (pid bg_proc_channel bg_rsp_channel : ℕ)
    → IsStart bind tasks (start_threads bind tasks (new_daemon pid bg_proc_channel bg_rsp_channel))
unfolding start_threads new_daemon create_bg_proc create_ipc_server start_bg_proc start_ipc_server
    start start_bg_receiver start_ipc_listener setup_socket take_bg_proc_handle
    take_ipc_server_handle_ref take_bg_listener_handle
start_threads-IsStart none tasks pid bg_proc_channel bg_rsp_channel = inl (
  _,
  refl,
  refl,
  record {
    bg_proc = (bg_proc_channel, refl);
    ipc_server = (_, refl);
    bg_proc_abort = refl;
    ipc_server_abort = refl;
    bg_listener_abort = refl;
  },
  refl,
)
start_threads-IsStart (some e) tasks pid bg_proc_channel bg_rsp_channel = inr (e, refl, refl)
