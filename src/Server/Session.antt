-- ===== src/Server/Session.antt =====
-- `clientThread` of server_linux/server.cpp. The sleep between two dumps is left out.
pub mod Rounds
use project.Prelude.{
  ℕ, zero, suc, List, put_string, Bool, true, false, Status, ok, err, exit, fault, no_fuel,
}
use project.Wire.{size, box_size}
use project.Wire.Format.{dump_message}
use project.Server.Files.{FilePath}
use project.Server.Transfer.{send_all}
use project.Server.Receive.{Host, Step, write_dir}

-- The buffer of the signal is zeros again before each `strncpy`. `fuel` is what one `writeDir` is given. The loop ends only where a call fails: the count is of the
-- rounds to follow. A result of `err` is the end of the thread.
module _ (peer : List ℕ) (fuel : ℕ) (cwd : FilePath) where
  unfoldable pub client_thread : ℕ → Step
  unfolding write_dir
  client_thread zero h = (no_fuel, h)
  client_thread (suc rounds) h =
      let (sent, s) = send_all (box_size size) (dump_message size) h.sock in
      let (stored, h') = write_dir peer fuel true cwd (record h { sock = s }) in
      elim sent [
        | ok ↦ elim stored [ ok ↦ client_thread rounds h' | other ↦ (other, h') ]
        | other ↦ (other, record h { sock = s })
      ]
