-- ===== src/Dump.antt =====
-- A dump on its way from the client to the server: `sendDir` of InfoDumping/InfoDumping.cpp, and
-- `writeDir` of server_linux/server.cpp on the bytes that it sent.
use project.Prelude.{
  ℕ, ◌<◌, ◌≡◌, sym, ◌∙◌, some, List, ◌++◌, length, append_cancel_left, ok, true, arith,
}
use project.Socket.Delivery.{IsLive}
use project.Wire.{size, box_size}
use project.Wire.Format.{Forest, dir, encode, IsTree}
use project.Client.Files.{Node, base_name}
use project.Client.Files.Shows.{Shows}
use project.Client.Send.{send_dir}
use project.Client.Send.Live.{send_dir-encode}
use project.Server.Files.{FilePath, lookup}
use project.Server.Files.Laws.{with_items, IsFresh}
use project.Server.Receive.{join, write_dir}
use project.Server.Receive.Live.{Stored}
use project.Server.Receive.Top.{arrival, write_dir_first}

-- `sent` is what `sendDir` put on the wire for a directory, and the server's connection delivers
-- it. If every Windows call on the directory succeeds, names and sizes fit a box, no call on
-- either connection fails, the paths are new on the server's disk, and the fuel exceeds a box and
-- `sent`, then `sendDir` returned 0, and `writeDir` returns 0 having read exactly `sent` and
-- stored exactly the client's directories and files, byte for byte, under that client's directory.
pub dump_arrives :
    (peer path name : List ℕ) (n : Node) (f : Forest) (client_fuel fuel : ℕ)
    (c : project.Client.Send.Host) (h : project.Server.Receive.Host) (cwd : FilePath)
    (sent tail : List ℕ)
    → (box_size size) < client_fuel
    → Shows name n (dir name f)
    → IsTree size (dir name f)
    → base_name path ≡ some name
    → IsLive c.sock
    → (send_dir size client_fuel path n c).1.sock.output ≡ c.sock.output ++ sent
    → length sent < fuel
    → IsFresh (arrival peer cwd (dir name f) (lookup (join cwd peer) h.disk.items)) h.disk
    → IsLive h.sock
    → h.sock.input ≡ sent ++ tail
    → ((send_dir size client_fuel path n c).0 ≡ ok)
      × Stored sent
          (with_items h.disk (arrival peer cwd (dir name f) (lookup (join cwd peer) h.disk.items)))
          h
          (write_dir peer fuel true cwd h)
dump_arrives peer path name n f client_fuel fuel c h cwd sent tail enough shows v named l out lt
      fresh live input =
    let put =
      send_dir-encode size client_fuel path name n (dir name f) c (omega arith) (omega arith) enough
        shows v named l in
    let same : encode size (dir name f) ≡ sent =
      append_cancel_left c.sock.output (encode size (dir name f)) sent
        (sym put.sends.output ∙ out) in
    (
      put.status,
      rw same at
          (write_dir_first peer name f fuel cwd h tail v (rw same lt) fresh live (rw same input)),
    )
